-- ===== src/Ide/Edit/Buffers.antt =====
-- Each operation of a buffer on its text and selection (poc-ide/src/buffer.rs).
use progressive_lsp.Base.{
  ℕ, zero, suc, ◌+◌, ◌≤◌, ◌≡◌, refl, sym, ap, arith, Text, [], ◌∷◌, ◌++◌, length, length-append,
  length-take, take, drop, take-append, drop-append, Bool-cases, inl, inr, ◌==◌, nat_eq,
  if◌then◌else◌,
}
use progressive_lsp.Ide.Ports.{Rope}
use native.Mathlib.Numerals.{add-one}
use progressive_lsp.Ide.Buffer.{
  is_empty, Selection, OpenBuffer, new_selection, clamp_selection, set_selection, selected_text,
  insert_text, delete_range_or_forward, delete_selection_only,
}
use progressive_lsp.Ide.Buffer.Bounds.{IsValid, clamp_selection-IsValid}
use progressive_lsp.Ide.Edit.Document.{
  Document, replace, selected, type_text, erase, erase_forward, choose,
}

pub take-drop : (n : ℕ) (s : Text) → take n s ++ drop n s ≡ s
take-drop zero s = refl
take-drop (suc n) [] = refl
take-drop (suc n) (c ∷ s) = ap (c ∷◌) (take-drop n s)

pub take-take_append : (n : ℕ) (s t : Text) → n ≤ length s → take n (take n s ++ t) ≡ take n s
take-take_append n s t h =
    let e : length (take n s) ≡ n = omega (arith, length-take n s) in
    let r = take-append (take n s) t in rw e at r

pub drop-take_append : (n : ℕ) (s t : Text) → n ≤ length s → drop n (take n s ++ t) ≡ t
drop-take_append n s t h =
    let e : length (take n s) ≡ n = omega (arith, length-take n s) in
    let r = drop-append (take n s) t in rw e at r

-- At the end of the text there is nothing to erase.
take-drop_past : (n : ℕ) (s : Text) → length s ≤ n → take n s ++ drop (suc n) s ≡ s
take-drop_past zero [] h = refl
take-drop_past zero (c ∷ s) h = absurd (omega arith)
take-drop_past (suc n) [] h = refl
take-drop_past (suc n) (c ∷ s) h = ap (c ∷◌) (take-drop_past n s (omega arith))

replace_past : (n : ℕ) (s : Text) → length s ≤ n → replace n (n + 1) [] s ≡ s
replace_past n s h = rw (add-one n) (take-drop_past n s h)

with_text :
    (rope : Rope) (r : rope.Carrier) (i : ℕ) (s : Text)
    → i ≤ length (rope.to_string r)
    → rope.to_string (if is_empty s then r else rope.insert r i s)
      ≡ take i (rope.to_string r) ++ (s ++ drop i (rope.to_string r))
with_text rope r i [] h = sym (take-drop i (rope.to_string r))
with_text rope r i (c ∷ s) h = rope.to_string-insert r i (c ∷ s) h

module _ {rope : Rope} where
  open rope use {
    Carrier, to_string, len_chars, len_chars_lem, slice_lem, to_string-remove, to_string-insert,
    remove,
  }

  abbrev pub view : OpenBuffer rope → Document
  view b = record { text = to_string b.text; start = b.selection.start; end = b.selection.end }

  pub view-set_selection :
      (b : OpenBuffer rope) (s : Selection)
      → view (set_selection b s) ≡ choose s.start s.end (view b)
  unfolding set_selection clamp_selection new_selection
  view-set_selection b s = ground (arith, len_chars_lem b.text)

  pub selected_text-view : (b : OpenBuffer rope) → IsValid b → selected_text b ≡ selected (view b)
  unfolding selected_text
  selected_text-view b v =
      rw (selected_text, clamp_selection-IsValid b v)
        (slice_lem b.text b.selection.start b.selection.end v.ordered v.within)

  pub view-delete_selection_only :
      (b : OpenBuffer rope) → IsValid b → view (delete_selection_only b).0 ≡ erase (view b)
  unfolding delete_selection_only
  view-delete_selection_only b v = rw (clamp_selection-IsValid b v) (
      ground (
        arith,
        to_string-remove b.text b.selection.start b.selection.end v.ordered v.within,
        take-drop b.selection.start (to_string b.text),
        ap (λ i. drop i (to_string b.text)) {x = b.selection.start} {y = b.selection.end},
      ))

  pub view-delete_range_or_forward :
      (b : OpenBuffer rope)
      → IsValid b
      → view (delete_range_or_forward b).0 ≡ erase_forward (view b)
  unfolding delete_range_or_forward
  view-delete_range_or_forward b v = rw (clamp_selection-IsValid b v) (
      ground (
        arith,
        len_chars_lem b.text,
        to_string-remove b.text b.selection.start b.selection.end v.ordered v.within,
        to_string-remove b.text b.selection.start (b.selection.start + 1),
        replace_past b.selection.start (to_string b.text),
      ))

  -- The text without the selection, and with the new text at the caret.
  without : OpenBuffer rope → Carrier
  without b =
      if b.selection.start == b.selection.end
      then b.text
      else remove b.text b.selection.start b.selection.end

  without_parts :
      (b : OpenBuffer rope)
      → IsValid b
      → (b.selection.start ≤ length (to_string (without b)))
        × (take b.selection.start (to_string (without b))
            ≡ take b.selection.start (to_string b.text))
        × (drop b.selection.start (to_string (without b)) ≡ drop b.selection.end (to_string b.text))
  unfolding without
  without_parts b v = elim (Bool-cases (b.selection.start == b.selection.end)) [
    | inl same ↦ rw same (ground arith, refl, ground arith)
    | inr differs ↦
        rw (differs, to_string-remove b.text b.selection.start b.selection.end v.ordered v.within)
          (
            omega (
              arith,
              length-append (take b.selection.start (to_string b.text))
                  (drop b.selection.end (to_string b.text)),
              length-take b.selection.start (to_string b.text),
            ),
            take-take_append b.selection.start (to_string b.text) _ (omega arith),
            drop-take_append b.selection.start (to_string b.text) _ (omega arith),
          )
  ]

  pub view-insert_text :
      (b : OpenBuffer rope) (s : Text) → IsValid b → view (insert_text b s).0 ≡ type_text s (view b)
  unfolding insert_text without
  view-insert_text b s v =
      let (fits, before, after) = without_parts b v in
      rw (clamp_selection-IsValid b v)
        (ground (arith, with_text rope (without b) b.selection.start s fits, before, after))
