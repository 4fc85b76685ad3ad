-- ===== src/Ide/Edit/Refinement.antt =====
-- The commands on a rope do what the commands on a document do (poc-ide/src/edit.rs).
use progressive_lsp.Base.{
  ℕ, zero, suc, ◌+◌, ◌-◌, ◌≤◌, ◌≡◌, refl, ap, ◌∙◌, arith, Text, List, [], ◌∷◌, ◌++◌, length,
  length-append, length-take, length-drop, take, drop, Result, ok, Bool-cases, inl, inr, ◌==◌,
  nat_eq,
}
use progressive_lsp.Ide.Ports.{IdeError, ClipboardPort, Rope}
use native.Mathlib.Nat.{sub-zero}
use progressive_lsp.Ide.Buffer.{OpenBuffer, selected_text}
use progressive_lsp.Ide.Buffer.Bounds.{IsValid}
use progressive_lsp.Ide.Edit.{EditCommand, insert, delete, select, cut, copy, paste, apply}
use progressive_lsp.Ide.Edit.Document.{
  Document, replace, selected, type_text, erase, erase_forward, perform,
}
use progressive_lsp.Ide.Edit.Buffers.{
  take-drop, take-take_append, drop-take_append, view, view-set_selection, selected_text-view,
  view-delete_selection_only, view-delete_range_or_forward, view-insert_text,
}

-- A document whose range is in order and within its text.
pub record Fits (d : Document) : Type 0 where
  pub ordered : d.start ≤ d.end
  pub within : d.end ≤ length d.text

length-replace :
    (i j : ℕ) (new s : Text)
    → i ≤ j
    → j ≤ length s
    → length (replace i j new s) + (j - i) ≡ length s + length new
length-replace i j new s p q = omega (
  arith,
  length-append (take i s) (new ++ drop j s),
  length-append new (drop j s),
  length-take i s,
  length-drop j s,
)

type_text-Fits : (s : Text) (d : Document) → Fits d → Fits (type_text s d)
type_text-Fits s d f = ground (arith, length-replace d.start d.end s d.text f.ordered f.within)

erase-Fits : (d : Document) → Fits d → Fits (erase d)
erase-Fits d f = ground (arith, length-replace d.start d.end [] d.text f.ordered f.within)

erase_forward-Fits : (d : Document) → Fits d → Fits (erase_forward d)
erase_forward-Fits d f =
    let short : d.start ≡ d.end → d.end ≤ length (replace d.start (d.start + 1) [] d.text) =
      (λ same. omega (
        arith,
        f.within,
        length-append (take d.start d.text) (drop (d.start + 1) d.text),
        length-take d.start d.text,
        length-drop (d.start + 1) d.text,
      )) in
    elim (Bool-cases (d.start == d.end)) [
      | inl same ↦ rw same (record { ordered = f.ordered; within = short (ground arith) })
      | inr differs ↦ rw differs (erase-Fits d f)
    ]

perform-Fits :
    (port : ClipboardPort) (cmd : EditCommand) (d : Document) (c : port.Clipboard)
    → Fits d
    → Fits (perform port cmd d c).0
unfolding perform
perform-Fits port (insert s) d c f = type_text-Fits s d f
perform-Fits port delete d c f = erase_forward-Fits d f
perform-Fits port (select s) d c f = ground arith
perform-Fits port cut d c f = ground (arith, erase-Fits d f)
perform-Fits port copy d c f = ground arith
perform-Fits port paste d c f = grind (arith, λ (s : Text). type_text-Fits s d f)

module _ {rope : Rope} where
  view-Fits : (b : OpenBuffer rope) → IsValid b → Fits (view b)
  view-Fits b v = record { ordered = v.ordered; within = v.within }

  Fits-IsValid : (b : OpenBuffer rope) (d : Document) → view b ≡ d → Fits d → IsValid b
  Fits-IsValid b d e f = ground (arith, e, f.ordered, f.within)

module _ {rope : Rope} (port : ClipboardPort) where
  open port use {Clipboard, get_text, set_text}

  apply_refines :
      (cmd : EditCommand) (b : OpenBuffer rope) (c : Clipboard)
      → IsValid b
      → (let (b', c', r) = apply port cmd b c in (view b', c', r)) ≡ perform port cmd (view b) c
  unfolding apply perform
  apply_refines (insert s) b c v = ap (λ d. (d, c, ok tt)) (view-insert_text b s v)
  apply_refines delete b c v = ap (λ d. (d, c, ok tt)) (view-delete_range_or_forward b v)
  apply_refines (select s) b c v = ap (λ d. (d, c, ok tt)) (view-set_selection b s)
  apply_refines cut b c v = ground (arith, selected_text-view b v, view-delete_selection_only b v)
  apply_refines copy b c v = ground (arith, selected_text-view b v)
  apply_refines paste b c v = grind (arith, λ (s : Text). view-insert_text b s v)

  apply-IsValid :
      (cmd : EditCommand) (b : OpenBuffer rope) (c : Clipboard)
      → IsValid b
      → IsValid (apply port cmd b c).0
  apply-IsValid cmd b c v =
      Fits-IsValid (apply port cmd b c).0 (perform port cmd (view b) c).0
        (ap (λ t. t.0) (apply_refines cmd b c v)) (perform-Fits port cmd (view b) c (view-Fits b v))

  -- Some commands one after the other, with what each of them returns.
  abbrev pub run :
      List EditCommand
      → OpenBuffer rope
      → Clipboard
      → OpenBuffer rope × Clipboard × List (Result (Unit {0}) IdeError)
  run [] b c = (b, c, [])
  run (cmd ∷ cmds) b c =
      let (b', c', r) = apply port cmd b c in
      let (b'', c'', rs) = run cmds b' c' in (b'', c'', r ∷ rs)

module _ (port : ClipboardPort) where
  abbrev pub run_document :
      List EditCommand
      → Document
      → port.Clipboard
      → Document × port.Clipboard × List (Result (Unit {0}) IdeError)
  run_document [] d c = (d, c, [])
  run_document (cmd ∷ cmds) d c =
      let (d', c', r) = perform port cmd d c in
      let (d'', c'', rs) = run_document cmds d' c' in (d'', c'', r ∷ rs)

-- From a buffer whose selection is in order and within its text, any commands do to the buffer,
-- the clipboard and the results what they do to the document that the buffer shows, a list of
-- characters with a range; and the selection is in order and within the text afterwards.
pub run_refines :
    {rope : Rope} (port : ClipboardPort) (cmds : List EditCommand) (b : OpenBuffer rope)
    (c : port.Clipboard)
    → IsValid b
    → (let (b', c', rs) = run port cmds b c in (view b', c', rs))
        ≡ run_document port cmds (view b) c
      × IsValid (run port cmds b c).0
run_refines port [] b c v = (refl, v)
run_refines port (cmd ∷ cmds) b c v =
    let e = apply_refines port cmd b c v in
    let (ih, v') =
      run_refines port cmds (apply port cmd b c).0 (apply port cmd b c).1
        (apply-IsValid port cmd b c v) in
    (rw (← e) (ap (λ t. (t.0, t.1, (apply port cmd b c).2 ∷ t.2)) ih), v')

take-nil : (n : ℕ) → take {A = ℕ} n [] ≡ []
take-nil zero = refl
take-nil (suc n) = refl

take-drop_between : (i j : ℕ) (s : Text) → i ≤ j → take (j - i) (drop i s) ++ drop j s ≡ drop i s
take-drop_between zero j s h = rw (sub-zero j) (take-drop j s)
take-drop_between (suc i) zero s h = absurd (omega arith)
take-drop_between (suc i) (suc j) [] h = rw (take-nil (suc j - suc i))
take-drop_between (suc i) (suc j) (c ∷ s) h =
    let e : suc j - suc i ≡ j - i = omega arith in rw e (take-drop_between i j s (omega arith))

-- What was cut comes back in its place.
type-erase : (d : Document) → Fits d → (type_text (selected d) (erase d)).text ≡ d.text
type-erase d f =
    let fits : d.start ≤ length d.text = omega (arith, f.ordered, f.within) in
    rw
      (
        take-take_append d.start d.text (drop d.end d.text) fits,
        drop-take_append d.start d.text (drop d.end d.text) fits,
        take-drop_between d.start d.end d.text f.ordered,
      )
      (take-drop d.start d.text)

run_document-cut_paste :
    (port : ClipboardPort) (d : Document) (c c' c'' : port.Clipboard)
    → Fits d
    → port.set_text c (selected d) ≡ (c', ok tt)
    → port.get_text c' ≡ (c'', ok (selected d))
    → (run_document port (cut ∷ paste ∷ []) d c).0.text ≡ d.text
unfolding perform
run_document-cut_paste port d c c' c'' f sets gets = ground (arith, type-erase d f)

-- What is cut and pasted at once comes back, if the clipboard gives what it was given.
cut-paste :
    {rope : Rope} (port : ClipboardPort) (b : OpenBuffer rope) (c c' c'' : port.Clipboard)
    → IsValid b
    → port.set_text c (selected_text b) ≡ (c', ok tt)
    → port.get_text c' ≡ (c'', ok (selected_text b))
    → rope.to_string (run port (cut ∷ paste ∷ []) b c).0.text ≡ rope.to_string b.text
cut-paste port b c c' c'' v sets gets =
    let e = selected_text-view b v in
    ap (λ t. t.0.text) (run_refines port (cut ∷ paste ∷ []) b c v).0
    ∙ run_document-cut_paste port (view b) c c' c'' (view-Fits b v) (rw e at sets) (rw e at gets)
