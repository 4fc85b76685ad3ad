-- ===== src/Ide/Buffer.antt =====
-- poc-ide/src/buffer.rs: an open file, its selection and its dirty flag, and the map of open files.
-- The offsets count characters.
pub mod Bounds
pub mod Saving
use progressive_lsp.Base.{
  ℕ, ◌+◌, ◌-◌, ◌≡◌, [], ◌∷◌, Bool, true, false, not, ◌||◌, Option, none, some, Text, text_eq,
  if◌then◌else◌, ltb, leb, ◌==◌, nat_eq, length, Result, ok, err, min, saturating_add,
}
use progressive_lsp.Base.Map
use progressive_lsp.Base.Map.{Map}
use progressive_lsp.Base.Utf8.{as_bytes, from_utf8}
use progressive_lsp.Ide.Ports.{IdeError, invalid_utf8, FsPort, Rope}

pub record Selection : Type 0 where
  pub start : ℕ
  pub end : ℕ

unfoldable pub new_selection : ℕ → ℕ → Selection
new_selection start end =
    if leb start end
    then record { start = start; end = end }
    else record { start = end; end = start }

abbrev pub collapsed : ℕ → Selection
collapsed offset = record { start = offset; end = offset }

pub record DirtyFlag : Type 0 where
  pub dirty : Bool

abbrev pub clean : DirtyFlag
clean = record { dirty = false }

abbrev pub marked : DirtyFlag
marked = record { dirty = true }

abbrev pub is_empty : Text → Bool
is_empty [] = true
is_empty (c ∷ s) = false

module _ (fs : FsPort) where
  open fs use {Files, read}

  -- A read that is decoded: `fs.read(path)?` and `String::from_utf8`.
  unfoldable pub read_text : Files → Text → Result Text IdeError
  read_text files path = elim (read files path) [
    | err e ↦ err e
    | ok bytes ↦ elim (from_utf8 bytes) [ none ↦ err (invalid_utf8 path) | some s ↦ ok s ]
  ]

module _ (rope : Rope) where
  pub record OpenBuffer : Type 0 where
    pub path : Text
    pub text : rope.Carrier
    pub selection : Selection
    pub dirty : DirtyFlag
    pub generation : ℕ  -- u64

module _ {rope : Rope} where
  open rope use {from_str, to_string, len_chars, slice, remove, insert}

  unfoldable pub clamp_selection : OpenBuffer rope → Selection → Selection
  unfolding new_selection
  clamp_selection b s =
      new_selection (min s.start (len_chars b.text)) (min s.end (len_chars b.text))

  unfoldable pub set_selection : OpenBuffer rope → Selection → OpenBuffer rope
  unfolding clamp_selection
  set_selection b s = record b { selection = clamp_selection b s }

  unfoldable pub selected_text : OpenBuffer rope → Text
  selected_text b = let s = clamp_selection b b.selection in slice b.text s.start s.end

  -- What follows a change: the mark, and the next generation.
  abbrev pub changed : OpenBuffer rope → OpenBuffer rope
  changed b = record b { dirty = marked; generation = saturating_add b.generation 1 }

  unfoldable pub insert_text : OpenBuffer rope → Text → OpenBuffer rope × Bool
  insert_text b s =
      let sel = clamp_selection b b.selection in
      let change = not (sel.start == sel.end) || not (is_empty s) in
      let removed = if sel.start == sel.end then b.text else remove b.text sel.start sel.end in
      let inserted = if is_empty s then removed else insert removed sel.start s in
      let b' = record b { text = inserted; selection = collapsed (sel.start + length s) } in
      (if change then changed b' else b', change)

  unfoldable pub delete_range_or_forward : OpenBuffer rope → OpenBuffer rope × Bool
  delete_range_or_forward b =
      let sel = clamp_selection b b.selection in
      if not (sel.start == sel.end)
      then (
        changed
            (record b { text = remove b.text sel.start sel.end; selection = collapsed sel.start }),
        true,
      )
      else if ltb sel.start (len_chars b.text)
      then (changed (record b { text = remove b.text sel.start (sel.start + 1) }), true)
      else (b, false)

  unfoldable pub delete_selection_only : OpenBuffer rope → OpenBuffer rope × Bool
  delete_selection_only b =
      let sel = clamp_selection b b.selection in
      if sel.start == sel.end then (b, false) else (
        changed
            (record b { text = remove b.text sel.start sel.end; selection = collapsed sel.start }),
        true,
      )

  module _ (fs : FsPort) where
    open fs use {Files, canonicalize, write}

    unfoldable pub load : Files → Text → Result (OpenBuffer rope) IdeError
    unfolding read_text
    load files path = elim (canonicalize files path) [
      | err e ↦ err e
      | ok canon ↦ elim (read_text fs files canon) [
        | err e ↦ err e
        | ok s ↦ ok (record {
          path = canon;
          text = from_str s;
          selection = collapsed 0;
          dirty = clean;
          generation = 0;
        })
      ]
    ]

    -- The buffer and the files after a save, and whether it worked.
    unfoldable pub save :
        Files → OpenBuffer rope → Files × OpenBuffer rope × Result (Unit {0}) IdeError
    save files b = elim (write files b.path (as_bytes (to_string b.text))) [
      | err e ↦ (files, b, err e)
      | ok files' ↦ (files', record b { dirty = clean }, ok tt)
    ]

    unfoldable pub reload_from : Files → OpenBuffer rope → Result (OpenBuffer rope) IdeError
    unfolding read_text clamp_selection
    reload_from files b = elim (read_text fs files b.path) [
      | err e ↦ err e
      | ok s ↦
          let b' = record b { text = from_str s; dirty = clean } in
          ok (record b' {
            selection = clamp_selection b' b'.selection;
            generation = saturating_add b'.generation 1;
          })
    ]

    -- `BufferMap::open`: the buffer of the canonical path, loaded if it is not open yet.
    unfoldable pub open_path :
        Files
        → Map Text (OpenBuffer rope)
        → Text
        → Result (Map Text (OpenBuffer rope) × OpenBuffer rope) IdeError
    unfolding load
    open_path files buffers path = elim (canonicalize files path) [
      | err e ↦ err e
      | ok canon ↦ elim (Map.get canon buffers) [
        | some b ↦ ok (buffers, b)
        | none ↦ elim (load files canon) [
          | err e ↦ err e
          | ok b ↦ ok (Map.insert canon b buffers, b)
        ]
      ]
    ]
