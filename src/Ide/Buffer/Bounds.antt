-- ===== src/Ide/Buffer/Bounds.antt =====
-- The selection of a buffer stays in order and within its text (poc-ide/src/buffer.rs).
use progressive_lsp.Base.{ℕ, ◌≤◌, ◌≡◌, arith, length}
use progressive_lsp.Ide.Ports.{Rope}
use progressive_lsp.Ide.Buffer.{Selection, OpenBuffer, new_selection, clamp_selection}

module _ {rope : Rope} where
  open rope use {to_string, len_chars_lem, to_string-remove, to_string-insert}

  abbrev pub size : OpenBuffer rope → ℕ
  size b = length (to_string b.text)

  pub record IsValid (b : OpenBuffer rope) : Type 0 where
    pub ordered : b.selection.start ≤ b.selection.end
    pub within : b.selection.end ≤ size b

  -- A range is clamped into the text, and one that fits is left as it is.
  pub clamp_selection_bounds :
      (b : OpenBuffer rope) (s : Selection)
      → ((clamp_selection b s).start ≤ (clamp_selection b s).end)
        × ((clamp_selection b s).end ≤ size b)
  unfolding clamp_selection
  clamp_selection_bounds b s = ground (arith, len_chars_lem b.text)

  pub clamp_selection-IsValid :
      (b : OpenBuffer rope) → IsValid b → clamp_selection b b.selection ≡ b.selection
  unfolding clamp_selection new_selection
  clamp_selection-IsValid b v = ground (arith, len_chars_lem b.text, v.ordered, v.within)
