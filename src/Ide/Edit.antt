-- ===== src/Ide/Edit.antt =====
-- poc-ide/src/edit.rs: the commands that change an open buffer.
pub mod Document
pub mod Buffers
pub mod Refinement
use progressive_lsp.Base.{Text, Result, ok, err}
use progressive_lsp.Ide.Ports.{IdeError, ClipboardPort, Rope}
use progressive_lsp.Ide.Buffer.{
  Selection, OpenBuffer, set_selection, selected_text, insert_text, delete_range_or_forward,
  delete_selection_only,
}

pub data EditCommand : Type 0 where
  insert : Text → EditCommand
  delete : EditCommand
  select : Selection → EditCommand
  cut copy paste : EditCommand

module _ {rope : Rope} (port : ClipboardPort) where
  open port use {Clipboard, get_text, set_text}

  -- The buffer and the clipboard after a command, and whether it worked.
  unfoldable pub apply :
      EditCommand
      → OpenBuffer rope
      → Clipboard
      → OpenBuffer rope × Clipboard × Result (Unit {0}) IdeError
  apply (insert s) b c = ((insert_text b s).0, c, ok tt)
  apply delete b c = ((delete_range_or_forward b).0, c, ok tt)
  apply (select s) b c = (set_selection b s, c, ok tt)
  apply cut b c =
      let (c', r) = set_text c (selected_text b) in
      elim r [ err e ↦ (b, c', err e) | ok _ ↦ ((delete_selection_only b).0, c', ok tt) ]
  apply copy b c =
      let (c', r) = set_text c (selected_text b) in
      elim r [ err e ↦ (b, c', err e) | ok _ ↦ (b, c', ok tt) ]
  apply paste b c =
      let (c', r) = get_text c in
      elim r [ err e ↦ (b, c', err e) | ok s ↦ ((insert_text b s).0, c', ok tt) ]
