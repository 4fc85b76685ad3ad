-- ===== src/Ide/Edit/Document.antt =====
-- What an editor is to do: a document is a text with a range in it, and a command acts on the list
-- of characters.
use progressive_lsp.Base.{
  ℕ, ◌+◌, ◌-◌, [], ◌++◌, Text, if◌then◌else◌, ◌==◌, nat_eq, length, take, drop, Result, ok, err,
  min, max,
}
use progressive_lsp.Ide.Ports.{IdeError, ClipboardPort}
use progressive_lsp.Ide.Edit.{EditCommand, insert, delete, select, cut, copy, paste}

pub record Document : Type 0 where
  pub text : Text
  pub start : ℕ
  pub end : ℕ

-- The characters from `i` on up to `j` give way to a text.
abbrev pub replace : ℕ → ℕ → Text → Text → Text
replace i j new s = take i s ++ (new ++ drop j s)

abbrev pub selected : Document → Text
selected d = take (d.end - d.start) (drop d.start d.text)

-- The text stands for the selection, and the caret behind it.
abbrev pub type_text : Text → Document → Document
type_text new d = record {
  text = replace d.start d.end new d.text;
  start = d.start + length new;
  end = d.start + length new;
}

-- The selection goes, and the caret stands where it was.
abbrev pub erase : Document → Document
erase d = record { text = replace d.start d.end [] d.text; start = d.start; end = d.start }

-- Without a selection the character behind the caret goes, if there is one.
abbrev pub erase_forward : Document → Document
erase_forward d =
    if d.start == d.end
    then record d { text = replace d.start (d.start + 1) [] d.text }
    else erase d

-- A range is put in order, and ends where the text does.
abbrev pub choose : ℕ → ℕ → Document → Document
choose i j d = record {
  text = d.text;
  start = min (min i j) (length d.text);
  end = min (max i j) (length d.text);
}

module _ (port : ClipboardPort) where
  open port use {Clipboard, get_text, set_text}

  -- A command takes effect only where the clipboard answers.
  unfoldable pub perform :
      EditCommand → Document → Clipboard → Document × Clipboard × Result (Unit {0}) IdeError
  perform (insert s) d c = (type_text s d, c, ok tt)
  perform delete d c = (erase_forward d, c, ok tt)
  perform (select s) d c = (choose s.start s.end d, c, ok tt)
  perform cut d c =
      let (c', r) = set_text c (selected d) in
      elim r [ err e ↦ (d, c', err e) | ok _ ↦ (erase d, c', ok tt) ]
  perform copy d c =
      let (c', r) = set_text c (selected d) in
      elim r [ err e ↦ (d, c', err e) | ok _ ↦ (d, c', ok tt) ]
  perform paste d c =
      let (c', r) = get_text c in
      elim r [ err e ↦ (d, c', err e) | ok s ↦ (type_text s d, c', ok tt) ]
