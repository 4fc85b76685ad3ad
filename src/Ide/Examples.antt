-- ===== src/Ide/Examples.antt =====
-- A rope, a clipboard and files of a simple kind, and what the editor does with them (poc-ide).
use progressive_lsp.Base.{
  ℕ, ◌-◌, ◌≡◌, refl, arith, List, [], ◌∷◌, ◌++◌, true, Option, none, some, Text, text_eq, codes,
  length, take, drop, Result, ok, err,
}
use progressive_lsp.Base.Map
use progressive_lsp.Base.Map.{Map}
use progressive_lsp.Base.Bytes.{Bytes}
use progressive_lsp.Ide.Ports.{IdeError, not_found, clipboard, FsPort, ClipboardPort, Rope}
use progressive_lsp.Ide.Buffer.{OpenBuffer, marked}
use progressive_lsp.Ide.Buffer.Bounds.{IsValid}
use progressive_lsp.Ide.Edit.{EditCommand, delete, select, cut, paste}
use progressive_lsp.Ide.Edit.Refinement.{run, run_document, run_refines}
use progressive_lsp.Ide.Tabs.{new_strip}
use progressive_lsp.Ide.Tabs.Focus
use progressive_lsp.Ide.Tabs.Focus.{call_open, call_focus, call_close}
use progressive_lsp.Ide.DiskWatch.{DiskEvent, DiskWatch, new_watch, is_pending, ingest}
use progressive_lsp.Ide.DiskWatch.Prompts.{ingest-is_pending}
use progressive_lsp.Ide.Edit.Buffers.{view}

abbrev text_rope : Rope
text_rope = record {
  Carrier = Text;
  from_str = λ s. s;
  to_string = λ s. s;
  len_chars = length;
  slice = λ r i j. take (j - i) (drop i r);
  remove = λ r i j. take i r ++ drop j r;
  insert = λ r i s. take i r ++ (s ++ drop i r);
  to_string-from_str = λ s. refl;
  len_chars_lem = λ r. refl;
  slice_lem = λ r i j p q. refl;
  to_string-remove = λ r i j p q. refl;
  to_string-insert = λ r i s p. refl;
}

abbrev get_clipboard : Option Text → Option Text × Result Text IdeError
get_clipboard none = (none, err (clipboard (codes "empty")))
get_clipboard (some s) = (some s, ok s)

abbrev memory_clipboard : ClipboardPort
memory_clipboard = record {
  Clipboard = Option Text;
  get_text = get_clipboard;
  set_text = λ c s. (some s, ok tt);
}

abbrev read_file : Map Text Bytes → Text → Result Bytes IdeError
read_file files path = elim (Map.get path files) [ none ↦ err (not_found path) | some b ↦ ok b ]

abbrev memory_fs : FsPort
memory_fs = record {
  Files = Map Text Bytes;
  canonicalize = λ files path. ok path;
  is_dir = λ files path. true;
  read_dir = λ files path. ok [];
  read = read_file;
  write = λ files path b. ok (Map.insert path b files);
}

-- "abcd" with "bc" selected.
abbrev buffer : OpenBuffer text_rope
buffer = record {
  path = codes "/a";
  text = codes "abcd";
  selection = record { start = 1; end = 3 };
  dirty = marked;
  generation = 7;
}

abbrev buffer-IsValid : IsValid buffer
buffer-IsValid = record { ordered = omega arith; within = omega arith }

abbrev edits : List EditCommand
edits = cut ∷ paste ∷ select (record { start = 9; end = 0 }) ∷ delete ∷ paste ∷ []

run_refines_example :
    (let (b', c', rs) = run memory_clipboard edits buffer none in (view b', c', rs))
      ≡ run_document memory_clipboard edits (view buffer) none
    × IsValid (run memory_clipboard edits buffer none).0
run_refines_example = run_refines memory_clipboard edits buffer none buffer-IsValid

abbrev calls : List Focus.TabCall
calls = call_open (codes "a") ∷ call_open (codes "b") ∷ call_close (codes "b") ∷ []

run-IsValid_example : Focus.IsValid (Focus.run calls new_strip)
run-IsValid_example = Focus.run-IsValid calls

abbrev at_time : ℕ → DiskEvent
at_time mtime = record { path = codes "/a"; mtime = mtime }

abbrev prompted : DiskWatch
prompted = record { pending = record { path = codes "/a"; mtime = 5 } ∷ []; ignored_mtime = [] }

ingest-is_pending_example :
    is_pending (codes "/a") (ingest (λ p. true) (at_time 5 ∷ []) new_watch).pending ≡ true
unfolding Map.get
ingest-is_pending_example = ingest-is_pending (λ p. true) (at_time 5 ∷ []) new_watch (codes "/a")
