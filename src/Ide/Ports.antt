-- ===== src/Ide/Ports.antt =====
-- poc-ide/src/error.rs and poc-ide/src/ports.rs: the errors, and what stands outside of the editor:
-- the files, the clipboard, and the rope of the `ropey` crate.
use progressive_lsp.Base.{Bool, List, ℕ, ◌-◌, ◌≤◌, ◌≡◌, Text, ◌++◌, Result, length, take, drop}
use progressive_lsp.Base.Bytes.{Bytes}

pub data IdeError : Type 0 where
  not_absolute not_found not_a_directory no_parent is_directory invalid_utf8 : Text → IdeError
  clipboard watch lsp lsp_method_missing control log runtime : Text → IdeError
  missing_binary no_file_open : IdeError
  io : Text → IdeError

pub record DirEntry : Type 0 where
  pub name : Text
  pub path : Text
  pub is_dir : Bool

-- `FsPort`, as far as the buffers and the tree use it. A write gives the files that it leaves behind.
pub record FsPort : Type 1 where
  pub Files : Type 0
  pub canonicalize : Files → Text → Result Text IdeError
  pub is_dir : Files → Text → Bool
  pub read_dir : Files → Text → Result (List DirEntry) IdeError
  pub read : Files → Text → Result Bytes IdeError
  pub write : Files → Text → Bytes → Result Files IdeError

-- `ClipboardPort`: both methods may change the clipboard, also where they fail.
pub record ClipboardPort : Type 1 where
  pub Clipboard : Type 0
  pub get_text : Clipboard → Clipboard × Result Text IdeError
  pub set_text : Clipboard → Text → Clipboard × Result (Unit {0}) IdeError

-- `ropey::Rope`: a text, with ranges in characters. The laws are those of its documentation; a
-- range outside of the text panics, and the laws say nothing of it.
pub record Rope : Type 1 where
  pub Carrier : Type 0
  pub from_str : Text → Carrier
  pub to_string : Carrier → Text
  pub len_chars : Carrier → ℕ
  pub slice : Carrier → ℕ → ℕ → Text
  pub remove : Carrier → ℕ → ℕ → Carrier
  pub insert : Carrier → ℕ → Text → Carrier
  pub to_string-from_str : (s : Text) → to_string (from_str s) ≡ s
  pub len_chars_lem : (r : Carrier) → len_chars r ≡ length (to_string r)
  pub slice_lem :
      (r : Carrier) (i j : ℕ)
      → i ≤ j
      → j ≤ length (to_string r)
      → slice r i j ≡ take (j - i) (drop i (to_string r))
  pub to_string-remove :
      (r : Carrier) (i j : ℕ)
      → i ≤ j
      → j ≤ length (to_string r)
      → to_string (remove r i j) ≡ take i (to_string r) ++ drop j (to_string r)
  pub to_string-insert :
      (r : Carrier) (i : ℕ) (s : Text)
      → i ≤ length (to_string r)
      → to_string (insert r i s) ≡ take i (to_string r) ++ (s ++ drop i (to_string r))
