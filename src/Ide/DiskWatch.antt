-- ===== src/Ide/DiskWatch.antt =====
-- poc-ide/src/watch.rs and poc-ide/src/conflict.rs: the prompts for open files that have changed on
-- disk. Of an event only the path and the time are read.
pub mod Prompts
use progressive_lsp.Base.{
  ℕ, List, [], ◌∷◌, ◌++◌, Bool, true, false, not, Option, none, some, Text, text_eq, nat_eq,
  if◌then◌else◌, ◌==◌, keep, any, Result, ok, err,
}
use progressive_lsp.Base.Map
use progressive_lsp.Base.Map.{Map, contains_key}
use progressive_lsp.Ide.Ports.{IdeError, not_found, FsPort, Rope}
use progressive_lsp.Ide.Buffer.{OpenBuffer, reload_from}

pub data ConflictChoice : Type 0 where
  load_disk keep_memory : ConflictChoice

pub record ConflictModal : Type 0 where
  pub path : Text
  pub mtime : ℕ

pub record DiskEvent : Type 0 where
  pub path : Text
  pub mtime : ℕ

pub record DiskWatch : Type 0 where
  pub pending : List ConflictModal
  pub ignored_mtime : Map Text ℕ

abbrev pub new_watch : DiskWatch
new_watch = record { pending = []; ignored_mtime = [] }

-- `pending.iter().any(|m| m.path() == path)`
abbrev pub is_pending : Text → List ConflictModal → Bool
is_pending path pending = any (λ m. m.path == path) pending

abbrev pub is_time : ℕ → Option ℕ → Bool
is_time mtime none = false
is_time mtime (some t) = t == mtime

-- The loop of `ingest`, for the paths that are open.
unfoldable pub ingest_event : (Text → Bool) → DiskEvent → DiskWatch → DiskWatch
ingest_event is_open event w =
    if not (is_open event.path)
    then w
    else if is_pending event.path w.pending
    then w
    else if is_time event.mtime (Map.get event.path w.ignored_mtime)
    then w
    else record w { pending = w.pending ++ record { path = event.path; mtime = event.mtime } ∷ [] }

unfoldable pub ingest_events : (Text → Bool) → List DiskEvent → DiskWatch → DiskWatch
ingest_events is_open [] w = w
ingest_events is_open (event ∷ events) w =
    ingest_events is_open events (ingest_event is_open event w)

unfoldable pub ingest : (Text → Bool) → List DiskEvent → DiskWatch → DiskWatch
ingest is_open events w =
    ingest_events is_open events (record w { pending = keep (λ m. is_open m.path) w.pending })

-- `iter().position(…)`, and the modal that stands there.
abbrev pub find_modal : Text → List ConflictModal → Option ConflictModal
find_modal path [] = none
find_modal path (m ∷ pending) =
    let rest = find_modal path pending in if m.path == path then some m else rest

-- `pending.remove(idx)`: the first modal of the path goes.
abbrev pub remove_modal : Text → List ConflictModal → List ConflictModal
remove_modal path [] = []
remove_modal path (m ∷ pending) =
    let rest = m ∷ remove_modal path pending in if m.path == path then pending else rest

module _ {rope : Rope} (fs : FsPort) where
  open fs use {Files}

  -- `ConflictModal::apply`
  unfoldable pub apply_choice :
      Files
      → ConflictModal
      → ConflictChoice
      → Map Text (OpenBuffer rope)
      → Result (Map Text (OpenBuffer rope)) IdeError
  apply_choice files modal keep_memory buffers = ok buffers
  apply_choice files modal load_disk buffers = elim (Map.get modal.path buffers) [
    | none ↦ err (not_found modal.path)
    | some b ↦ elim (reload_from fs files b) [
      | err e ↦ err e
      | ok b' ↦ ok (Map.insert modal.path b' buffers)
    ]
  ]

  -- The watch and the buffers after a choice, and whether it worked.
  unfoldable pub resolve :
      Files
      → Text
      → ConflictChoice
      → DiskWatch
      → Map Text (OpenBuffer rope)
      → DiskWatch × Map Text (OpenBuffer rope) × Result (Unit {0}) IdeError
  resolve files path choice w buffers = elim (find_modal path w.pending) [
    | none ↦ (w, buffers, ok tt)
    | some modal ↦ elim (apply_choice files modal choice buffers) [
      | err e ↦ (w, buffers, err e)
      | ok buffers' ↦ (
        record {
          pending = remove_modal path w.pending;
          ignored_mtime = Map.insert modal.path modal.mtime w.ignored_mtime;
        },
        buffers',
        ok tt,
      )
    ]
  ]
