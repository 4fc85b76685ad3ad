-- ===== src/Watch.antt =====
-- progressive-lsp-watch: the events and batches that its modules exchange (lib.rs, backend.rs).
pub mod Journal
pub mod Coalescer
pub mod Hub
pub mod Filter
mod Examples
use progressive_lsp.Base.{
  ℕ, ◌≡◌, refl, Bool, false, List, [], Text, codes, Option, none, some, if◌then◌else◌, ◌==◌,
  text_eq,
}

pub data WatchKind : Type 0 where
  create modify delete : WatchKind

-- WatchKind::as_str and WatchKind::parse
unfoldable pub kind_as_str : WatchKind → Text
kind_as_str create = codes "create"
kind_as_str modify = codes "modify"
kind_as_str delete = codes "delete"

unfoldable pub parse_kind : Text → Option WatchKind
parse_kind s =
    if s == codes "create"
    then some create
    else if s == codes "modify"
    then some modify
    else if s == codes "delete"
    then some delete
    else none

-- Every kind is read back from its name.
pub parse-kind_as_str : (k : WatchKind) → parse_kind (kind_as_str k) ≡ some k
unfolding kind_as_str parse_kind
parse-kind_as_str create = refl
parse-kind_as_str modify = refl
parse-kind_as_str delete = refl

pub data WatchEventSource : Type 0 where
  disk buffer : WatchEventSource

pub record RawWatchEvent : Type 0 where
  pub path : Text
  pub kind : WatchKind

pub record WatchEvent : Type 0 where
  pub path : Text
  pub kind : WatchKind
  pub source : WatchEventSource

pub record WatchBatch : Type 0 where
  pub events : List WatchEvent
  pub overflow : Bool
  pub need_rescan : Bool
  pub generation : ℕ

-- WatchEvent::new and WatchEvent::buffer_modify
unfoldable pub disk_event : Text → WatchKind → WatchEvent
disk_event path kind = record { path = path; kind = kind; source = disk }

unfoldable pub buffer_modify : Text → WatchEvent
buffer_modify path = record { path = path; kind = modify; source = buffer }

unfoldable pub empty_batch : ℕ → WatchBatch
empty_batch g = record { events = []; overflow = false; need_rescan = false; generation = g }
