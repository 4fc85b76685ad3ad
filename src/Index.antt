-- ===== src/Index.antt =====
-- progressive-lsp-index: the dirty set (dirty.rs), the priorities (priority.rs) and the generations of
-- IndexService (service.rs). What an index holds of its files is not modelled.
pub mod Priority
pub mod Marking
pub mod Cache
use progressive_lsp.Base.{
  ℕ, Bool, true, false, List, [], ◌∷◌, Option, none, some, Text, text_eq, ltb, if◌then◌else◌,
  saturating_add,
}
use progressive_lsp.Base.Map.{Map, get, insert, remove, contains_key}
use progressive_lsp.Core.Paths.{Components, path_eq, components}
use progressive_lsp.Watch.{WatchEvent, WatchBatch}
use progressive_lsp.Index.Priority.{PriorityIndex, new_priority, mark_open, mark_closed}

-- dirty.rs: the generation of the last change of a path. Its key, a PathBuf, is compared by its parts.
abbrev pub DirtySet : Type 0
DirtySet = Map Components ℕ

abbrev pub raised : Option ℕ → ℕ → ℕ
raised none generation = generation
raised (some g) generation = if ltb g generation then generation else g

unfoldable pub mark : Text → ℕ → DirtySet → DirtySet
unfolding components
mark path generation dirty =
    insert (components path) (raised (get (components path) dirty) generation) dirty

unfoldable pub generation_of : Text → DirtySet → Option ℕ
unfolding components
generation_of path dirty = get (components path) dirty

unfoldable pub take_path : Text → DirtySet → Option ℕ × DirtySet
unfolding components
take_path path dirty = (get (components path) dirty, remove (components path) dirty)

-- The fields of IndexService that these operations use.
pub record IndexService : Type 0 where
  pub dirty : DirtySet
  pub priority : PriorityIndex
  pub generation : ℕ

abbrev pub new_index : IndexService
new_index = record { dirty = []; priority = new_priority; generation = 0 }

unfoldable pub mark_all : List WatchEvent → ℕ → DirtySet → DirtySet
unfolding mark
mark_all [] generation dirty = dirty
mark_all (ev ∷ events) generation dirty = mark_all events generation (mark ev.path generation dirty)

-- `filter` is WatchFilter::filter.
unfoldable pub apply_watch_batch :
    WatchBatch → (WatchBatch → WatchBatch) → IndexService → IndexService
unfolding mark_all
apply_watch_batch batch filter idx =
    let filtered = filter batch in
    record idx {
      generation =
          if ltb idx.generation filtered.generation then filtered.generation else idx.generation;
      dirty = mark_all filtered.events filtered.generation idx.dirty;
    }

-- What index_text does to the generation, whichever file it is given.
unfoldable pub next_generation : IndexService → IndexService
next_generation idx = record idx { generation = saturating_add idx.generation 1 }

unfoldable pub open_buffer : Text → IndexService → IndexService
unfolding mark_open
open_buffer path idx = record idx { priority = mark_open path idx.priority }

unfoldable pub close_buffer : Text → IndexService → IndexService
unfolding mark_closed
close_buffer path idx = record idx { priority = mark_closed path idx.priority }
