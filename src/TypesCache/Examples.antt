-- ===== src/TypesCache/Examples.antt =====
-- Concrete runs of the index's order and of the types cache.
use progressive_lsp.Base.{
  ℕ, ◌≡◌, refl, true, false, List, [], ◌∷◌, Text, codes, none, some, if◌then◌else◌, nat_eq, keep,
  any, max, ◌++◌, text_eq, true, not, ◌&&◌,
}
use progressive_lsp.Base.Map.{get, insert}
use progressive_lsp.Core.{segments}
use progressive_lsp.Core.Paths.{same_path, components}
use progressive_lsp.Watch.{modify, disk, WatchEvent, WatchBatch}
use progressive_lsp.Resolve.{types, Position, definition, ResolveQuery, new_query, empty_result}
use progressive_lsp.Index.{
  IndexService, new_index, apply_watch_batch, generation_of, mark_all, mark,
}
use progressive_lsp.Index.Marking.{newest, apply_watch_batch-generation_of}
use progressive_lsp.Watch.Filter.{should_drop, is_manifest, default_ignore_filter}
use progressive_lsp.Base.Texts.{after_last_slash, ends_with, contains_text, starts_with}
use progressive_lsp.Index.Priority.{
  PriorityIndex, new_priority, mark_open, is_vendor, classify, insert_by, sort_by_key, order,
}
use progressive_lsp.Index.Priority.Order.{is_open, is_recent, is_near, order_lem}
use progressive_lsp.TypesCache.{
  TypesCacheKey, new_key, key_eq, engine, TypesCacheEntry, TypesCacheStore, new_store, lookup,
  edges_for,
}
use progressive_lsp.TypesCache.Serve.{Builder, TypesCacheStack, on_watch_events}
use progressive_lsp.TypesCache.Serve.Freshness.{
  outdates, changes_file, index_others, on_watch_events-lookup,
}

-- The buffer was opened under another spelling of its path.
abbrev priorities : PriorityIndex
priorities =
    mark_open (codes "./src//b")
      (mark_open (codes "/src//b") (record new_priority { package_prefix = some (codes "pkg") }))

abbrev dirty_paths : List Text
dirty_paths =
    codes "vendor/l"
    ∷ codes "/a"
    ∷ codes "/pkg/c"
    ∷ codes "/src/b"
    ∷ codes "/src/./b"
    ∷ codes "src/b"
    ∷ []

order_lem_example :
    order priorities dirty_paths
    ≡ keep (λ path. not (is_vendor path) && is_open priorities path) dirty_paths
      ++ keep
          (λ path.
            not (is_vendor path) && not (is_open priorities path) && is_recent priorities path)
          dirty_paths
      ++ keep
          (λ path.
            not (is_vendor path)
            && not (is_open priorities path)
            && not (is_recent priorities path)
            && is_near priorities path)
          dirty_paths
      ++ keep
          (λ path.
            not (is_vendor path)
            && not (is_open priorities path)
            && not (is_recent priorities path)
            && not (is_near priorities path))
          dirty_paths
      ++ keep is_vendor dirty_paths
order_lem_example = order_lem priorities dirty_paths

ordered :
    order priorities dirty_paths
    ≡ codes "/src/b"
      ∷ codes "/src/./b"
      ∷ codes "/pkg/c"
      ∷ codes "/a"
      ∷ codes "src/b"
      ∷ codes "vendor/l"
      ∷ []
unfolding order sort_by_key insert_by classify is_vendor mark_open components segments starts_with
    contains_text
ordered = refl

abbrev file : Text
file = codes "A.java"

abbrev start : Position
start = record { line = 0; character = 0 }

abbrev key : TypesCacheKey
key = new_key definition file start 0

abbrev entry : TypesCacheEntry
entry = record {
  result = empty_result types;
  filled_at_unix_ms = 0;
  source = engine;
  engine_generation = 0;
}

abbrev store : TypesCacheStore
store = record new_store {
  entries = (key, entry) ∷ [];
  graph =
      (file, record { kind = definition; from_file = file; to_uri = codes "file:///B.java" } ∷ [])
      ∷ [];
}

abbrev changed_file : WatchEvent
changed_file = record { path = file; kind = modify; source = disk }

abbrev index_at : ℕ → IndexService
index_at g = record new_index { generation = g }

on_watch_events-lookup_example :
    (lookup key (on_watch_events (index_at 5) (changed_file ∷ []) store)
      ≡ (if any (outdates (index_at 5) key) (changed_file ∷ []) then none else lookup key store))
    × (edges_for file (on_watch_events (index_at 5) (changed_file ∷ []) store).graph
        ≡ (if any (changes_file file) (changed_file ∷ []) then [] else edges_for file store.graph))
on_watch_events-lookup_example = on_watch_events-lookup (index_at 5) (changed_file ∷ []) key store

abbrev builder : Builder
builder = record { is_inflight = λ _. false; terminal_miss_at_types = true }

abbrev stack : TypesCacheStack
stack = record { store = new_store; serve_state = none; queue = [] }

abbrev query : ResolveQuery
query = new_query file start definition

abbrev fifth_batch : WatchBatch
fifth_batch = record {
  events = changed_file ∷ [];
  overflow = false;
  need_rescan = false;
  generation = 5;
}

abbrev changed_index : IndexService
changed_index = apply_watch_batch fifth_batch (λ b. b) (index_others 2 (index_at 5))

abbrev mixed_batch : WatchBatch
mixed_batch = record fifth_batch {
  events = changed_file ∷ record changed_file { path = codes "vendor/l.php" } ∷ [];
}

-- The path that is asked for is spelled otherwise than the event's.
abbrev spelled : Text
spelled = codes "A.java/."

apply_watch_batch-generation_of_example :
    (generation_of spelled (apply_watch_batch mixed_batch default_ignore_filter (index_at 2)).dirty
      ≡ (if any (λ ev. not (should_drop ev.path) && same_path ev.path spelled) mixed_batch.events
          then some (newest (generation_of spelled (index_at 2).dirty) 5)
          else generation_of spelled (index_at 2).dirty))
    × ((apply_watch_batch mixed_batch default_ignore_filter (index_at 2)).generation ≡ max 2 5)
apply_watch_batch-generation_of_example =
    apply_watch_batch-generation_of mixed_batch (index_at 2) spelled

marked :
    generation_of spelled (apply_watch_batch mixed_batch default_ignore_filter (index_at 2)).dirty
    ≡ some 5
unfolding generation_of apply_watch_batch default_ignore_filter mark_all mark get insert components
    segments should_drop is_manifest after_last_slash ends_with contains_text starts_with
marked = refl

-- A vendored file passes the filter only if it is a manifest.
vendored : should_drop (codes "vendor/l.php") ≡ true
unfolding should_drop is_manifest after_last_slash ends_with contains_text starts_with
vendored = refl

manifest : should_drop (codes "vendor\\composer.json") ≡ false
unfolding should_drop is_manifest after_last_slash ends_with contains_text starts_with
manifest = refl
