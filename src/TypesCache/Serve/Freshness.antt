-- ===== src/TypesCache/Serve/Freshness.antt =====
-- When the cache answers with what was stored (progressive-lsp-types-cache/src/stack.rs, resolver.rs,
-- invalidation.rs, with the generations of progressive-lsp-index).
use progressive_lsp.Base.{
  ℕ, ◌≡◌, refl, sym, ap, ◌∙◌, Bool, false, not, List, [], ◌∷◌, Option, none, some, Text, text_eq,
  nat_eq, arith, if◌then◌else◌, ==_iff, ==_refl, any, zero, suc, ◌&&◌, ◌==◌,
}
use progressive_lsp.Base.Map.{get, get-insert, get-keep_key, get-remove}
use progressive_lsp.Core.Paths.{path_eq, components}
use progressive_lsp.Watch.{WatchKind, modify, delete, WatchEvent, WatchBatch, disk_event}
use progressive_lsp.Resolve.{ResolveQuery, ResolveResult, ready}
use progressive_lsp.Index.{
  IndexService, apply_watch_batch, mark_all, mark, generation_of, raised, next_generation,
}
use progressive_lsp.TypesCache.{
  TypesCacheKey, new_key, engine, key_eq, TypesCacheEntry, TypesCacheStore, lookup, put,
  invalidate_stale_generations, invalidate_edges, edges_for, is_current, file_generation,
  or_generation,
}
use progressive_lsp.TypesCache.Generation.{live_generation, file_generation-eq_live}
use progressive_lsp.TypesCache.Serve.{
  TypesCacheStack, Builder, hit, key_for, serve, resolve, remember_engine_hit, on_file_dirty,
  on_event, on_watch_events, on_watch_batch,
}

-- An event that makes a key outdated: no deletion, of the key's file, while the file has another
-- generation than the key.
abbrev pub outdates : IndexService → TypesCacheKey → WatchEvent → Bool
outdates idx key ev = elim ev.kind [
  | delete ↦ false
  | _ ↦ key.file == ev.path && not (key.generation == live_generation idx ev.path)
]

retained :
    (idx : IndexService) (file : Text) (key : TypesCacheKey)
    → is_current file (file_generation idx file) key
      ≡ not (key.file == file && not (key.generation == live_generation idx file))
retained idx file key = rw (file_generation-eq_live idx file) (ground arith)

on_file_dirty-lookup :
    (idx : IndexService) (file : Text) (key : TypesCacheKey) (store : TypesCacheStore)
    → lookup key (on_file_dirty idx file store)
      ≡ (if is_current file (file_generation idx file) key then lookup key store else none)
unfolding lookup on_file_dirty invalidate_stale_generations
on_file_dirty-lookup idx file key store =
    get-keep_key (is_current file (file_generation idx file)) key store.entries

on_event-lookup :
    (idx : IndexService) (ev : WatchEvent) (key : TypesCacheKey) (store : TypesCacheStore)
    → lookup key (on_event idx ev store) ≡ (if outdates idx key ev then none else lookup key store)
on_event-lookup idx ev key store =
    ground (arith, on_file_dirty-lookup idx ev.path key store, retained idx ev.path key)

on_watch_events-entries :
    (idx : IndexService) (events : List WatchEvent) (key : TypesCacheKey) (store : TypesCacheStore)
    → lookup key (on_watch_events idx events store)
      ≡ (if any (outdates idx key) events then none else lookup key store)
unfolding on_watch_events
on_watch_events-entries idx [] key store = refl
on_watch_events-entries idx (ev ∷ events) key store = ground (
  arith,
  on_watch_events-entries idx events key (on_event idx ev store),
  on_event-lookup idx ev key store,
)

-- An event of a file that is no deletion.
abbrev pub changes_file : Text → WatchEvent → Bool
changes_file file ev = elim ev.kind [ delete ↦ false | _ ↦ file == ev.path ]

on_file_dirty-edges :
    (idx : IndexService) (changed file : Text) (store : TypesCacheStore)
    → edges_for file (on_file_dirty idx changed store).graph
      ≡ (if file == changed then [] else edges_for file store.graph)
unfolding edges_for on_file_dirty invalidate_stale_generations invalidate_edges
on_file_dirty-edges idx changed file store =
    ground (arith, get-remove changed file store.graph, ==_iff changed file, ==_iff file changed)

on_watch_events-edges :
    (idx : IndexService) (events : List WatchEvent) (file : Text) (store : TypesCacheStore)
    → edges_for file (on_watch_events idx events store).graph
      ≡ (if any (changes_file file) events then [] else edges_for file store.graph)
unfolding on_watch_events
on_watch_events-edges idx [] file store = refl
on_watch_events-edges idx (ev ∷ events) file store = ground (
  arith,
  on_watch_events-edges idx events file (on_event idx ev store),
  on_file_dirty-edges idx ev.path file store,
)

-- The events of a batch take from the store exactly the answers that one of them outdates: an
-- event that is no deletion, of the answer's file, while the file's generation is not the
-- answer's. The generation of a file is the one it has in the dirty set, or else the count of the
-- index. All other answers stay. The edges of a file go exactly if an event that is no deletion
-- is of the file.
pub on_watch_events-lookup :
    (idx : IndexService) (events : List WatchEvent) (key : TypesCacheKey) (store : TypesCacheStore)
    → let after = on_watch_events idx events store in
      (lookup key after ≡ (if any (outdates idx key) events then none else lookup key store))
      × (edges_for key.file after.graph
          ≡ (if any (changes_file key.file) events then [] else edges_for key.file store.graph))
on_watch_events-lookup idx events key store =
    (on_watch_events-entries idx events key store, on_watch_events-edges idx events key.file store)

-- Right after an answer of the engine is remembered, the cache answers the query with it and
-- notes a hit, and the rest of its state stays.
resolve-remember_engine_hit :
    (idx : IndexService) (builder : Builder) (q : ResolveQuery) (result : ResolveResult)
    (stack : TypesCacheStack)
    → let filled = remember_engine_hit idx q result stack in
      resolve idx builder q filled ≡ (ready result, record filled { serve_state = some hit })
unfolding resolve remember_engine_hit lookup put
resolve-remember_engine_hit idx builder q result stack =
    rw (get-insert (key_for idx q) (key_for idx q) _ stack.store.entries, ==_refl (key_for idx q))
      refl

-- The index, after index_text has been called `n` times more for other files.
unfoldable pub index_others : ℕ → IndexService → IndexService
unfolding next_generation
index_others zero idx = idx
index_others (suc n) idx = index_others n (next_generation idx)

index_others-dirty : (n : ℕ) (idx : IndexService) → (index_others n idx).dirty ≡ idx.dirty
unfolding index_others
index_others-dirty zero idx = refl
index_others-dirty (suc n) idx = index_others-dirty n (next_generation idx)

marked-generation :
    (batch : WatchBatch) (later : IndexService) (path : Text) (kind : WatchKind)
    → batch.events ≡ disk_event path kind ∷ []
    → generation_of path later.dirty ≡ none
    → file_generation (apply_watch_batch batch (λ b. b) later) path ≡ batch.generation
unfolding file_generation generation_of apply_watch_batch mark_all mark disk_event
marked-generation batch later path kind one clean =
    rw
      (
        one,
        get-insert (components path) (components path)
            (raised (get (components path) later.dirty) batch.generation) later.dirty,
        ==_refl (components path),
        clean,
      )
      refl

outdates-current :
    (idx : IndexService) (key : TypesCacheKey)
    → file_generation idx key.file ≡ key.generation
    → any (outdates idx key) (disk_event key.file modify ∷ []) ≡ false
unfolding disk_event
outdates-current idx key fresh = ground (
  arith,
  ==_iff key.generation (live_generation idx key.file),
  file_generation-eq_live idx key.file,
  sym fresh,
)

serve-some :
    (o : Option TypesCacheEntry) (entry : TypesCacheEntry) (builder : Builder) (key : TypesCacheKey)
    (stack : TypesCacheStack)
    → o ≡ some entry
    → (serve o builder key stack).0 ≡ ready entry.result
serve-some o entry builder key stack found = rw found refl

-- If a file that is not dirty changes, any number of other files being indexed in between, and
-- the batch that reports it is numbered as the index was when an answer for the file was
-- remembered, the cache still gives that answer after the batch.
resolve-on_watch_batch :
    (idx : IndexService) (builder : Builder) (q : ResolveQuery) (result : ResolveResult)
    (stack : TypesCacheStack) (n : ℕ) (batch : WatchBatch)
    → generation_of q.file idx.dirty ≡ none
    → batch.events ≡ disk_event q.file modify ∷ []
    → batch.generation ≡ idx.generation
    → let changed = apply_watch_batch batch (λ b. b) (index_others n idx) in
      (resolve changed builder q
        (on_watch_batch changed batch (remember_engine_hit idx q result stack))).0
      ≡ ready result
unfolding resolve file_generation generation_of lookup put remember_engine_hit on_watch_batch
    disk_event
resolve-on_watch_batch idx builder q result stack n batch clean one number =
    rw same (serve-some _ _ builder (key_for idx q) _ found)
  where
    changed : IndexService
    changed = apply_watch_batch batch (λ b. b) (index_others n idx)

    filled : TypesCacheStack
    filled = remember_engine_hit idx q result stack

    fresh : file_generation changed q.file ≡ file_generation idx q.file
    fresh =
        marked-generation batch (index_others n idx) q.file modify one
          (ap (generation_of q.file) (index_others-dirty n idx) ∙ clean)
        ∙ number
        ∙ sym (ap (λ g. or_generation g idx.generation) clean)

    same : key_for changed q ≡ key_for idx q
    same = ap (new_key q.kind q.file q.position) fresh

    entry : TypesCacheEntry
    entry = record {
      result = result;
      filled_at_unix_ms = 0;
      source = engine;
      engine_generation = stack.store.engine_generation;
    }

    current : any (outdates changed (key_for idx q)) batch.events ≡ false
    current =
        ap (any (outdates changed (key_for idx q))) one
        ∙ outdates-current changed (key_for idx q) fresh

    stored : lookup (key_for idx q) filled.store ≡ some entry
    stored =
        rw
          (
            get-insert (key_for idx q) (key_for idx q) entry stack.store.entries,
            ==_refl (key_for idx q),
          )
          refl

    found : lookup (key_for idx q) (on_watch_batch changed batch filled).store ≡ some entry
    found =
        on_watch_events-entries changed batch.events (key_for idx q) filled.store
        ∙ ap (λ b. if b then none else lookup (key_for idx q) filled.store) current
        ∙ stored
