-- ===== src/TypesCache/Serve.antt =====
-- How the cache serves a query and how it is filled and invalidated: TypesCacheResolver
-- (progressive-lsp-types-cache/src/resolver.rs), BuilderQueue (builder.rs), InvalidationPolicy
-- (invalidation.rs) and TypesCacheStack (stack.rs).
pub mod Freshness
use progressive_lsp.Base.{
  ℕ, Bool, true, false, ◌&&◌, List, [], ◌∷◌, ◌++◌, Option, none, some, Text, text_eq, if◌then◌else◌,
  ◌==◌, any, contains,
}
use progressive_lsp.Base.Map.{get, insert}
use progressive_lsp.Watch.{WatchKind, create, modify, delete, WatchEvent, WatchBatch}
use progressive_lsp.Resolve.{
  types, ResolveQuery, ResolveResult, empty_result, ResolveOutcome, ready, not_ready,
}
use progressive_lsp.Index.{IndexService}
use progressive_lsp.TypesCache.{
  TypesCacheKey, new_key, engine, TypesCacheEntry, kind_eq, position_eq, package_eq,
  TypesCacheStore, new_store, lookup, put, invalidate_stale_generations, file_generation,
}

pub data CacheServeState : Type 0 where
  hit miss inflight stale not_applicable : CacheServeState

abbrev pub keys_equal_ignore_generation : TypesCacheKey → TypesCacheKey → Bool
keys_equal_ignore_generation a b =
    a.kind == b.kind && a.file == b.file && a.position == b.position && a.pkg == b.pkg

-- BuilderQueue, whose keys wait for the worker.
unfoldable pub push : TypesCacheKey → List TypesCacheKey → List TypesCacheKey
push key queue =
    if any (λ k. keys_equal_ignore_generation k key) queue then queue else queue ++ key ∷ []

unfoldable pub pop : List TypesCacheKey → Option TypesCacheKey × List TypesCacheKey
pop [] = (none, [])
pop (key ∷ queue) = (some key, queue)

-- What the resolver asks of a TypesCacheBuilder: whether its worker holds the key, and whether a miss
-- ends the query.
pub record Builder : Type 0 where
  pub is_inflight : TypesCacheKey → Bool
  pub terminal_miss_at_types : Bool

-- TypesCacheStack: the store, the state of the last query, and the queue of the builder.
pub record TypesCacheStack : Type 0 where
  pub store : TypesCacheStore
  pub serve_state : Option CacheServeState
  pub queue : List TypesCacheKey

abbrev pub key_for : IndexService → ResolveQuery → TypesCacheKey
key_for idx q = new_key q.kind q.file q.position (file_generation idx q.file)

abbrev pub serve :
    Option TypesCacheEntry
    → Builder
    → TypesCacheKey
    → TypesCacheStack
    → ResolveOutcome × TypesCacheStack
serve (some entry) builder key stack = (ready entry.result, record stack { serve_state = some hit })
serve none builder key stack = (
  if builder.terminal_miss_at_types then ready (empty_result types) else not_ready,
  record stack {
    serve_state = some (if builder.is_inflight key then inflight else miss);
    queue = push key stack.queue;
  },
)

unfoldable pub resolve :
    IndexService → Builder → ResolveQuery → TypesCacheStack → ResolveOutcome × TypesCacheStack
unfolding push
resolve idx builder q stack =
    let key = key_for idx q in serve (lookup key stack.store) builder key stack

unfoldable pub take_serve_state : TypesCacheStack → CacheServeState × TypesCacheStack
take_serve_state stack = (
  elim stack.serve_state [ none ↦ not_applicable | some s ↦ s ],
  record stack { serve_state = none },
)

unfoldable pub remember_engine_hit :
    IndexService → ResolveQuery → ResolveResult → TypesCacheStack → TypesCacheStack
remember_engine_hit idx q result stack = record stack {
  store =
      put (key_for idx q)
        (record {
          result = result;
          filled_at_unix_ms = 0;
          source = engine;
          engine_generation = stack.store.engine_generation;
        })
        stack.store;
}

unfoldable pub on_file_dirty : IndexService → Text → TypesCacheStore → TypesCacheStore
on_file_dirty idx file store = invalidate_stale_generations file (file_generation idx file) store

abbrev pub on_event : IndexService → WatchEvent → TypesCacheStore → TypesCacheStore
on_event idx ev store = elim ev.kind [ delete ↦ store | _ ↦ on_file_dirty idx ev.path store ]

unfoldable pub on_watch_events : IndexService → List WatchEvent → TypesCacheStore → TypesCacheStore
unfolding on_file_dirty
on_watch_events idx [] store = store
on_watch_events idx (ev ∷ events) store = on_watch_events idx events (on_event idx ev store)

unfoldable pub on_watch_batch : IndexService → WatchBatch → TypesCacheStack → TypesCacheStack
unfolding on_watch_events
on_watch_batch idx batch stack = record stack {
  store = on_watch_events idx batch.events stack.store;
}
