-- ===== src/TypesCache/Worker/Examples.antt =====
-- A drain of one key, whose file a Java engine serves.
use progressive_lsp.Base.{◌≡◌, refl, ◌⊎◌, true, [], ◌∷◌, Text, codes, none, some, In, text_eq}
use progressive_lsp.Base.Map.{get, insert}
use progressive_lsp.Resolve.{types, definition, empty_result}
use progressive_lsp.Index.{new_index, generation_of}
use progressive_lsp.Core.{language_id_from_path, language_of, extension, file_name, segments}
use progressive_lsp.Engine.{types_full}
use progressive_lsp.Engine.Backoff.{default_policy}
use progressive_lsp.Engine.Supervisor.{initialize, new_state, find_adapter, package_for_file}
use progressive_lsp.Engine.Supervisor.Health.{poll_health, note_crashes, dead_packs, is_ready}
use progressive_lsp.Engine.Supervisor.Resolve.{resolve, targets, first_answer}
use progressive_lsp.TypesCache.{
  TypesCacheKey, new_key, engine, TypesCacheEntry, new_store, lookup, put, file_generation,
}
use progressive_lsp.TypesCache.Worker.{WorkerCtx, WorkerState, ask, drain_queue}
use progressive_lsp.TypesCache.Worker.Drains.{IsAnswered, drain_queue-lookup}

abbrev java : Text
java = codes "java"

abbrev jdt : Text
jdt = codes "jdt"

abbrev key : TypesCacheKey
key = new_key definition (codes "A.java") (record { line = 0; character = 0 }) 0

abbrev ctx : WorkerCtx
ctx = record {
  engines = record {
    adapters =
        record { pack_name = jdt; language = java; extra_languages = []; ready_signal = initialize }
        ∷ [];
    policy = default_policy;
  };
  now = 1000;
  index = new_index;
  is_open = λ _. true;
  answers = λ _ _. some (empty_result types);
}

abbrev idle : WorkerState
idle = record {
  supervisor = record new_state {
    children =
        (
          jdt,
          record {
            handle = record {
              id = 1;
              capabilities = types_full;
              alive = true;
              stdout_lsp = true;
              stderr_pipe = true;
              lsp = none;
            };
            language = java;
          },
        )
        ∷ [];
    ready_languages = java ∷ [];
  };
  store = new_store;
  inflight = [];
  resolve_count = 0;
  notices = [];
}

abbrev entry : TypesCacheEntry
entry = record {
  result = empty_result types;
  filled_at_unix_ms = 0;
  source = engine;
  engine_generation = 0;
}

drain_queue-lookup_example :
    (lookup key new_store ≡ some entry)
    ⊎ ((asked : TypesCacheKey) × In asked (key ∷ []) × IsAnswered ctx asked key entry)
unfolding drain_queue ask resolve targets first_answer poll_health note_crashes dead_packs is_ready
    find_adapter package_for_file get insert lookup put file_generation generation_of
    language_id_from_path language_of extension file_name segments
drain_queue-lookup_example = drain_queue-lookup ctx (key ∷ []) key idle entry refl
