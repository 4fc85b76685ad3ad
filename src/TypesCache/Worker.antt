-- ===== src/TypesCache/Worker.antt =====
-- progressive-lsp-types-cache/src/engine_builder.rs: how the worker drains the queue of misses. The
-- port of open documents and what the engines' children answer are arguments; the store is locked
-- for each step, and one drain reads one time and one state of the index.
pub mod Drains
mod Examples
use progressive_lsp.Base.{
  ℕ, suc, ◌+◌, ◌^◌, ◌-◌, Bool, true, false, ◌&&◌, not, List, [], ◌∷◌, ◌++◌, Option, none, some,
  Text, text_eq, codes, min, if◌then◌else◌, ◌==◌, any, keep, length,
}
use progressive_lsp.Core.{language_id_from_path}
use progressive_lsp.Resolve.{QueryKind, Position, ResolveResult}
use progressive_lsp.Index.{IndexService}
use progressive_lsp.Engine.Supervisor.{SupervisorState, Supervisor, package_for_file}
use progressive_lsp.Engine.Supervisor.Resolve.{resolve}
use progressive_lsp.TypesCache.{
  TypesCacheKey, engine, TypesCacheEntry, TypesCacheStore, kind_eq, position_eq, put,
  file_generation,
}

pub record MissIdentity : Type 0 where
  pub kind : QueryKind
  pub file : Text
  pub position : Position

abbrev pub identity_of : TypesCacheKey → MissIdentity
identity_of key = record { kind = key.kind; file = key.file; position = key.position }

abbrev pub same_miss : MissIdentity → MissIdentity → Bool
same_miss a b = a.kind == b.kind && a.file == b.file && a.position == b.position

pub record CacheReadyNotice : Type 0 where
  pub file : Text
  pub kind : QueryKind
  pub location_count : ℕ

-- What a drain changes. The notices are what the listener is called with, in order.
pub record WorkerState : Type 0 where
  pub supervisor : SupervisorState
  pub store : TypesCacheStore
  pub inflight : List MissIdentity
  pub resolve_count : ℕ
  pub notices : List CacheReadyNotice

-- What a drain meets and does not change. `answers` is resolve_query of the child of a pack.
pub record WorkerCtx : Type 0 where
  pub engines : Supervisor
  pub now : ℕ
  pub index : IndexService
  pub is_open : Text → Bool
  pub answers : TypesCacheKey → Text → Option ResolveResult

abbrev pub or_java : Option Text → Text
or_java none = codes "java"
or_java (some language) = language

-- `package_for`: both of its branches are the package that is bound.
abbrev pub package_for : SupervisorState → Text → Text
package_for = package_for_file

abbrev pub current_key : WorkerCtx → TypesCacheKey → TypesCacheKey
current_key ctx key = record key { generation = file_generation ctx.index key.file }

abbrev pub store_answer : TypesCacheKey → Option ResolveResult → WorkerState → WorkerState
store_answer key none w = w
store_answer key (some result) w = record w {
  store =
      put key
        (record {
          result = result;
          filled_at_unix_ms = 0;
          source = engine;
          engine_generation = w.store.engine_generation;
        })
        w.store;
  notices =
      w.notices
      ++ record {
        file = key.file;
        kind = key.kind;
        location_count = min (length result.locations) (2 ^ 32 - 1);
      }
        ∷ [];
}

abbrev pub asked : WorkerCtx → TypesCacheKey → WorkerState → Option ResolveResult × SupervisorState
asked ctx key w =
    resolve ctx.engines ctx.now (or_java (language_id_from_path key.file))
      (package_for w.supervisor key.file) (ctx.answers (current_key ctx key)) w.supervisor

-- The key is in flight while the supervisor is asked.
abbrev pub after_asking : WorkerCtx → TypesCacheKey → WorkerState → WorkerState
after_asking ctx key w = record w {
  supervisor = (asked ctx key w).1;
  inflight = keep (λ id. not (same_miss id (identity_of key))) (identity_of key ∷ w.inflight);
  resolve_count = w.resolve_count + 1;
}

-- A key that is taken out of the queue, open and not in flight.
unfoldable pub ask : WorkerCtx → TypesCacheKey → WorkerState → WorkerState
ask ctx key w = store_answer (current_key ctx key) (asked ctx key w).0 (after_asking ctx key w)

abbrev pub is_inflight : TypesCacheKey → List MissIdentity → Bool
is_inflight key inflight = any (λ id. same_miss id (identity_of key)) inflight

abbrev pub drain_one : WorkerCtx → TypesCacheKey → WorkerState → WorkerState
drain_one ctx key w =
    if not (ctx.is_open key.file)
    then w
    else if is_inflight key w.inflight
    then w
    else ask ctx key w

unfoldable pub drain_queue : WorkerCtx → List TypesCacheKey → WorkerState → WorkerState
unfolding ask
drain_queue ctx [] w = w
drain_queue ctx (key ∷ queue) w = drain_queue ctx queue (drain_one ctx key w)
