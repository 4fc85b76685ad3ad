-- ===== src/Engine/Supervisor/Spawn.antt =====
-- progressive-lsp-engine/src/supervisor.rs: try_spawn, try_spawn_registered and tick.
pub mod Outcomes
use progressive_lsp.Base.{
  ℕ, Bool, true, false, List, [], ◌∷◌, Option, none, some, Text, text_eq, codes, if◌then◌else◌,
  keep, Result, ok, err,
}
use progressive_lsp.Base.Map.{get, contains_key}
use progressive_lsp.Base.OrdMap.{insert}
use progressive_lsp.Engine.{EngineError, not_discovered, aborted, hash, backoff}
use progressive_lsp.Engine.Backoff.{can_respawn}
use progressive_lsp.Engine.Supervisor.{
  Adapter, ChildHandle, SupervisorState, Supervisor, find_adapter, mark_ready, note_crash_err,
}
use progressive_lsp.Engine.Supervisor.Health.{poll_health}

-- What try_spawn meets outside: the discovery of the binary by the adapter or by `discover_pack`,
-- the decision of the hook, and the spawn, with the handle as it stands after the LSP session is
-- attached.
pub record Attempt : Type 0 where
  pub discovered : Option EngineError
  pub abort : Option Text
  pub spawned : Result ChildHandle EngineError

abbrev pub Spawned : Type 0
Spawned = Result Bool EngineError × SupervisorState

abbrev pub spawn_result :
    Supervisor → ℕ → Adapter → Text → Text → Attempt → SupervisorState → Spawned
spawn_result sup now adapter language pkg attempt st = elim attempt.spawned [
  | ok handle ↦ (ok true, mark_ready st adapter handle language pkg)
  | err e ↦ (err e, note_crash_err sup now adapter.pack_name e st)
]

abbrev pub set_error : Text → EngineError → SupervisorState → SupervisorState
set_error pack e st = record st { last_error = insert pack e st.last_error }

abbrev pub decide_spawn :
    Supervisor → ℕ → Adapter → Text → Text → Attempt → SupervisorState → Spawned
decide_spawn sup now adapter language pkg attempt st = elim attempt.abort [
  | some message ↦ (err (aborted message), set_error adapter.pack_name (aborted message) st)
  | none ↦ spawn_result sup now adapter language pkg attempt st
]

-- A hash mismatch is an error; any other failure of the discovery is `Ok(false)`.
abbrev pub missing : Text → EngineError → SupervisorState → Spawned
missing pack (hash expected actual) st =
    (err (hash expected actual), set_error pack (hash expected actual) st)
missing pack e st = (ok false, set_error pack e st)

abbrev pub attempt_spawn :
    Supervisor → ℕ → Adapter → Text → Text → Attempt → SupervisorState → Spawned
attempt_spawn sup now adapter language pkg attempt st = elim attempt.discovered [
  | some e ↦ missing adapter.pack_name e st
  | none ↦ decide_spawn sup now adapter language pkg attempt st
]

abbrev pub backing_off : SupervisorState → ℕ → Text → Option ℕ
backing_off st now pack = elim (get pack st.backoff_until) [
  | none ↦ none
  | some until ↦ if can_respawn now until then none else some until
]

unfoldable pub try_spawn : Supervisor → ℕ → Text → Text → Text → Attempt → SupervisorState → Spawned
unfolding mark_ready note_crash_err
try_spawn sup now pack language pkg attempt st =
    let polled = poll_health sup now st in
    elim (backing_off polled now pack) [
      | some until ↦ (err (backoff until), polled)
      | none ↦ elim (find_adapter sup.adapters pack) [
        | none ↦ (err (not_discovered pack), polled)
        | some adapter ↦ attempt_spawn sup now adapter language pkg attempt polled
      ]
    ]

-- Every registered pack in its order, with the package that was asked for; `attempts` is what each
-- pack meets.
unfoldable pub spawn_all :
    Supervisor
    → ℕ
    → Text
    → (Text → Attempt)
    → List Adapter
    → SupervisorState
    → List (Result Bool EngineError) × SupervisorState
spawn_all sup now pkg attempts [] st = ([], st)
spawn_all sup now pkg attempts (a ∷ adapters) st =
    let (result, st') = try_spawn sup now a.pack_name a.language pkg (attempts a.pack_name) st in
    let (results, st'') = spawn_all sup now pkg attempts adapters st' in (result ∷ results, st'')

unfoldable pub try_spawn_registered :
    Supervisor
    → ℕ
    → Text
    → (Text → Attempt)
    → SupervisorState
    → List (Result Bool EngineError) × SupervisorState
unfolding spawn_all
try_spawn_registered sup now pkg attempts st = spawn_all sup now pkg attempts sup.adapters st

-- A pack is due if it has no child and a backoff that has passed.
abbrev pub is_due : SupervisorState → ℕ → Adapter → Bool
is_due st now a =
    if contains_key a.pack_name st.children
    then false
    else elim (get a.pack_name st.backoff_until) [
      | none ↦ false
      | some until ↦ can_respawn now until
    ]

unfoldable pub tick :
    Supervisor
    → ℕ
    → (Text → Attempt)
    → SupervisorState
    → List (Result Bool EngineError) × SupervisorState
unfolding spawn_all
tick sup now attempts st =
    let polled = poll_health sup now st in
    spawn_all sup now (codes "pkg") attempts (keep (is_due polled now) sup.adapters) polled
