-- ===== src/Engine/Examples.antt =====
-- Concrete runs of the backoff and of the supervisor (progressive-lsp-engine).
use progressive_lsp.Base.{
  ◌≡◌, refl, true, List, [], ◌∷◌, Text, codes, none, some, arith, text_eq, ok, err,
}
use progressive_lsp.Base.Map.{get, remove}
use progressive_lsp.Engine.{types_full, merge, crashed, backoff}
use progressive_lsp.Engine.Backoff.{default_policy, delay_ms, next_attempt_ms, can_respawn}
use progressive_lsp.Engine.Supervisor.{
  Adapter, initialize, ChildHandle, SupervisorState, new_state, Supervisor, find_adapter,
  mark_ready, note_crash, note_crash_err, next_count, crashes_of,
}
use progressive_lsp.Engine.Supervisor.Health.{note_crashes, dead_packs, poll_health}
use progressive_lsp.Engine.Supervisor.Crashes.{poll_health-alive}
use progressive_lsp.Base.OrdMap
use progressive_lsp.Engine.Supervisor.Calls.{
  Call, spawns, dies, polls, ticks, step, run, kill, merge-run,
}
use progressive_lsp.Engine.Supervisor.Spawn.{Attempt, try_spawn, spawn_all, tick}
use progressive_lsp.Engine.Supervisor.Spawn.Outcomes.{
  IsStarted, try_spawn-IsStarted, try_spawn-note_crash_err,
}

abbrev ts : Text
ts = codes "ts"

abbrev js : Text
js = codes "js"

abbrev jsx : Text
jsx = codes "jsx"

abbrev adapter : Adapter
adapter = record {
  pack_name = ts;
  language = js;
  extra_languages = jsx ∷ [];
  ready_signal = initialize;
}

abbrev sup : Supervisor
sup = record { adapters = adapter ∷ []; policy = default_policy }

abbrev alive_handle : ChildHandle
alive_handle = record {
  id = 1;
  capabilities = types_full;
  alive = true;
  stdout_lsp = true;
  stderr_pipe = true;
  lsp = none;
}

abbrev serving : SupervisorState
serving = record new_state {
  children = (ts, record { handle = alive_handle; language = js }) ∷ [];
  ready_languages = js ∷ [];
}

poll_health-alive_example :
    (true ≡ true)
    × (get ts serving.children ≡ some (record { handle = alive_handle; language = js }))
unfolding get poll_health dead_packs note_crashes
poll_health-alive_example =
    poll_health-alive sup 1000 serving ts (record { handle = alive_handle; language = js }) refl

abbrev after : SupervisorState
after =
    note_crash_err sup 1000 ts (crashed ts)
      (mark_ready new_state adapter alive_handle js (codes "pkg"))

abbrev found : Attempt
found = record { discovered = none; abort = none; spawned = ok alive_handle }

try_spawn-IsStarted_example :
    (found.discovered ≡ none)
    × IsStarted ts js (codes "pkg") (try_spawn sup 1000 ts js (codes "pkg") found new_state).1
unfolding try_spawn get poll_health dead_packs note_crashes find_adapter
try_spawn-IsStarted_example = try_spawn-IsStarted sup 1000 ts js (codes "pkg") found new_state refl

try_spawn-note_crash_err_example :
    (try_spawn sup 1050 ts js
      (codes "pkg")
      found
      (note_crash_err sup 1000 ts (crashed ts) serving)).0
    ≡ err (backoff (next_attempt_ms default_policy 1000 (next_count (crashes_of serving ts))))
unfolding get next_attempt_ms delay_ms
try_spawn-note_crash_err_example =
    try_spawn-note_crash_err sup 1000 1050 ts js (codes "pkg") (crashed ts) found serving
      (omega arith)

-- The child of the first spawn dies, is polled, and is spawned again by a tick.
abbrev respawn : List Call
respawn =
    spawns 1000 ts js (codes "pkg") found ∷ dies ts ∷ polls 1100 ∷ ticks 1500 (λ _. found) ∷ []

merge-run_example :
    merge (run sup new_state respawn).capabilities types_full
    ≡ (run sup new_state respawn).capabilities
unfolding run step kill try_spawn tick spawn_all get poll_health dead_packs note_crashes note_crash
    note_crash_err find_adapter mark_ready can_respawn next_attempt_ms delay_ms OrdMap.insert remove
    OrdMap.text_lt
merge-run_example =
    merge-run sup respawn ts (record { handle = alive_handle; language = js }) refl refl
