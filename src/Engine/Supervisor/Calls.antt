-- ===== src/Engine/Supervisor/Calls.antt =====
-- Runs of the supervisor: its calls, with what they meet outside, and the ends of its processes
-- (progressive-lsp-engine/src/supervisor.rs).
use progressive_lsp.Base.{
  ℕ, ◌≡◌, ap, true, false, List, [], ◌∷◌, some, Text, text_eq, arith, if◌then◌else◌, ◌==◌, ==_iff,
  keep, codes,
}
use progressive_lsp.Base.Map.{Map, get}
use progressive_lsp.Engine.{merge, crashed}
use progressive_lsp.Engine.Supervisor.{
  SupervisedChild, SupervisorState, Supervisor, new_state, note_crash,
}
use progressive_lsp.Engine.Supervisor.Health.{poll_health, packs_serving, abort_language}
use progressive_lsp.Engine.Supervisor.Spawn.{Attempt, try_spawn, try_spawn_registered, tick, is_due}
use progressive_lsp.Engine.Supervisor.Coverage.{
  CoversChildren, merge-IsWithin, note_crash_err-CoversChildren, poll_health-CoversChildren,
  abort_packs-CoversChildren, try_spawn-CoversChildren, spawn_all-CoversChildren,
}

-- A process that ends: what the handle of its child says from then on.
abbrev pub killed : Text → Text × SupervisedChild → Text × SupervisedChild
killed pack (p, child) = (
  p,
  if p == pack then record child { handle = record child.handle { alive = false } } else child,
)

unfoldable pub kill : Text → Map Text SupervisedChild → Map Text SupervisedChild
kill pack [] = []
kill pack (e ∷ children) = killed pack e ∷ kill pack children

get-kill :
    (pack p : Text) (child : SupervisedChild) (children : Map Text SupervisedChild)
    → get p (kill pack children) ≡ some child
    → child.handle.alive ≡ true
    → get p children ≡ some child
unfolding get kill
get-kill pack p child [] h alive = h
get-kill pack p child ((q, c) ∷ children) h alive = ground (
  arith,
  ==_iff q p,
  ==_iff q pack,
  get-kill pack p child children,
  ap (λ (d : SupervisedChild). d.handle.alive) {x = child}
      {y = record c { handle = record c.handle { alive = false } }},
)

-- The calls that change the children, with what they meet outside, and the end of a process.
pub data Call : Type 0 where
  dies : Text → Call
  polls : ℕ → Call
  crashes : ℕ → Text → Call
  spawns : ℕ → Text → Text → Text → Attempt → Call
  spawns_registered : ℕ → Text → (Text → Attempt) → Call
  aborts : ℕ → Text → Call
  ticks : ℕ → (Text → Attempt) → Call

unfoldable pub step : Supervisor → SupervisorState → Call → SupervisorState
unfolding kill
step sup st (dies pack) = record st { children = kill pack st.children }
step sup st (polls now) = poll_health sup now st
step sup st (crashes now pack) = note_crash sup now pack st
step sup st (spawns now pack language pkg attempt) =
    (try_spawn sup now pack language pkg attempt st).1
step sup st (spawns_registered now pkg attempts) = (try_spawn_registered sup now pkg attempts st).1
step sup st (aborts now language) = abort_language sup now language st
step sup st (ticks now attempts) = (tick sup now attempts st).1

unfoldable pub run : Supervisor → SupervisorState → List Call → SupervisorState
unfolding step
run sup st [] = st
run sup st (call ∷ calls) = run sup (step sup st call) calls

step-CoversChildren :
    (sup : Supervisor) (st : SupervisorState) (call : Call)
    → CoversChildren st
    → CoversChildren (step sup st call)
unfolding step note_crash try_spawn_registered abort_language tick
step-CoversChildren sup st (dies pack) v =
    λ p child h alive. v p child (get-kill pack p child st.children h alive) alive
step-CoversChildren sup st (polls now) v = poll_health-CoversChildren sup now st v
step-CoversChildren sup st (crashes now pack) v =
    note_crash_err-CoversChildren sup now pack (crashed pack) st
step-CoversChildren sup st (spawns now pack language pkg attempt) v =
    try_spawn-CoversChildren sup now pack language pkg attempt st v
step-CoversChildren sup st (spawns_registered now pkg attempts) v =
    spawn_all-CoversChildren sup now pkg attempts sup.adapters st v
step-CoversChildren sup st (aborts now language) v =
    abort_packs-CoversChildren sup now (packs_serving sup language st.children) st v
step-CoversChildren sup st (ticks now attempts) v =
    let polled = poll_health sup now st in
    spawn_all-CoversChildren sup now (codes "pkg") attempts (keep (is_due polled now) sup.adapters)
      polled (poll_health-CoversChildren sup now st v)

run-CoversChildren :
    (sup : Supervisor) (st : SupervisorState) (calls : List Call)
    → CoversChildren st
    → CoversChildren (run sup st calls)
unfolding run
run-CoversChildren sup st [] v = v
run-CoversChildren sup st (call ∷ calls) v =
    run-CoversChildren sup (step sup st call) calls (step-CoversChildren sup st call v)

new_state-CoversChildren : CoversChildren new_state
unfolding get
new_state-CoversChildren p child h alive = cc

-- After any spawns, ticks, polls, crashes and aborts of a new supervisor, and any ends of its
-- processes in between, the capabilities of each child that is alive are among the merged
-- capabilities: merging them again changes nothing.
pub merge-run :
    (sup : Supervisor) (calls : List Call) (pack : Text) (child : SupervisedChild)
    → get pack (run sup new_state calls).children ≡ some child
    → child.handle.alive ≡ true
    → merge (run sup new_state calls).capabilities child.handle.capabilities
      ≡ (run sup new_state calls).capabilities
merge-run sup calls pack child h alive =
    merge-IsWithin child.handle.capabilities (run sup new_state calls).capabilities
      (run-CoversChildren sup new_state calls new_state-CoversChildren pack child h alive)
