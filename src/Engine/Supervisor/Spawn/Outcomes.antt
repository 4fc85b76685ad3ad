-- ===== src/Engine/Supervisor/Spawn/Outcomes.antt =====
-- What try_spawn returns and leaves behind (progressive-lsp-engine/src/supervisor.rs).
use progressive_lsp.Base.{
  ℕ, ◌<◌, ◌≡◌, ◌≢◌, refl, ap, ◌∙◌, subst, inl, inr, true, false, List, [], ◌∷◌, Option, none, some,
  Text, text_eq, arith, ==_iff, ==_refl, In, Result, ok, err,
}
use progressive_lsp.Base.Map.{Map, get, get-remove}
use progressive_lsp.Base.OrdMap.{get-insert}
use progressive_lsp.Engine.{EngineError, not_discovered, crashed, hash, backoff}
use progressive_lsp.Engine.Backoff.{next_attempt_ms, can_respawn}
use progressive_lsp.Engine.Supervisor.{
  Adapter, ChildHandle, SupervisedChild, SupervisorState, Supervisor, next_count, crashes_of,
  find_adapter, mark_ready, note_crash_err, note_crash,
}
use progressive_lsp.Engine.Supervisor.Health.{dead_packs, note_crashes, poll_health, ready_in}
use progressive_lsp.Engine.Supervisor.Crashes.{note_crash_err_lem}
use progressive_lsp.Engine.Supervisor.Readiness.{ready_in-mark_ready, mark_ready-children}
use progressive_lsp.Engine.Supervisor.Spawn.{
  Attempt, Spawned, attempt_spawn, backing_off, try_spawn,
}

-- The state after a spawn that has worked.
abbrev pub IsStarted : Text → Text → Text → SupervisorState → Type 0
IsStarted pack language pkg st =
    ((child : SupervisedChild) × (get pack st.children ≡ some child) × (child.language ≡ language))
    × (get pack st.crash_count ≡ some 0)
    × (get pack st.backoff_until ≡ none)
    × (ready_in st language pkg ≡ true)

mark_ready-IsStarted :
    (st : SupervisorState) (a : Adapter) (handle : ChildHandle) (language pkg : Text)
    → IsStarted a.pack_name language pkg (mark_ready st a handle language pkg)
unfolding mark_ready
mark_ready-IsStarted st a handle language pkg = (
  (
    record { handle = handle; language = language },
    mark_ready-children st a handle language pkg,
    refl,
  ),
  rw (get-insert a.pack_name a.pack_name 0 st.crash_count, ==_refl a.pack_name) refl,
  rw (get-remove a.pack_name a.pack_name st.backoff_until, ==_refl a.pack_name) refl,
  ready_in-mark_ready st a handle language pkg language (inl refl),
)

find_adapter-pack_name :
    (adapters : List Adapter) (pack : Text) (a : Adapter)
    → find_adapter adapters pack ≡ some a
    → a.pack_name ≡ pack
unfolding find_adapter
find_adapter-pack_name [] pack a h = cc
find_adapter-pack_name (b ∷ adapters) pack a h = ground (
  arith,
  ==_iff b.pack_name pack,
  find_adapter-pack_name adapters pack a,
  ap (λ (c : Adapter). c.pack_name) {x = a} {y = b},
)

-- The branches of an attempt, by what the outside answers.
attempt_spawn-ok :
    (sup : Supervisor) (now : ℕ) (a : Adapter) (language pkg : Text) (t : Attempt)
    (st : SupervisorState)
    → (attempt_spawn sup now a language pkg t st).0 ≡ ok true
    → (t.discovered ≡ none)
      × (t.abort ≡ none)
      × IsStarted a.pack_name language pkg (attempt_spawn sup now a language pkg t st).1
attempt_spawn-ok sup now a language pkg t st = by t.discovered t.abort t.spawned
  where
    by :
        (d : Option EngineError) (b : Option Text) (r : Result ChildHandle EngineError)
        → let u : Attempt = record { discovered = d; abort = b; spawned = r } in
          (attempt_spawn sup now a language pkg u st).0 ≡ ok true
          → (d ≡ none)
            × (b ≡ none)
            × IsStarted a.pack_name language pkg (attempt_spawn sup now a language pkg u st).1
    by (some (hash x y)) b r h = cc
    by (some e) b r h = cc
    by none (some m) r h = cc
    by none none (ok handle) h = (refl, refl, mark_ready-IsStarted st a handle language pkg)
    by none none (err e) h = cc

-- If try_spawn returns Ok(true), the discovery of the binary had not failed, and then the pack
-- has a child for the language, no crash counted and no backoff, and the language is ready in the
-- package.
pub try_spawn-IsStarted :
    (sup : Supervisor) (now : ℕ) (pack language pkg : Text) (t : Attempt) (st : SupervisorState)
    → (try_spawn sup now pack language pkg t st).0 ≡ ok true
    → (t.discovered ≡ none)
      × IsStarted pack language pkg (try_spawn sup now pack language pkg t st).1
unfolding try_spawn
try_spawn-IsStarted sup now pack language pkg t st h =
    by (backing_off polled now pack) (find_adapter sup.adapters pack)
      (find_adapter-pack_name sup.adapters pack) h
  where
    polled : SupervisorState
    polled = poll_health sup now st

    result : Option ℕ → Option Adapter → Spawned
    result b f = elim b [
      | some until ↦ (err (backoff until), polled)
      | none ↦ elim f [
        | none ↦ (err (not_discovered pack), polled)
        | some adapter ↦ attempt_spawn sup now adapter language pkg t polled
      ]
    ]

    by :
        (b : Option ℕ) (f : Option Adapter)
        → ((a : Adapter) → f ≡ some a → a.pack_name ≡ pack)
        → (result b f).0 ≡ ok true
        → (t.discovered ≡ none) × IsStarted pack language pkg (result b f).1
    by (some until) f named h = cc
    by none none named h = cc
    by none (some a) named h =
        let started = attempt_spawn-ok sup now a language pkg t polled h in
        (
          started.0,
          subst (λ p. IsStarted p language pkg (attempt_spawn sup now a language pkg t polled).1)
              (named a refl) started.2,
        )

dead_packs-get :
    (pack : Text) (children : Map Text SupervisedChild)
    → In pack (dead_packs children)
    → get pack children ≢ none
unfolding dead_packs get
dead_packs-get pack [] m h = m
dead_packs-get pack ((p, c) ∷ children) m h =
    ground (arith, ==_iff p pack, dead_packs-get pack children)

note_crashes-backoff_until :
    (sup : Supervisor) (now : ℕ) (packs : List Text) (pack : Text) (st : SupervisorState)
    → (In pack packs → ⊥)
    → get pack (note_crashes sup now packs st).backoff_until ≡ get pack st.backoff_until
unfolding note_crashes note_crash
note_crashes-backoff_until sup now [] pack st out = refl
note_crashes-backoff_until sup now (p ∷ packs) pack st out = ground (
  arith,
  ==_iff p pack,
  note_crashes-backoff_until sup now packs pack (note_crash sup now p st) (λ m. out (inr m)),
  (note_crash_err_lem sup now p pack (crashed p) st).2,
  out,
)

poll_health-backoff_until :
    (sup : Supervisor) (now : ℕ) (pack : Text) (st : SupervisorState)
    → get pack st.children ≡ none
    → get pack (poll_health sup now st).backoff_until ≡ get pack st.backoff_until
unfolding poll_health
poll_health-backoff_until sup now pack st h =
    note_crashes-backoff_until sup now (dead_packs st.children) pack st
      (λ m. dead_packs-get pack st.children m h)

-- Before the time that the backoff of a crash sets, try_spawn of the crashed pack is an error
-- that names this time, whatever the outside would answer and whichever other children have died
-- meanwhile.
pub try_spawn-note_crash_err :
    (sup : Supervisor) (crashed_at now : ℕ) (pack language pkg : Text) (e : EngineError)
    (t : Attempt) (st : SupervisorState)
    → now < next_attempt_ms sup.policy crashed_at (next_count (crashes_of st pack))
    → (try_spawn sup now pack language pkg t (note_crash_err sup crashed_at pack e st)).0
      ≡ err (backoff (next_attempt_ms sup.policy crashed_at (next_count (crashes_of st pack))))
unfolding try_spawn can_respawn
try_spawn-note_crash_err sup crashed_at now pack language pkg e t st early =
    ground (arith, until, late)
  where
    crash : SupervisorState
    crash = note_crash_err sup crashed_at pack e st

    at : ℕ
    at = next_attempt_ms sup.policy crashed_at (next_count (crashes_of st pack))

    until : get pack (poll_health sup now crash).backoff_until ≡ some at
    until =
        let law = note_crash_err_lem sup crashed_at pack pack e st in
        poll_health-backoff_until sup now pack crash (ground (arith, law.0, ==_refl pack))
        ∙ ground (arith, law.2, ==_refl pack)

    late : can_respawn now at ≡ false
    late = ground arith
