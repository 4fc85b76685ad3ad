-- ===== src/Engine/Supervisor/Crashes.antt =====
-- What a crash leaves behind (progressive-lsp-engine/src/supervisor.rs).
use progressive_lsp.Base.{
  ℕ, ◌≡◌, refl, ◌⊎◌, inl, inr, true, false, List, [], ◌∷◌, none, some, Text, text_eq, arith,
  if◌then◌else◌, ◌==◌, ==_iff, In, Bool-cases,
}
use progressive_lsp.Base.Map.{Map, get, get-remove}
use progressive_lsp.Base.OrdMap.{get-insert}
use progressive_lsp.Engine.{EngineError, crashed}
use progressive_lsp.Engine.Backoff.{next_attempt_ms}
use progressive_lsp.Engine.Supervisor.{
  SupervisedChild, SupervisorState, Supervisor, next_count, crashes_of, note_crash_err, note_crash,
}
use progressive_lsp.Engine.Supervisor.Health.{dead_packs, note_crashes, poll_health}

-- A crash of a pack takes away its child and no other, counts one crash more for it, and sets the
-- time of its next attempt by that count; the counts and the times of the other packs stay.
pub note_crash_err_lem :
    (sup : Supervisor) (now : ℕ) (pack other : Text) (e : EngineError) (st : SupervisorState)
    → (get other (note_crash_err sup now pack e st).children
        ≡ (if pack == other then none else get other st.children))
      × (get other (note_crash_err sup now pack e st).crash_count ≡ (
          if pack == other
          then some (next_count (crashes_of st pack))
          else get other st.crash_count))
      × (get other (note_crash_err sup now pack e st).backoff_until ≡ (
          if pack == other
          then some (next_attempt_ms sup.policy now (next_count (crashes_of st pack)))
          else get other st.backoff_until))
unfolding note_crash_err
note_crash_err_lem sup now pack other e st = (
  get-remove pack other st.children,
  get-insert pack other _ st.crash_count,
  get-insert pack other _ st.backoff_until,
)

note_crashes-children :
    (sup : Supervisor) (now : ℕ) (packs : List Text) (pack : Text) (st : SupervisorState)
    → (get pack (note_crashes sup now packs st).children ≡ get pack st.children)
      ⊎ (get pack (note_crashes sup now packs st).children ≡ none)
unfolding note_crashes note_crash
note_crashes-children sup now [] pack st = inl refl
note_crashes-children sup now (p ∷ packs) pack st = ground (
  arith,
  note_crashes-children sup now packs pack (note_crash sup now p st),
  (note_crash_err_lem sup now p pack (crashed p) st).0,
)

note_crashes-In :
    (sup : Supervisor) (now : ℕ) (packs : List Text) (pack : Text) (st : SupervisorState)
    → In pack packs
    → get pack (note_crashes sup now packs st).children ≡ none
unfolding note_crashes note_crash
note_crashes-In sup now [] pack st m = absurd m
note_crashes-In sup now (p ∷ packs) pack st (inl e) = ground (
  arith,
  ==_iff p pack,
  note_crashes-children sup now packs pack (note_crash sup now p st),
  (note_crash_err_lem sup now p pack (crashed p) st).0,
)
note_crashes-In sup now (p ∷ packs) pack st (inr m) =
    note_crashes-In sup now packs pack (note_crash sup now p st) m

dead_packs-In :
    (pack : Text) (child : SupervisedChild) (children : Map Text SupervisedChild)
    → get pack children ≡ some child
    → child.handle.alive ≡ false
    → In pack (dead_packs children)
unfolding dead_packs get
dead_packs-In pack child [] h dead = cc
dead_packs-In pack child ((p, c) ∷ children) h dead =
    ground (arith, ==_iff p pack, dead_packs-In pack child children)

-- Each child that a poll leaves is alive, and is the child that its pack had before.
pub poll_health-alive :
    (sup : Supervisor) (now : ℕ) (st : SupervisorState) (pack : Text) (child : SupervisedChild)
    → get pack (poll_health sup now st).children ≡ some child
    → (child.handle.alive ≡ true) × (get pack st.children ≡ some child)
unfolding poll_health
poll_health-alive sup now st pack child h =
    let kept = note_crashes-children sup now (dead_packs st.children) pack st in
    let before : get pack st.children ≡ some child = ground arith in
    (
      elim (Bool-cases child.handle.alive) [
        | inl alive ↦ alive
        | inr dead ↦
            let gone =
              note_crashes-In sup now (dead_packs st.children) pack st
                (dead_packs-In pack child st.children before dead) in
            cc
      ],
      before,
    )
