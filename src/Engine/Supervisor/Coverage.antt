-- ===== src/Engine/Supervisor/Coverage.antt =====
-- The merged capabilities of the supervisor against its children
-- (progressive-lsp-engine/src/supervisor.rs: merged_capabilities).
use progressive_lsp.Base.{
  ℕ, ◌≡◌, refl, sym, subst, ◌∙◌, ◌||◌, inl, inr, Bool, true, false, List, [], ◌∷◌, Option, none,
  some, Text, text_eq, arith, if◌then◌else◌, ◌==◌, Bool-cases, Result, ok, err, codes, ◌++◌,
}
use progressive_lsp.Base.Map.{Map, get, remove, values}
use progressive_lsp.Base.OrdMap.{get-insert}
use progressive_lsp.Engine.{
  EngineCapabilities, no_capabilities, merge, EngineError, hash, backoff, not_discovered, crashed,
}
use progressive_lsp.Engine.Supervisor.{
  Adapter, ChildHandle, SupervisedChild, SupervisorState, Supervisor, find_adapter, mark_ready,
  merge_alive, note_crash_err, note_crash,
}
use progressive_lsp.Engine.Supervisor.Health.{dead_packs, note_crashes, poll_health, abort_packs}
use progressive_lsp.Engine.Supervisor.Spawn.{
  Attempt, Spawned, attempt_spawn, backing_off, try_spawn, spawn_all,
}

-- What `a` can do `b` can do too.
abbrev pub IsWithin : EngineCapabilities → EngineCapabilities → Type 0
IsWithin a b =
    (a.definition ≡ true → b.definition ≡ true)
    × (a.references ≡ true → b.references ≡ true)
    × (a.hover ≡ true → b.hover ≡ true)
    × (a.implementation ≡ true → b.implementation ≡ true)
    × (a.type_definition ≡ true → b.type_definition ≡ true)

-- Each child that is alive adds its capabilities to those of the state.
abbrev pub CoversChildren : SupervisorState → Type 0
CoversChildren st =
    (pack : Text) (child : SupervisedChild)
    → get pack st.children ≡ some child
    → child.handle.alive ≡ true
    → IsWithin child.handle.capabilities st.capabilities

IsWithin-trans : (a b c : EngineCapabilities) → IsWithin a b → IsWithin b c → IsWithin a c
IsWithin-trans a b c p q = ground arith

IsWithin-merge : (a b : EngineCapabilities) → IsWithin a (merge a b) × IsWithin b (merge a b)
IsWithin-merge a b = ground arith

or_absorb : (x y : Bool) → (x ≡ true → y ≡ true) → (y || x) ≡ y
or_absorb x y h = ground arith

pub merge-IsWithin : (a b : EngineCapabilities) → IsWithin a b → merge b a ≡ b
merge-IsWithin a b w =
    rw
      (
        or_absorb a.definition b.definition w.0,
        or_absorb a.references b.references w.1,
        or_absorb a.hover b.hover w.2,
        or_absorb a.implementation b.implementation w.3,
        or_absorb a.type_definition b.type_definition w.4,
      )
      refl

-- What a child adds in the loop.
abbrev added : EngineCapabilities → SupervisedChild → EngineCapabilities
added acc child = if child.handle.alive then merge acc child.handle.capabilities else acc

added-IsWithin :
    (acc : EngineCapabilities) (child : SupervisedChild) → IsWithin acc (added acc child)
added-IsWithin acc child = by child.handle.alive
  where
    by : (alive : Bool) → IsWithin acc (if alive then merge acc child.handle.capabilities else acc)
    by true = (IsWithin-merge acc child.handle.capabilities).0
    by false = ground arith

added-alive :
    (acc : EngineCapabilities) (child : SupervisedChild)
    → child.handle.alive ≡ true
    → IsWithin child.handle.capabilities (added acc child)
added-alive acc child alive = rw alive (IsWithin-merge acc child.handle.capabilities).1

merge_alive-acc :
    (acc : EngineCapabilities) (children : List SupervisedChild)
    → IsWithin acc (merge_alive acc children)
unfolding merge_alive
merge_alive-acc acc [] = ground arith
merge_alive-acc acc (c ∷ children) =
    IsWithin-trans acc (added acc c) (merge_alive (added acc c) children) (added-IsWithin acc c)
      (merge_alive-acc (added acc c) children)

merge_alive-get :
    (acc : EngineCapabilities) (pack : Text) (child : SupervisedChild)
    (children : Map Text SupervisedChild)
    → get pack children ≡ some child
    → child.handle.alive ≡ true
    → IsWithin child.handle.capabilities (merge_alive acc (values children))
unfolding merge_alive get
merge_alive-get acc pack child [] h alive = cc
merge_alive-get acc pack child ((p, c) ∷ children) h alive = elim (Bool-cases (p == pack)) [
  | inl same ↦
      let here : c ≡ child = ground arith in
      IsWithin-trans child.handle.capabilities (added acc c)
        (merge_alive (added acc c) (values children))
        (subst (λ (d : SupervisedChild). IsWithin child.handle.capabilities (added acc d))
          (sym here) (added-alive acc child alive))
        (merge_alive-acc (added acc c) (values children))
  | inr other ↦ merge_alive-get (added acc c) pack child children (ground arith) alive
]

pub note_crash_err-CoversChildren :
    (sup : Supervisor) (now : ℕ) (pack : Text) (e : EngineError) (st : SupervisorState)
    → CoversChildren (note_crash_err sup now pack e st)
unfolding note_crash_err
note_crash_err-CoversChildren sup now pack e st p child h alive =
    merge_alive-get no_capabilities p child (remove pack st.children) h alive

inserted-CoversChildren :
    (started child : SupervisedChild) (same : Bool) (old : Option SupervisedChild)
    (caps : EngineCapabilities)
    → (if same then some started else old) ≡ some child
    → (old ≡ some child → IsWithin child.handle.capabilities caps)
    → IsWithin child.handle.capabilities (merge caps started.handle.capabilities)
inserted-CoversChildren started child true old caps h before =
    let here : started ≡ child = ground arith in
    subst
      (λ (d : SupervisedChild).
        IsWithin d.handle.capabilities (merge caps started.handle.capabilities))
      here (IsWithin-merge caps started.handle.capabilities).1
inserted-CoversChildren started child false old caps h before =
    IsWithin-trans child.handle.capabilities caps (merge caps started.handle.capabilities)
      (before h) (IsWithin-merge caps started.handle.capabilities).0

mark_ready-CoversChildren :
    (st : SupervisorState) (a : Adapter) (handle : ChildHandle) (language pkg : Text)
    → CoversChildren st
    → CoversChildren (mark_ready st a handle language pkg)
unfolding mark_ready
mark_ready-CoversChildren st a handle language pkg v p child h alive =
    let started : SupervisedChild = record { handle = handle; language = language } in
    inserted-CoversChildren started child (a.pack_name == p) (get p st.children) st.capabilities
      (sym (get-insert a.pack_name p started st.children) ∙ h) (λ old. v p child old alive)

note_crashes-CoversChildren :
    (sup : Supervisor) (now : ℕ) (packs : List Text) (st : SupervisorState)
    → CoversChildren st
    → CoversChildren (note_crashes sup now packs st)
unfolding note_crashes note_crash
note_crashes-CoversChildren sup now [] st v = v
note_crashes-CoversChildren sup now (p ∷ packs) st v =
    note_crashes-CoversChildren sup now packs (note_crash sup now p st)
      (note_crash_err-CoversChildren sup now p (crashed p) st)

pub poll_health-CoversChildren :
    (sup : Supervisor) (now : ℕ) (st : SupervisorState)
    → CoversChildren st
    → CoversChildren (poll_health sup now st)
unfolding poll_health
poll_health-CoversChildren sup now st v =
    note_crashes-CoversChildren sup now (dead_packs st.children) st v

pub abort_packs-CoversChildren :
    (sup : Supervisor) (now : ℕ) (packs : List Text) (st : SupervisorState)
    → CoversChildren st
    → CoversChildren (abort_packs sup now packs st)
unfolding abort_packs
abort_packs-CoversChildren sup now [] st v = v
abort_packs-CoversChildren sup now (p ∷ packs) st v =
    abort_packs-CoversChildren sup now packs
      (note_crash_err sup now p (crashed (p ++ codes ": resolve timeout")) st)
      (note_crash_err-CoversChildren sup now p (crashed (p ++ codes ": resolve timeout")) st)

attempt_spawn-CoversChildren :
    (sup : Supervisor) (now : ℕ) (a : Adapter) (language pkg : Text) (t : Attempt)
    (st : SupervisorState)
    → CoversChildren st
    → CoversChildren (attempt_spawn sup now a language pkg t st).1
attempt_spawn-CoversChildren sup now a language pkg t st v = by t.discovered t.abort t.spawned
  where
    by :
        (d : Option EngineError) (b : Option Text) (r : Result ChildHandle EngineError)
        → CoversChildren
            (attempt_spawn sup now a language pkg
              (record { discovered = d; abort = b; spawned = r })
              st).1
    by (some (hash x y)) b r = v
    by (some e) b r = v
    by none (some m) r = v
    by none none (ok handle) = mark_ready-CoversChildren st a handle language pkg v
    by none none (err e) = note_crash_err-CoversChildren sup now a.pack_name e st

pub try_spawn-CoversChildren :
    (sup : Supervisor) (now : ℕ) (pack language pkg : Text) (t : Attempt) (st : SupervisorState)
    → CoversChildren st
    → CoversChildren (try_spawn sup now pack language pkg t st).1
unfolding try_spawn
try_spawn-CoversChildren sup now pack language pkg t st v =
    by (backing_off polled now pack) (find_adapter sup.adapters pack)
  where
    polled : SupervisorState
    polled = poll_health sup now st

    covers : CoversChildren polled
    covers = poll_health-CoversChildren sup now st v

    by :
        (b : Option ℕ) (f : Option Adapter)
        → CoversChildren
            (elim b as (λ _. Spawned) [
              | some until ↦ (err (backoff until), polled)
              | none ↦ elim f as (λ _. Spawned) [
                | none ↦ (err (not_discovered pack), polled)
                | some adapter ↦ attempt_spawn sup now adapter language pkg t polled
              ]
            ]).1
    by (some until) f = covers
    by none none = covers
    by none (some a) = attempt_spawn-CoversChildren sup now a language pkg t polled covers

pub spawn_all-CoversChildren :
    (sup : Supervisor) (now : ℕ) (pkg : Text) (attempts : Text → Attempt) (adapters : List Adapter)
    (st : SupervisorState)
    → CoversChildren st
    → CoversChildren (spawn_all sup now pkg attempts adapters st).1
unfolding spawn_all
spawn_all-CoversChildren sup now pkg attempts [] st v = v
spawn_all-CoversChildren sup now pkg attempts (a ∷ adapters) st v =
    spawn_all-CoversChildren sup now pkg attempts adapters
      (try_spawn sup now a.pack_name a.language pkg (attempts a.pack_name) st).1
      (try_spawn-CoversChildren sup now a.pack_name a.language pkg (attempts a.pack_name) st v)
