-- ===== src/Engine/Supervisor/Health.antt =====
-- progressive-lsp-engine/src/supervisor.rs: the polls of the children, and what is asked of them.
use progressive_lsp.Base.{
  ℕ, Bool, false, ◌||◌, List, [], ◌∷◌, ◌++◌, Option, none, some, Text, text_eq, if◌then◌else◌, ◌==◌,
  any, contains, codes,
}
use progressive_lsp.Base.Map.{Map}
use progressive_lsp.Engine.{crashed}
use progressive_lsp.Engine.Supervisor.{
  Adapter, SupervisedChild, SupervisorState, Supervisor, find_adapter, pair_is, note_crash_err,
  note_crash,
}

-- The packs of the children that are dead.
unfoldable pub dead_packs : Map Text SupervisedChild → List Text
dead_packs [] = []
dead_packs ((pack, child) ∷ children) =
    let rest = dead_packs children in if child.handle.alive then rest else pack ∷ rest

unfoldable pub note_crashes : Supervisor → ℕ → List Text → SupervisorState → SupervisorState
note_crashes sup now [] st = st
note_crashes sup now (pack ∷ packs) st = note_crashes sup now packs (note_crash sup now pack st)

unfoldable pub poll_health : Supervisor → ℕ → SupervisorState → SupervisorState
unfolding dead_packs note_crashes
poll_health sup now st = note_crashes sup now (dead_packs st.children) st

-- Both, with the poll that they begin with, return the state too.
abbrev pub ready_in : SupervisorState → Text → Text → Bool
ready_in st language pkg =
    any (pair_is language pkg) st.ready || contains st.ready_languages language

unfoldable pub is_ready : Supervisor → ℕ → Text → Text → SupervisorState → Bool × SupervisorState
is_ready sup now language pkg st =
    let polled = poll_health sup now st in (ready_in polled language pkg, polled)

abbrev pub extra_serves : Option Adapter → Text → Bool
extra_serves none language = false
extra_serves (some adapter) language = contains adapter.extra_languages language

-- The adapter of a child is looked up by its pack.
abbrev pub serves : Supervisor → Text → Text → SupervisedChild → Bool
serves sup language pack child =
    child.language == language || extra_serves (find_adapter sup.adapters pack) language

-- abort_language: `terminate` kills the child, and the crash is noted.
unfoldable pub packs_serving : Supervisor → Text → Map Text SupervisedChild → List Text
packs_serving sup language [] = []
packs_serving sup language ((pack, child) ∷ children) =
    let rest = packs_serving sup language children in
    if serves sup language pack child then pack ∷ rest else rest

unfoldable pub abort_packs : Supervisor → ℕ → List Text → SupervisorState → SupervisorState
abort_packs sup now [] st = st
abort_packs sup now (pack ∷ packs) st =
    abort_packs sup now packs
      (note_crash_err sup now pack (crashed (pack ++ codes ": resolve timeout")) st)

unfoldable pub abort_language : Supervisor → ℕ → Text → SupervisorState → SupervisorState
unfolding packs_serving abort_packs
abort_language sup now language st = abort_packs sup now (packs_serving sup language st.children) st
