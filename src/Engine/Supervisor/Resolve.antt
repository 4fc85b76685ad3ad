-- ===== src/Engine/Supervisor/Resolve.antt =====
-- progressive-lsp-engine/src/supervisor.rs: the queries that the children answer. What a child
-- answers is an argument: `none` stands for ResolveOutcome::NotReady.
use progressive_lsp.Base.{
  ℕ, Bool, true, ◌&&◌, List, [], ◌∷◌, Option, none, some, Text, if◌then◌else◌, any, ◌==◌, text_eq,
  ◌||◌,
}
use progressive_lsp.Base.Map.{Map}
use progressive_lsp.Engine.Supervisor.{
  Adapter, SupervisedChild, SupervisorState, Supervisor, find_adapter,
}
use progressive_lsp.Engine.Supervisor.Health.{poll_health, is_ready, extra_serves}

-- The children that serve a language and have an adapter, in the order of their packs.
unfoldable pub targets : Supervisor → Text → Map Text SupervisedChild → List Text
targets sup language [] = []
targets sup language ((pack, child) ∷ children) =
    let rest = targets sup language children in
    elim (find_adapter sup.adapters pack) [
      | none ↦ rest
      | some a ↦
          if child.language == language || extra_serves (some a) language then pack ∷ rest else rest
    ]

unfoldable pub first_answer : {A : Type 0} → (Text → Option A) → List Text → Option A
first_answer answers [] = none
first_answer answers (pack ∷ packs) =
    let rest = first_answer answers packs in elim (answers pack) [ none ↦ rest | some a ↦ some a ]

unfoldable pub resolve :
    {A : Type 0}
    → Supervisor
    → ℕ
    → Text
    → Text
    → (Text → Option A)
    → SupervisorState
    → Option A × SupervisorState
unfolding targets first_answer
resolve sup now language pkg answers st =
    let polled = poll_health sup now st in
    let (ready, polled') = is_ready sup now language pkg polled in
    if ready
    then (first_answer answers (targets sup language polled'.children), polled')
    else (none, polled')

-- engine_session_warmed: the adapter of a child is looked up by its language here.
abbrev pub adapter_of_language : List Adapter → Text → Option Adapter
adapter_of_language [] language = none
adapter_of_language (a ∷ adapters) language =
    if a.language == language then some a else adapter_of_language adapters language

abbrev pub is_warmed : Option Bool → Bool
is_warmed none = true
is_warmed (some warmed) = warmed

unfoldable pub engine_session_warmed :
    Supervisor → ℕ → Text → SupervisorState → Bool × SupervisorState
engine_session_warmed sup now language st =
    let polled = poll_health sup now st in
    (
      any
          (λ entry.
            (entry.1.language == language
              || extra_serves (adapter_of_language sup.adapters entry.1.language) language)
            && is_warmed entry.1.handle.lsp)
          polled.children,
      polled,
    )
