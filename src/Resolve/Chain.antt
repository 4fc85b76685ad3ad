-- ===== src/Resolve/Chain.antt =====
-- progressive-lsp-resolve/src/chain.rs: the chain of the tiers. A step is what its `resolve` answers
-- to a query, so that the steps of a model are functions.
pub mod Answers
use progressive_lsp.Base.{
  ℕ, suc, ◌+◌, Bool, true, false, List, [], ◌∷◌, ◌++◌, map, Option, none, some, leb, if◌then◌else◌,
  length,
}
use progressive_lsp.Resolve.{
  Tier, syntax, is_above, ResolveQuery, LspLocation, ResolveResult, empty_result, ResolveOutcome,
  ready, not_ready,
}

abbrev pub Resolver : Type 0
Resolver = ResolveQuery → ResolveOutcome

abbrev pub ResolverChain : Type 0
ResolverChain = List Resolver

abbrev pub push : Resolver → ResolverChain → ResolverChain
push step steps = steps ++ step ∷ []

abbrev pub prepend : Resolver → ResolverChain → ResolverChain
prepend step steps = step ∷ steps

abbrev pub of_option : Option Resolver → ResolverChain
of_option none = []
of_option (some step) = step ∷ []

unfoldable pub with_tiers : Option Resolver → Option Resolver → Resolver → ResolverChain
with_tiers t3 t2 t1 = of_option t3 ++ (of_option t2 ++ t1 ∷ [])

abbrev pub clamp : Tier → Tier → Tier
clamp ceiling tier = if is_above tier ceiling then ceiling else tier

unfoldable pub clamp_result_tier : Tier → ResolveResult → ResolveResult
clamp_result_tier ceiling result = record result {
  tier = clamp ceiling result.tier;
  locations =
      map {A = LspLocation} (λ l. record l { tier = clamp ceiling l.tier }) result.locations;
}

-- What the loop makes of an answer: `none` goes on to the next step.
unfoldable pub accept : Option Tier → ResolveOutcome → Option ResolveResult
accept ceiling not_ready = none
accept none (ready result) = some result
accept (some ceiling) (ready result) =
    if is_above result.tier ceiling then none else some (clamp_result_tier ceiling result)

abbrev pub u8_max : ℕ
u8_max = 255

abbrev pub iter_cap : Option ℕ → ℕ
iter_cap none = u8_max
iter_cap (some n) = n

-- The end of the loop.
unfoldable pub exhausted : Option ℕ → ℕ → ResolveOutcome × ℕ
exhausted none steps = (ready (empty_result syntax), steps)
exhausted (some cap) steps =
    if leb cap steps then (not_ready, steps) else (ready (empty_result syntax), steps)

-- The loop, with the count of the steps that were taken.
unfoldable pub resolve_from : ResolverChain → ResolveQuery → ℕ → ResolveOutcome × ℕ
unfolding exhausted accept
resolve_from [] q steps = exhausted q.chain_policy.max_chain_iter steps
resolve_from (step ∷ chain) q steps =
    let rest = resolve_from chain q (suc steps) in
    if leb (iter_cap q.chain_policy.max_chain_iter) steps
    then (not_ready, steps)
    else elim (accept q.chain_policy.max_tier (step q)) [
      | none ↦ rest
      | some result ↦ (ready result, suc steps)
    ]

unfoldable pub resolve_with_steps : ResolverChain → ResolveQuery → ResolveOutcome × ℕ
unfolding resolve_from
resolve_with_steps chain q = resolve_from chain q 0

unfoldable pub resolve : ResolverChain → Resolver
unfolding resolve_with_steps
resolve chain q = (resolve_with_steps chain q).0
