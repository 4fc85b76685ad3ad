-- ===== src/Resolve/Chain/Answers.antt =====
-- Which step of the chain answers (progressive-lsp-resolve/src/chain.rs).
use progressive_lsp.Base.{
  ℕ, suc, ◌+◌, ◌≤◌, ◌<◌, ◌≡◌, sym, subst, Bool, true, false, List, [], ◌∷◌, ◌++◌, map, Option, none,
  some, arith, leb, ltb, if◌then◌else◌, length, All,
}
use progressive_lsp.Resolve.{
  Tier, syntax, rank, is_above, ResolveQuery, LspLocation, ResolveResult, empty_result,
  ResolveOutcome, ready, not_ready,
}
use progressive_lsp.Resolve.Chain.{
  Resolver, ResolverChain, clamp, clamp_result_tier, accept, iter_cap, exhausted, resolve_from,
  resolve_with_steps, resolve,
}

-- The steps that pass a query on.
abbrev pub PassOn : ResolveQuery → ResolverChain → Type 0
PassOn q chain = All (λ (step : Resolver). accept q.chain_policy.max_tier (step q) ≡ none) chain

resolve_from-PassOn :
    (before after : ResolverChain) (step : Resolver) (q : ResolveQuery) (result : ResolveResult)
    (n : ℕ)
    → PassOn q before
    → accept q.chain_policy.max_tier (step q) ≡ some result
    → n + length before < iter_cap q.chain_policy.max_chain_iter
    → resolve_from (before ++ step ∷ after) q n ≡ (ready result, suc (n + length before))
unfolding resolve_from
resolve_from-PassOn [] after step q result n pass answer few = ground arith
resolve_from-PassOn (s ∷ before) after step q result n pass answer few =
    ground
      (arith, resolve_from-PassOn before after step q result (suc n) pass.1 answer (omega arith))

-- If the steps before it pass the query on, and fewer of them than the limit of the policy, the
-- first step whose answer is accepted answers alone: the steps after it change nothing, and the
-- count is its place in the chain.
pub resolve_with_steps-first :
    (before after : ResolverChain) (step : Resolver) (q : ResolveQuery) (result : ResolveResult)
    → PassOn q before
    → accept q.chain_policy.max_tier (step q) ≡ some result
    → length before < iter_cap q.chain_policy.max_chain_iter
    → resolve_with_steps (before ++ step ∷ after) q ≡ (ready result, suc (length before))
unfolding resolve_with_steps
resolve_with_steps-first before after step q result pass answer few =
    ground (arith, resolve_from-PassOn before after step q result 0 pass answer (omega arith))

abbrev pub IsWithin : Tier → ResolveResult → Type 0
IsWithin ceiling result =
    (rank result.tier ≤ rank ceiling)
    × All (λ (l : LspLocation). rank l.tier ≤ rank ceiling) result.locations

abbrev pub AnswersWithin : Tier → ResolveOutcome → Type 0
AnswersWithin ceiling not_ready = Unit
AnswersWithin ceiling (ready result) = IsWithin ceiling result

abbrev AcceptsWithin : Tier → Option ResolveResult → Type 0
AcceptsWithin ceiling none = Unit
AcceptsWithin ceiling (some result) = IsWithin ceiling result

clamp-rank : (ceiling tier : Tier) → rank (clamp ceiling tier) ≤ rank ceiling
clamp-rank ceiling tier = ground arith

clamp-locations :
    (ceiling : Tier) (ls : List LspLocation)
    → All
        (λ (l : LspLocation). rank l.tier ≤ rank ceiling)
        (map {A = LspLocation} (λ l. record l { tier = clamp ceiling l.tier }) ls)
clamp-locations ceiling [] = tt
clamp-locations ceiling (l ∷ ls) = (clamp-rank ceiling l.tier, clamp-locations ceiling ls)

accept-within :
    (ceiling : Tier) (outcome : ResolveOutcome)
    → AcceptsWithin ceiling (accept (some ceiling) outcome)
unfolding accept clamp_result_tier
accept-within ceiling not_ready = tt
accept-within ceiling (ready r) =
    by (is_above r.tier ceiling) (clamp-rank ceiling r.tier, clamp-locations ceiling r.locations)
  where
    by :
        (above : Bool)
        → IsWithin ceiling (clamp_result_tier ceiling r)
        → AcceptsWithin ceiling (if above then none else some (clamp_result_tier ceiling r))
    by true w = tt
    by false w = w

-- One turn of the loop.
turn-within :
    (ceiling : Tier) (stop : Bool) (steps : ℕ) (o : Option ResolveResult)
    (rest : ResolveOutcome × ℕ)
    → AcceptsWithin ceiling o
    → AnswersWithin ceiling rest.0
    → AnswersWithin ceiling
        (if◌then◌else◌ {A = ResolveOutcome × ℕ} stop
          (not_ready, steps)
          (elim o [ none ↦ rest | some result ↦ (ready result, suc steps) ])).0
turn-within ceiling true steps o rest a b = tt
turn-within ceiling false steps none rest a b = b
turn-within ceiling false steps (some r) rest a b = a

exhausted-within :
    (ceiling : Tier) (limit : Option ℕ) (steps : ℕ)
    → AnswersWithin ceiling (exhausted limit steps).0
unfolding exhausted
exhausted-within ceiling none steps = (omega arith, tt)
exhausted-within ceiling (some limit) steps = by (leb limit steps)
  where
    by :
        (over : Bool)
        → AnswersWithin ceiling
            (if◌then◌else◌ {A = ResolveOutcome × ℕ} over
              (not_ready, steps)
              (ready (empty_result syntax), steps)).0
    by true = tt
    by false = (omega arith, tt)

resolve_from-within :
    (chain : ResolverChain) (q : ResolveQuery) (ceiling : Tier) (n : ℕ)
    → q.chain_policy.max_tier ≡ some ceiling
    → AnswersWithin ceiling (resolve_from chain q n).0
unfolding resolve_from
resolve_from-within [] q ceiling n top = exhausted-within ceiling q.chain_policy.max_chain_iter n
resolve_from-within (step ∷ chain) q ceiling n top =
    turn-within ceiling (leb (iter_cap q.chain_policy.max_chain_iter) n) n
      (accept q.chain_policy.max_tier (step q)) (resolve_from chain q (suc n))
      (subst (λ t. AcceptsWithin ceiling (accept t (step q))) (sym top)
        (accept-within ceiling (step q)))
      (resolve_from-within chain q ceiling (suc n) top)

-- Under a policy with a ceiling on the tier, neither an answer of the chain nor a location in it
-- claims a tier above the ceiling.
pub resolve-within :
    (chain : ResolverChain) (q : ResolveQuery) (ceiling : Tier)
    → q.chain_policy.max_tier ≡ some ceiling
    → AnswersWithin ceiling (resolve chain q)
unfolding resolve resolve_with_steps
resolve-within chain q ceiling top = resolve_from-within chain q ceiling 0 top

-- What the chain returns when none of its steps answers, by the limit of the policy and the number of
-- the steps.
pub unanswered : Option ℕ → ℕ → ResolveOutcome × ℕ
unanswered none n = if leb n 255 then (ready (empty_result syntax), n) else (not_ready, 255)
unanswered (some limit) n =
    if ltb n limit then (ready (empty_result syntax), n) else (not_ready, limit)

resolve_from-unanswered :
    (chain : ResolverChain) (q : ResolveQuery) (n : ℕ)
    → PassOn q chain
    → n ≤ iter_cap q.chain_policy.max_chain_iter
    → resolve_from chain q n ≡ unanswered q.chain_policy.max_chain_iter (n + length chain)
unfolding resolve_from exhausted unanswered
resolve_from-unanswered [] q n pass few = ground arith
resolve_from-unanswered (step ∷ chain) q n pass few =
    ground (arith, resolve_from-unanswered chain q (suc n) pass.1)

-- When every step passes the query on, the chain is ready and empty if it has fewer steps than
-- the limit of the policy, or at most 255 and no limit; otherwise it is not ready, and the count
-- is the limit.
resolve_with_steps-unanswered :
    (chain : ResolverChain) (q : ResolveQuery)
    → PassOn q chain
    → resolve_with_steps chain q ≡ unanswered q.chain_policy.max_chain_iter (length chain)
unfolding resolve_with_steps
resolve_with_steps-unanswered chain q pass =
    ground (arith, resolve_from-unanswered chain q 0 pass (omega arith))
