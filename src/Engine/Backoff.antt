-- ===== src/Engine/Backoff.antt =====
-- progressive-lsp-engine/src/backoff.rs
use progressive_lsp.Base.{
  ℕ, zero, suc, ◌+◌, ◌-◌, ◌*◌, ◌^◌, ◌≤◌, ◌<◌, ◌≡◌, ◌↔◌, ap, Bool, true, arith, min, leb,
  if◌then◌else◌, ◌==◌, nat_eq, saturating_add, u64_max,
}
use native.Mathlib.Nat.{pow-suc}
use native.Mathlib.Decide.{dec_le}

pub record BackoffPolicy : Type 0 where
  pub initial_ms : ℕ
  pub max_ms : ℕ

abbrev pub default_policy : BackoffPolicy
default_policy = record { initial_ms = 100; max_ms = 10000 }

unfoldable pub delay_ms : BackoffPolicy → ℕ → ℕ
delay_ms p failures =
    if failures == 0
    then 0
    else min (min (p.initial_ms * 2 ^ min (failures - 1) 10) u64_max) p.max_ms

unfoldable pub next_attempt_ms : BackoffPolicy → ℕ → ℕ → ℕ
next_attempt_ms p now_ms failures = saturating_add now_ms (delay_ms p failures)

unfoldable pub can_respawn : ℕ → ℕ → Bool
can_respawn now_ms until_ms = leb until_ms now_ms

pow2-le : (m n : ℕ) → m ≤ n → 2 ^ m ≤ 2 ^ n
pow2-le zero zero h = omega arith
pow2-le (suc m) zero h = absurd (omega arith)
pow2-le m (suc n) h = elim (dec_le m n) [
  | yes below ↦ omega (arith, pow2-le m n below, pow-suc 2 n)
  | no above ↦ let e : m ≡ suc n = omega arith in rw e (omega arith)
]

capped : ℕ → ℕ → ℕ → ℕ
capped initial k max_ms = min (min (initial * 2 ^ k) u64_max) max_ms

capped_mono : (i k l top : ℕ) → k ≤ l → capped i k top ≤ capped i l top
unfolding capped
capped_mono i k l top h = omega (arith, product)
  where
    product : i * 2 ^ k ≤ i * 2 ^ l
    product = grind (arith, pow2-le k l h)

-- More failures never shorten the delay, and no number of failures takes it over `max_ms`.
pub delay_ms_mono :
    (p : BackoffPolicy) (m n : ℕ)
    → m ≤ n
    → (delay_ms p m ≤ delay_ms p n) × (delay_ms p n ≤ p.max_ms)
unfolding delay_ms capped
delay_ms_mono p m n h =
    ground
      (arith, capped_mono p.initial_ms (min (m - 1) 10) (min (n - 1) 10) p.max_ms (omega arith))

-- From the first failure to the tenth, one failure more doubles the delay up to `max_ms`, if
-- `max_ms` is a 64-bit number.
delay_ms-suc :
    (p : BackoffPolicy) (n : ℕ)
    → 0 < n
    → n ≤ 10
    → p.max_ms ≤ u64_max
    → delay_ms p (suc n) ≡ min (2 * delay_ms p n) p.max_ms
unfolding delay_ms
delay_ms-suc p zero pos few range = absurd (omega arith)
delay_ms-suc p (suc n) pos few range =
    rw (ten, nine) (ground (arith, ap (λ (t : ℕ). p.initial_ms * t) (pow-suc 2 n)))
  where
    ten : min (suc (suc n) - 1) 10 ≡ suc n
    ten = omega arith

    nine : min (suc n - 1) 10 ≡ n
    nine = omega arith

-- If the time of a crash and the delay together do not pass the largest 64-bit number, a pack may
-- be spawned again exactly when the delay has passed.
pub can_respawn-next_attempt_ms :
    (p : BackoffPolicy) (crashed_at now failures : ℕ)
    → crashed_at + delay_ms p failures ≤ u64_max
    → (can_respawn now (next_attempt_ms p crashed_at failures) ≡ true)
      ↔ (crashed_at + delay_ms p failures ≤ now)
unfolding can_respawn next_attempt_ms
can_respawn-next_attempt_ms p crashed_at now failures range = ground arith
