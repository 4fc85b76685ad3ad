-- ===== src/Base/Bytes.antt =====
-- `u32::to_be_bytes`, `u64::to_le_bytes` and their inverses, on byte strings.
use Prim.Native.Nat.{ℕ, zero, suc, ◌+◌, ◌*◌, ◌/◌, ◌%◌, ◌^◌, ◌<◌}
use mathlib.Core.Path.{◌≡◌, refl}
use mathlib.Core.List.{List, [], ◌∷◌}
use native.Mathlib.Omega.{arith}
use native.Mathlib.Nat.{pow-suc}
use progressive_lsp.Base.Lists.{length, All}

abbrev pub Bytes : Type 0
Bytes = List ℕ

abbrev pub AreBytes : Bytes → Type 0
AreBytes = All (λ b. b < 256)

abbrev pub u32_to_be_bytes : ℕ → Bytes
u32_to_be_bytes n = (n / 16777216 % 256) ∷ (n / 65536 % 256) ∷ (n / 256 % 256) ∷ (n % 256) ∷ []

abbrev pub u32_from_be_bytes : ℕ → ℕ → ℕ → ℕ → ℕ
u32_from_be_bytes a b c d = a * 16777216 + b * 65536 + c * 256 + d

pub u32_from-to_be_bytes :
    (n : ℕ)
    → n < 2 ^ 32
    → u32_from_be_bytes (n / 16777216 % 256) (n / 65536 % 256) (n / 256 % 256) (n % 256) ≡ n
u32_from-to_be_bytes n h = omega arith

pub u32_to-from_be_bytes :
    (a b c d : ℕ)
    → a < 256
    → b < 256
    → c < 256
    → d < 256
    → u32_to_be_bytes (u32_from_be_bytes a b c d) ≡ a ∷ b ∷ c ∷ d ∷ []
u32_to-from_be_bytes a b c d ha hb hc hd = ground arith

pub u32_from_be_bytes-lt :
    (a b c d : ℕ) → a < 256 → b < 256 → c < 256 → d < 256 → u32_from_be_bytes a b c d < 2 ^ 32
u32_from_be_bytes-lt a b c d ha hb hc hd = omega arith

-- The low `n` bytes of a word, the least significant one first, and what they spell.
unfoldable pub to_le_bytes : ℕ → ℕ → Bytes
to_le_bytes zero w = []
to_le_bytes (suc n) w = (w % 256) ∷ to_le_bytes n (w / 256)

unfoldable pub from_le_bytes : Bytes → ℕ
from_le_bytes [] = 0
from_le_bytes (b ∷ bytes) = b + 256 * from_le_bytes bytes

pub length-to_le_bytes : (n w : ℕ) → length (to_le_bytes n w) ≡ n
unfolding to_le_bytes
length-to_le_bytes zero w = refl
length-to_le_bytes (suc n) w = omega (arith, length-to_le_bytes n (w / 256))

pub from-to_le_bytes : (n w : ℕ) → w < 256 ^ n → from_le_bytes (to_le_bytes n w) ≡ w
unfolding to_le_bytes from_le_bytes
from-to_le_bytes zero w h = omega arith
from-to_le_bytes (suc n) w h =
    omega (arith, from-to_le_bytes n (w / 256) (omega (arith, pow-suc 256 n)))
