-- ===== src/Base/Decimal.antt =====
-- Decimal numbers: `format!("{n}")` of a `usize`, and `parse::<usize>()`, at 64 bits.
use Prim.Native.Nat.{ℕ, zero, suc, ◌+◌, ◌-◌, ◌*◌, ◌/◌, ◌%◌, ◌^◌, ◌≤◌, ◌<◌}
use mathlib.Core.Path.{◌≡◌, refl, ◌∙◌}
use mathlib.Core.Bool.{◌||◌}
use mathlib.Core.Option.{Option, none, some}
use mathlib.Core.List.{[], ◌∷◌}
use native.Mathlib.Nat.{pow-suc}
use native.Mathlib.Omega.{arith}
use progressive_lsp.Base.Tests.{if◌then◌else◌, ltb, nat_beq, Text, u64_max}
use progressive_lsp.Base.Lists.{All, length}

-- The digits of a number, before what is written already. Twenty digits hold any 64-bit number.
unfoldable pub decimal_from : ℕ → ℕ → Text → Text
decimal_from zero n out = out
decimal_from (suc places) n out =
    let more = decimal_from places (n / 10) ((48 + n % 10) ∷ out) in
    if ltb n 10 then (48 + n) ∷ out else more

abbrev pub to_decimal : ℕ → Text
to_decimal n = decimal_from 20 n []

unfoldable pub read_digits : Text → ℕ → Option ℕ
read_digits [] n = some n
read_digits (c ∷ s) n =
    let m = n * 10 + (c - 48) in
    let rest = read_digits s m in
    if ltb c 48 || ltb 57 c then none else if ltb u64_max m then none else rest

-- A sign alone is no number; a plus may stand before the digits.
unfoldable pub parse_usize : Text → Option ℕ
unfolding read_digits
parse_usize [] = none
parse_usize (c ∷ []) = read_digits (c ∷ []) 0
parse_usize (c ∷ d ∷ s) = if nat_beq c 43 then read_digits (d ∷ s) 0 else read_digits (c ∷ d ∷ s) 0

abbrev pub IsDigit : ℕ → Type 0
IsDigit c = (48 ≤ c) × (c ≤ 57)

pub decimal_from-IsDigit :
    (places n : ℕ) (out : Text) → All IsDigit out → All IsDigit (decimal_from places n out)
unfolding decimal_from
decimal_from-IsDigit zero n out h = h
decimal_from-IsDigit (suc places) n out h =
    ground (arith, decimal_from-IsDigit places (n / 10) ((48 + n % 10) ∷ out))

pub length-decimal_from :
    (places n : ℕ) (out : Text) → length (decimal_from places n out) ≤ places + length out
unfolding decimal_from
length-decimal_from zero n out = omega arith
length-decimal_from (suc places) n out =
    ground (arith, length-decimal_from places (n / 10) ((48 + n % 10) ∷ out))

pub decimal_from-pos :
    (places n : ℕ) (out : Text) → 0 < length out → 0 < length (decimal_from places n out)
unfolding decimal_from
decimal_from-pos zero n out h = h
decimal_from-pos (suc places) n out h =
    ground (arith, decimal_from-pos places (n / 10) ((48 + n % 10) ∷ out))

pub to_decimal-pos : (n : ℕ) → 0 < length (to_decimal n)
unfolding decimal_from
to_decimal-pos n = ground (arith, decimal_from-pos 19 (n / 10) ((48 + n % 10) ∷ []))

read_digits_last :
    (n : ℕ) (out : Text)
    → n ≤ u64_max
    → read_digits ((48 + n % 10) ∷ out) (n / 10) ≡ read_digits out n
unfolding read_digits
read_digits_last n out h = ground arith

read_digits_one : (n : ℕ) (out : Text) → n < 10 → read_digits ((48 + n) ∷ out) 0 ≡ read_digits out n
unfolding read_digits
read_digits_one n out h = ground arith

read_digits-decimal_from :
    (places n : ℕ) (out : Text)
    → n < 10 ^ suc places
    → n ≤ u64_max
    → read_digits (decimal_from (suc places) n out) 0 ≡ read_digits out n
unfolding decimal_from
read_digits-decimal_from zero n out h fits = ground (arith, read_digits_one n out)
read_digits-decimal_from (suc places) n out h fits =
    let ih =
      read_digits-decimal_from places (n / 10) ((48 + n % 10) ∷ out)
        (omega (arith, pow-suc 10 (suc places))) (omega arith) in
    ground (arith, read_digits_one n out, read_digits_last n out fits, ih)

parse_usize-read_digits :
    (s : Text) → 0 < length s → All IsDigit s → parse_usize s ≡ read_digits s 0
unfolding parse_usize
parse_usize-read_digits [] h d = absurd (omega arith)
parse_usize-read_digits (c ∷ []) h d = refl
parse_usize-read_digits (c ∷ e ∷ s) h d = ground arith

-- Every 64-bit number is read back from its digits.
pub parse_usize-to_decimal : (n : ℕ) → n ≤ u64_max → parse_usize (to_decimal n) ≡ some n
unfolding read_digits
parse_usize-to_decimal n h =
    parse_usize-read_digits (to_decimal n) (to_decimal-pos n) (decimal_from-IsDigit 20 n [] tt)
    ∙ read_digits-decimal_from 19 n [] (omega arith) h
