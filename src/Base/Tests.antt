-- ===== src/Base/Tests.antt =====
-- Boolean tests, the conditional, equality as an interface, and text as lists of code points.
use Prim.Native.Nat.{ℕ, ◌≤◌, ◌<◌, ◌+◌, ◌-◌, ◌^◌, min, compare, Ordering}
use Prim.Native.Char.{code}
use Prim.Native.String.{String}
use mathlib.Core.Path.{◌≡◌, refl, sym, ap, ◌∙◌}
use mathlib.Core.Logic.{◌↔◌, ◌⊎◌, inl, inr}
use mathlib.Core.Bool.{Bool, true, false, ◌&&◌}
use mathlib.Core.Option.{Option, none, some}
use mathlib.Core.List.{List, [], ◌∷◌}
use native.Mathlib.Omega.{arith}

abbrev pub ltb : ℕ → ℕ → Bool
ltb a b = elim (compare a b) [ Ordering.lt ↦ true | _ ↦ false ]

abbrev pub leb : ℕ → ℕ → Bool
leb a b = elim (compare a b) [ Ordering.gt ↦ false | _ ↦ true ]

abbrev pub nat_beq : ℕ → ℕ → Bool
nat_beq a b = elim (compare a b) [ Ordering.eq ↦ true | _ ↦ false ]

infix 1 if◌then◌else◌
abbrev pub if◌then◌else◌ {ℓ} : {A : Type ℓ} → Bool → A → A → A
if true then x else y = x
if false then x else y = y

pub ltb→lt : (a b : ℕ) → ltb a b ≡ true → a < b
ltb→lt a b h = ground arith

pub lt→ltb : (a b : ℕ) → a < b → ltb a b ≡ true
lt→ltb a b h = ground arith

pub leb→le : (a b : ℕ) → leb a b ≡ true → a ≤ b
leb→le a b h = ground arith

pub nat_beq_iff : (a b : ℕ) → (nat_beq a b ≡ true) ↔ (a ≡ b)
nat_beq_iff a b = ground arith

pub Bool-cases : (b : Bool) → (b ≡ true) ⊎ (b ≡ false)
Bool-cases true = inl refl
Bool-cases false = inr refl

pub Option-cases {ℓ} : {A : Type ℓ} (o : Option A) → (o ≡ none) ⊎ ((a : A) × (o ≡ some a))
Option-cases none = inl refl
Option-cases (some a) = inr (a, refl)

-- Rust's `Result`.
pub data Result {ℓ κ} (A : Type ℓ) (E : Type κ) : Type (ℓ ⊔ κ) where
  ok : A → Result A E
  err : E → Result A E

-- Rust's `PartialEq`: an equality test, which decides equality in each of its instances.
pub record PartialEq {κ} (X : Type κ) : Type κ where
  pub same : X → X → Bool
  pub same_iff : (x y : X) → (same x y ≡ true) ↔ (x ≡ y)

-- A number is compared by the native comparison.
instance abbrev pub nat_eq : PartialEq ℕ
nat_eq = record { same = nat_beq; same_iff = nat_beq_iff }

module _ {κ} {X : Type κ} ⦃p : PartialEq X⦄ where
  infix 50 ◌==◌
  abbrev pub ◌==◌ : X → X → Bool
  x == y = p.same x y

  pub ==_iff : (x y : X) → ((x == y) ≡ true) ↔ (x ≡ y)
  ==_iff x y = p.same_iff x y

pub ==_refl {ℓ} : {A : Type ℓ} ⦃e : PartialEq A⦄ (a : A) → (a == a) ≡ true
==_refl a = (==_iff a a).1 refl

pub ==_sym {ℓ} : {A : Type ℓ} ⦃e : PartialEq A⦄ (a b : A) → (a == b) ≡ (b == a)
==_sym a b = ground (arith, ==_iff a b, ==_iff b a)

module _ {ℓ} {A : Type ℓ} ⦃e : PartialEq A⦄ where
  abbrev pub list_beq : List A → List A → Bool
  list_beq [] [] = true
  list_beq [] (y ∷ ys) = false
  list_beq (x ∷ xs) [] = false
  list_beq (x ∷ xs) (y ∷ ys) = x == y && list_beq xs ys

  pub list_beq_iff : (xs ys : List A) → (list_beq xs ys ≡ true) ↔ (xs ≡ ys)
  list_beq_iff [] [] = (λ _. refl, λ _. refl)
  list_beq_iff [] (y ∷ ys) = (λ h. cc, λ h. cc)
  list_beq_iff (x ∷ xs) [] = (λ h. cc, λ h. cc)
  list_beq_iff (x ∷ xs) (y ∷ ys) = ground (arith, ==_iff x y, list_beq_iff xs ys)

  instance abbrev pub list_eq : PartialEq (List A)
  list_eq = record { same = list_beq; same_iff = list_beq_iff }

-- A string is the list of its characters; a byte string the list of its bytes.
abbrev pub Text : Type 0
Text = List ℕ

instance abbrev pub text_eq : PartialEq Text
text_eq = list_eq

abbrev pub codes : String → Text
codes String.[] = []
codes (String.◌∷◌ c s) = code c ∷ codes s

-- `u64::MAX`, and `saturating_add` at 64 bits.
abbrev pub u64_max : ℕ
u64_max = 2 ^ 64 - 1

abbrev pub saturating_add : ℕ → ℕ → ℕ
saturating_add a b = min (a + b) u64_max

module _ {ℓ κ} {A : Type ℓ} {B : Type κ} ⦃a : PartialEq A⦄ ⦃b : PartialEq B⦄ where
  abbrev pub pair_beq : A × B → A × B → Bool
  pair_beq x y = a.same x.0 y.0 && b.same x.1 y.1

  pub pair_beq_iff : (x y : A × B) → (pair_beq x y ≡ true) ↔ (x ≡ y)
  pair_beq_iff (x, z) (y, w) = ground (arith, a.same_iff x y, b.same_iff z w)

  instance abbrev pub pair_eq : PartialEq (A × B)
  pair_eq = record { same = pair_beq; same_iff = pair_beq_iff }

-- The test of a type that another one encodes.
abbrev pub eq_by {ℓ κ} :
    {A : Type ℓ} {B : Type κ} ⦃b : PartialEq B⦄ (encode : A → B) (decode : B → A)
    → ((a : A) → decode (encode a) ≡ a)
    → PartialEq A
eq_by ⦃b⦄ encode decode back = record {
  same = λ x y. b.same (encode x) (encode y);
  same_iff = λ x y. (
    λ h. sym (back x) ∙ ap decode ((b.same_iff (encode x) (encode y)).0 h) ∙ back y,
    λ e. (b.same_iff (encode x) (encode y)).1 (ap encode e),
  );
}
