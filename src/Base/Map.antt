-- ===== src/Base/Map.antt =====
-- Keyed maps. `HashMap` and `HashSet`: association lists in insertion order, whose order no model
-- reads. A key occurs once, and a write replaces its value in place.
use mathlib.Core.Path.{◌≡◌, refl, ap}
use mathlib.Core.Bool.{Bool, true, false}
use mathlib.Core.Option.{Option, none, some}
use mathlib.Core.List.{List, [], ◌∷◌, map}
use native.Mathlib.Omega.{arith}
use progressive_lsp.Base.Tests.{if◌then◌else◌, PartialEq, ◌==◌, ==_iff}
use progressive_lsp.Base.Lists.{keep}

abbrev pub Map {ℓ κ} : Type ℓ → Type κ → Type (ℓ ⊔ κ)
Map K V = List (K × V)

module _ {ℓ κ} {K : Type ℓ} {V : Type κ} where
  abbrev pub keys : Map K V → List K
  keys m = map (λ e. e.0) m

  abbrev pub values : Map K V → List V
  values m = map (λ e. e.1) m

module _ {ℓ κ} {K : Type ℓ} {V : Type κ} ⦃e : PartialEq K⦄ where
  unfoldable pub get : K → Map K V → Option V
  get k [] = none
  get k ((j, v) ∷ m) = if j == k then some v else get k m

  unfoldable pub insert : K → V → Map K V → Map K V
  insert k v [] = (k, v) ∷ []
  insert k v ((j, w) ∷ m) = if j == k then (k, v) ∷ m else (j, w) ∷ insert k v m

  unfoldable pub remove : K → Map K V → Map K V
  remove k [] = []
  remove k ((j, w) ∷ m) = let rest = remove k m in if j == k then rest else (j, w) ∷ rest

  abbrev pub contains_key : K → Map K V → Bool
  contains_key k m = elim (get k m) [ none ↦ false | some _ ↦ true ]

  pub get-insert :
      (k j : K) (v : V) (m : Map K V) → get j (insert k v m) ≡ (if k == j then some v else get j m)
  unfolding get insert
  get-insert k j v [] = refl
  get-insert k j v ((i, w) ∷ m) =
      ground (arith, ==_iff k j, ==_iff i k, ==_iff i j, get-insert k j v m)

  pub get-remove : (k j : K) (m : Map K V) → get j (remove k m) ≡ (if k == j then none else get j m)
  unfolding get remove
  get-remove k j [] = ground arith
  get-remove k j ((i, w) ∷ m) = ground (arith, ==_iff k j, ==_iff i k, ==_iff i j, get-remove k j m)

  -- `retain` with a test that reads key and value.
  pub get-keep_key :
      (p : K → Bool) (j : K) (m : Map K V)
      → get j (keep (λ e. p e.0) m) ≡ (if p j then get j m else none)
  unfolding get
  get-keep_key p j [] = ground arith
  get-keep_key p j ((i, w) ∷ m) =
      ground (arith, ==_iff i j, ap p {x = i} {y = j}, get-keep_key p j m)

  -- A value that passes the test of `retain` stays.
  pub get-keep_found :
      (p : K × V → Bool) (k : K) (v : V) (m : Map K V)
      → get k m ≡ some v
      → p (k, v) ≡ true
      → get k (keep p m) ≡ some v
  unfolding get
  get-keep_found p k v [] h t = cc
  get-keep_found p k v ((j, w) ∷ m) h t = ground (
    arith,
    ==_iff j k,
    get-keep_found p k v m,
    ap (λ (i : K). p (i, w)) {x = j} {y = k},
    ap (λ (u : V). p (k, u)) {x = w} {y = v},
  )
