-- ===== src/Base/Sorting.antt =====
-- `sort_by`, which is stable, and what it keeps of a list.
use mathlib.Core.Logic.{inl, inr}
use mathlib.Core.Bool.{Bool}
use mathlib.Core.List.{List, [], ◌∷◌}
use progressive_lsp.Base.Tests.{if◌then◌else◌, Bool-cases}
use progressive_lsp.Base.Lists.{All}

module _ {ℓ} {A : Type ℓ} (le : A → A → Bool) where
  abbrev pub insert_sorted : A → List A → List A
  insert_sorted x [] = x ∷ []
  insert_sorted x (y ∷ ys) =
      let rest = y ∷ insert_sorted x ys in if le x y then x ∷ y ∷ ys else rest

  abbrev pub sort_by : List A → List A
  sort_by [] = []
  sort_by (x ∷ xs) = insert_sorted x (sort_by xs)

module _ {A : Type 0} (P : A → Type 0) (le : A → A → Bool) where
  All-insert_sorted : (x : A) (ys : List A) → P x → All P ys → All P (insert_sorted le x ys)
  All-insert_sorted x [] p q = (p, tt)
  All-insert_sorted x (y ∷ ys) p q = elim (Bool-cases (le x y)) [
    | inl before ↦ rw before (p, q)
    | inr after ↦ rw after (q.0, All-insert_sorted x ys p q.1)
  ]

  pub All-sort_by : (xs : List A) → All P xs → All P (sort_by le xs)
  All-sort_by [] q = tt
  All-sort_by (x ∷ xs) q = All-insert_sorted x (sort_by le xs) q.0 (All-sort_by xs q.1)
