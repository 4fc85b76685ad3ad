-- ===== src/Base/OrdMap.antt =====
-- `BTreeMap` with text keys: association lists that a write keeps in the order of their keys. Reads
-- and removals are those of Base/Map.antt.
use mathlib.Core.Path.{◌≡◌, refl}
use mathlib.Core.Bool.{Bool, true, false}
use mathlib.Core.Option.{some}
use mathlib.Core.List.{[], ◌∷◌}
use native.Mathlib.Omega.{arith}
use progressive_lsp.Base.Tests.{if◌then◌else◌, ◌==◌, ==_iff, Text, text_eq, ltb, nat_beq}
use progressive_lsp.Base.Map.{Map, get}

-- The order of `String`: that of the bytes, which is that of the code points.
unfoldable pub text_lt : Text → Text → Bool
text_lt xs [] = false
text_lt [] (y ∷ ys) = true
text_lt (x ∷ xs) (y ∷ ys) =
    let rest = text_lt xs ys in if ltb x y then true else if nat_beq x y then rest else false

module _ {κ} {V : Type κ} where
  unfoldable pub insert : Text → V → Map Text V → Map Text V
  unfolding text_lt
  insert k v [] = (k, v) ∷ []
  insert k v ((j, w) ∷ m) =
      let rest = insert k v m in
      if j == k then (k, v) ∷ m else if text_lt k j then (k, v) ∷ (j, w) ∷ m else (j, w) ∷ rest

  pub get-insert :
      (k j : Text) (v : V) (m : Map Text V)
      → get j (insert k v m) ≡ (if k == j then some v else get j m)
  unfolding get insert
  get-insert k j v [] = refl
  get-insert k j v ((i, w) ∷ m) =
      ground (arith, ==_iff k j, ==_iff i k, ==_iff i j, get-insert k j v m)
