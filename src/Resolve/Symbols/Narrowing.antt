-- ===== src/Resolve/Symbols/Narrowing.antt =====
-- A choice among symbols keeps to the symbols that it is made of.
use progressive_lsp.Base.{
  ◌<◌, inl, inr, refl, List, [], ◌∷◌, arith, Text, length, keep, All, All-keep, In,
}
use progressive_lsp.Resolve.Symbols.{
  IndexedSymbol, ImportDecl, narrowed, from_imports, prefer_imported, import_matches,
}

module _ (P : IndexedSymbol → Type 0) where
  pub All-narrowed : (xs all : List IndexedSymbol) → All P xs → All P all → All P (narrowed xs all)
  All-narrowed [] all p q = q
  All-narrowed (x ∷ xs) all p q = p

  pub All-prefer_imported :
      (name : Text) (imports : List ImportDecl) (candidates : List IndexedSymbol)
      → All P candidates
      → All P (prefer_imported name imports candidates)
  unfolding prefer_imported
  All-prefer_imported name imports candidates p =
      All-from_imports (keep (λ i. import_matches i name) imports)
    where
      All-from_imports :
          (imported : List ImportDecl) → All P (from_imports name imported candidates)
      All-from_imports [] = All-keep P _ candidates p
      All-from_imports (i ∷ imported) =
          All-narrowed _ _ (All-keep P _ candidates p) (All-keep P _ candidates p)

-- Of a list that is not empty the choice is not empty.
pub length-narrowed : (xs all : List IndexedSymbol) → 0 < length all → 0 < length (narrowed xs all)
length-narrowed [] all h = h
length-narrowed (x ∷ xs) all h = omega arith

pub All-self : (xs : List IndexedSymbol) → All (λ s. In s xs) xs
All-self xs = go xs (λ s h. h)
  where
    go :
        (ys : List IndexedSymbol)
        → ((s : IndexedSymbol) → In s ys → In s xs)
        → All (λ s. In s xs) ys
    go [] h = tt
    go (y ∷ ys) h = (h y (inl refl), go ys (λ s k. h s (inr k)))
