-- ===== src/Index/Cache/Distinct.antt =====
-- Which keys share a path (progressive-lsp-index/src/cache.rs).
use progressive_lsp.Base.{
  ℕ, ◌/◌, ◌%◌, ◌<◌, ◌≡◌, ◌↔◌, refl, sym, ap, ◌∙◌, [], ◌∷◌, ◌++◌, true, arith, Text, nat_eq, length,
  All,
}
use progressive_lsp.Base.Bytes.{Bytes, AreBytes}
use progressive_lsp.Index.Cache.{
  CacheKey, hex_digit, hex_lower, is_safe, sanitize_component, rel_path,
}
use progressive_lsp.Index.Cache.Paths.{
  sanitize_component-IsComponent, spelled, rel_path_lem, hash-IsComponent,
}

-- Up to the first slash two texts agree if they do as wholes.
slash_splits :
    (xs ys us vs : Text)
    → All (λ c. is_safe c ≡ true) xs
    → All (λ c. is_safe c ≡ true) us
    → xs ++ 47 ∷ ys ≡ us ++ 47 ∷ vs
    → (xs ≡ us) × (ys ≡ vs)
slash_splits [] ys [] vs h k e = (refl, cc)
slash_splits [] ys (a ∷ us) vs h k e = absurd (ground (arith, k.0, e))
slash_splits (x ∷ xs) ys [] vs h k e = absurd (ground (arith, h.0, e))
slash_splits (x ∷ xs) ys (a ∷ us) vs h k e =
    let first : x ≡ a = cc in let (same, left) = slash_splits xs ys us vs h.1 k.1 cc in (cc, left)

hex_digit-injective : (m n : ℕ) → m < 16 → n < 16 → hex_digit m ≡ hex_digit n → m ≡ n
hex_digit-injective m n h k e = ground (arith, e)

hex_lower-injective :
    (xs ys : Bytes) → AreBytes xs → AreBytes ys → hex_lower xs ≡ hex_lower ys → xs ≡ ys
unfolding hex_lower
hex_lower-injective [] [] h k e = refl
hex_lower-injective [] (y ∷ ys) h k e = cc
hex_lower-injective (x ∷ xs) [] h k e = cc
hex_lower-injective (x ∷ xs) (y ∷ ys) h k e =
    let high = hex_digit-injective (x / 16) (y / 16) (omega (arith, h.0)) (omega (arith, k.0)) cc in
    let low = hex_digit-injective (x % 16) (y % 16) (omega arith) (omega arith) cc in
    let first : x ≡ y = omega (arith, high, low) in
    let rest = hex_lower-injective xs ys h.1 k.1 cc in cc

abbrev pub SameNames : CacheKey → CacheKey → Type 0
SameNames k l =
    (sanitize_component k.grammar ≡ sanitize_component l.grammar)
    × (sanitize_component k.language ≡ sanitize_component l.language)
    × (k.hash ≡ l.hash)

-- Two keys whose hashes are byte strings that are not empty have the same file exactly if their
-- hashes are the same and the names of their grammars and languages are, once they are made safe.
pub rel_path_iff :
    (k l : CacheKey)
    → 0 < length k.hash
    → 0 < length l.hash
    → AreBytes k.hash
    → AreBytes l.hash
    → (rel_path k ≡ rel_path l) ↔ SameNames k l
rel_path_iff k l kpos lpos kb lb = (apart, together)
  where
    left : rel_path k ≡ spelled k
    left = rel_path_lem k (hash-IsComponent k kpos kb)

    right : rel_path l ≡ spelled l
    right = rel_path_lem l (hash-IsComponent l lpos lb)

    apart : rel_path k ≡ rel_path l → SameNames k l
    apart e =
        let (grammars, rest) =
          slash_splits (sanitize_component k.grammar) _ (sanitize_component l.grammar) _
            (sanitize_component-IsComponent k.grammar).safe
            (sanitize_component-IsComponent l.grammar).safe (sym left ∙ e ∙ right) in
        let (languages, hashes) =
          slash_splits (sanitize_component k.language) _ (sanitize_component l.language) _
            (sanitize_component-IsComponent k.language).safe
            (sanitize_component-IsComponent l.language).safe rest in
        (grammars, languages, hex_lower-injective k.hash l.hash kb lb hashes)

    together : SameNames k l → rel_path k ≡ rel_path l
    together (g, n, h) = left ∙ (ground (arith, g, n, ap hex_lower h) ∙ sym right)
