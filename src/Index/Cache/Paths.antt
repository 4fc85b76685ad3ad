-- ===== src/Index/Cache/Paths.antt =====
-- Where the records of the cache lie (progressive-lsp-index/src/cache.rs).
use mathlib.Core.List.{append_assoc}
use progressive_lsp.Base.{
  ℕ, ◌*◌, ◌/◌, ◌%◌, ◌<◌, ◌≡◌, ◌≢◌, refl, sym, ap, ◌∙◌, [], ◌∷◌, ◌++◌, true, false, some, arith,
  Text, codes, ==_iff, nat_eq, text_eq, length, All, Bool-cases, inl, inr,
}
use progressive_lsp.Base.Bytes.{Bytes, AreBytes}
use progressive_lsp.Base.Texts.{starts_with, contains_text}
use progressive_lsp.Index.Cache.{
  CacheKey, hex_digit, hex_lower, is_safe, is_rejected, replaced, sanitize_component,
  ends_with_slash, join, rel_path, open_cache, disk_path,
}

-- A name of a file or directory that is neither empty nor leads upwards.
pub record IsComponent (t : Text) : Type 0 where
  pub safe : All (λ c. is_safe c ≡ true) t
  pub kept : is_rejected t ≡ false

replaced-safe : (s : Text) → All (λ c. is_safe c ≡ true) (replaced s)
replaced-safe [] = tt
replaced-safe (c ∷ s) = (
  elim (Bool-cases (is_safe c)) [ inl plain ↦ rw plain plain | inr other ↦ rw other refl ],
  replaced-safe s,
)

underscore-IsComponent : IsComponent (codes "_")
unfolding contains_text starts_with
underscore-IsComponent = record { safe = (refl, tt); kept = refl }

pub sanitize_component-IsComponent : (s : Text) → IsComponent (sanitize_component s)
unfolding sanitize_component
sanitize_component-IsComponent s = elim (Bool-cases (is_rejected (replaced s))) [
  | inl rejected ↦ rw rejected underscore-IsComponent
  | inr fine ↦ rw fine (record { safe = replaced-safe s; kept = fine })
]

-- Without a dot nothing leads upwards.
no_dots : (s : Text) → All (λ c. c ≢ 46) s → contains_text s (codes "..") ≡ false
unfolding contains_text starts_with
no_dots [] h = refl
no_dots (c ∷ []) h = ground (arith, h.0)
no_dots (c ∷ d ∷ s) h = ground (arith, h.0, no_dots (d ∷ s) h.1)

abbrev IsHex : ℕ → Type 0
IsHex c = (is_safe c ≡ true) × (c ≢ 46)

hex_digit-IsHex : (n : ℕ) → n < 16 → IsHex (hex_digit n)
hex_digit-IsHex n h = ground arith

hex_lower-IsHex : (bytes : Bytes) → AreBytes bytes → All IsHex (hex_lower bytes)
unfolding hex_lower
hex_lower-IsHex [] h = tt
hex_lower-IsHex (b ∷ bytes) h = (
  hex_digit-IsHex (b / 16) (omega (arith, h.0)),
  (hex_digit-IsHex (b % 16) (omega arith), hex_lower-IsHex bytes h.1),
)

IsHex-IsComponent : (s : Text) → 0 < length s → All IsHex s → IsComponent s
IsHex-IsComponent s pos h = record { safe = hexes s h; kept = not_rejected s pos (dotless s h) }
  where
    hexes : (t : Text) → All IsHex t → All (λ c. is_safe c ≡ true) t
    hexes [] k = tt
    hexes (c ∷ t) k = (k.0.0, hexes t k.1)

    dotless : (t : Text) → All IsHex t → All (λ c. c ≢ 46) t
    dotless [] k = tt
    dotless (c ∷ t) k = (k.0.1, dotless t k.1)

    not_rejected : (t : Text) → 0 < length t → All (λ c. c ≢ 46) t → is_rejected t ≡ false
    not_rejected [] p k = absurd (omega arith)
    not_rejected (c ∷ t) p k = ground (arith, k.0, no_dots (c ∷ t) k)

length-hex_lower : (bytes : Bytes) → length (hex_lower bytes) ≡ 2 * length bytes
unfolding hex_lower
length-hex_lower [] = omega arith
length-hex_lower (b ∷ bytes) = omega (arith, length-hex_lower bytes)

-- A component is joined behind a slash.
ends_with_slash-append :
    (xs ys : Text) (y : ℕ) → ends_with_slash (xs ++ y ∷ ys) ≡ ends_with_slash (y ∷ ys)
ends_with_slash-append [] ys y = refl
ends_with_slash-append (x ∷ []) ys y = refl
ends_with_slash-append (x ∷ z ∷ xs) ys y = ends_with_slash-append (z ∷ xs) ys y

safe-ends_with_slash :
    (s : Text) → 0 < length s → All (λ c. is_safe c ≡ true) s → ends_with_slash s ≡ false
safe-ends_with_slash [] pos h = absurd (omega arith)
safe-ends_with_slash (c ∷ []) pos h = ground (arith, h.0)
safe-ends_with_slash (c ∷ d ∷ s) pos h = safe-ends_with_slash (d ∷ s) (omega arith) h.1

IsComponent-pos : (t : Text) → IsComponent t → 0 < length t
IsComponent-pos [] i = absurd (ground (arith, i.kept))
IsComponent-pos (c ∷ t) i = omega arith

IsComponent-relative : (t : Text) → IsComponent t → starts_with t (codes "/") ≡ false
unfolding starts_with
IsComponent-relative [] i = refl
IsComponent-relative (c ∷ t) i = ground (arith, i.safe.0)

join-IsComponent :
    (path t : Text) → ends_with_slash path ≡ false → IsComponent t → join path t ≡ path ++ 47 ∷ t
unfolding join
join-IsComponent path t h i = rw (IsComponent-relative t i, h) refl

IsComponent-ends_with_slash : (t : Text) → IsComponent t → ends_with_slash t ≡ false
IsComponent-ends_with_slash t i = safe-ends_with_slash t (IsComponent-pos t i) i.safe

ends_with_slash-two : (a b : Text) → IsComponent b → ends_with_slash (a ++ 47 ∷ b) ≡ false
ends_with_slash-two a b i = ends_with_slash-append a b 47 ∙ slash b i
  where
    slash : (t : Text) → IsComponent t → ends_with_slash (47 ∷ t) ≡ false
    slash [] j = absurd (ground (arith, j.kept))
    slash (c ∷ t) j = IsComponent-ends_with_slash (c ∷ t) j

pub hash-IsComponent :
    (k : CacheKey) → 0 < length k.hash → AreBytes k.hash → IsComponent (hex_lower k.hash)
hash-IsComponent k pos bytes =
    IsHex-IsComponent (hex_lower k.hash) (omega (arith, length-hex_lower k.hash))
      (hex_lower-IsHex k.hash bytes)

rel_path_parts :
    (k : CacheKey)
    → IsComponent (hex_lower k.hash)
    → rel_path k
      ≡ (sanitize_component k.grammar ++ 47 ∷ sanitize_component k.language)
        ++ 47 ∷ hex_lower k.hash
unfolding rel_path
rel_path_parts k i =
    let g = sanitize_component-IsComponent k.grammar in
    let l = sanitize_component-IsComponent k.language in
    let e =
      join-IsComponent (sanitize_component k.grammar) (sanitize_component k.language)
        (IsComponent-ends_with_slash (sanitize_component k.grammar) g) l in
    rw e (
      join-IsComponent (sanitize_component k.grammar ++ 47 ∷ sanitize_component k.language)
        (hex_lower k.hash)
        (ends_with_slash-two (sanitize_component k.grammar) (sanitize_component k.language) l) i)

starts_with_slash-append : (a b : Text) → IsComponent a → starts_with (a ++ b) (codes "/") ≡ false
unfolding starts_with
starts_with_slash-append [] b i = absurd (ground (arith, i.kept))
starts_with_slash-append (c ∷ a) b i = ground (arith, i.safe.0)

-- The three components with slashes between them.
abbrev pub spelled : CacheKey → Text
spelled k =
    sanitize_component k.grammar ++ 47 ∷ (sanitize_component k.language ++ 47 ∷ hex_lower k.hash)

pub rel_path_lem : (k : CacheKey) → IsComponent (hex_lower k.hash) → rel_path k ≡ spelled k
rel_path_lem k i =
    rel_path_parts k i
    ∙ append_assoc (sanitize_component k.grammar) (47 ∷ sanitize_component k.language)
        (47 ∷ hex_lower k.hash)

join-relative :
    (dir path : Text) → starts_with path (codes "/") ≡ false → join dir path ≡ join dir [] ++ path
unfolding join starts_with
join-relative dir path h = elim (Bool-cases (ends_with_slash dir)) [
  | inl slash ↦ rw (h, slash) (sym (append_assoc dir [] path))
  | inr none_there ↦ rw (h, none_there) (sym (append_assoc dir (47 ∷ []) path))
]

-- A name that can be one component of a path and nothing else.
pub record IsPlain (t : Text) : Type 0 where
  pub not_empty : 0 < length t
  pub no_slash : All (λ c. c ≢ 47) t
  pub not_here : t ≢ codes "."
  pub not_up : t ≢ codes ".."

safe-no_slash : (t : Text) → All (λ c. is_safe c ≡ true) t → All (λ c. c ≢ 47) t
safe-no_slash [] h = tt
safe-no_slash (c ∷ t) h = (ground (arith, h.0), safe-no_slash t h.1)

IsComponent-IsPlain : (t : Text) → IsComponent t → IsPlain t
IsComponent-IsPlain t i = record {
  not_empty = IsComponent-pos t i;
  no_slash = safe-no_slash t i.safe;
  not_here = λ e. ground (arith, i.kept, (==_iff t (codes ".")).1 e);
  not_up = λ e. ground (arith, i.kept, (==_iff t (codes "..")).1 e);
}

-- Whatever the grammar and the language of a key are called, if its hash is a byte string that is
-- not empty, its file lies three components below the directory of the cache, none of which is
-- empty, holds a slash, or is `.` or `..`.
pub disk_path-IsPlain :
    (dir : Text) (k : CacheKey)
    → 0 < length k.hash
    → AreBytes k.hash
    → (disk_path (open_cache dir) k
        ≡ some (
            join dir []
            ++ (sanitize_component k.grammar
                ++ 47 ∷ (sanitize_component k.language ++ 47 ∷ hex_lower k.hash))))
      × IsPlain (sanitize_component k.grammar)
      × IsPlain (sanitize_component k.language)
      × IsPlain (hex_lower k.hash)
unfolding disk_path
disk_path-IsPlain dir k pos bytes =
    let g = sanitize_component-IsComponent k.grammar in
    let h = hash-IsComponent k pos bytes in
    (
      rw (rel_path_lem k h) (
          ap some
            (join-relative dir _ (starts_with_slash-append (sanitize_component k.grammar) _ g))),
      IsComponent-IsPlain (sanitize_component k.grammar) g,
      IsComponent-IsPlain (sanitize_component k.language)
          (sanitize_component-IsComponent k.language),
      IsComponent-IsPlain (hex_lower k.hash) h,
    )
