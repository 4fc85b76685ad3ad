-- ===== src/Index/Priority/Order.antt =====
-- The order that PriorityIndex::order gives to dirty paths (progressive-lsp-index/src/priority.rs).
use progressive_lsp.Base.{
  ℕ, zero, suc, ◌+◌, ◌≤◌, ◌<◌, ◌≡◌, refl, sym, ap, ◌∙◌, Bool, true, false, ◌&&◌, not, List, [], ◌∷◌,
  ◌++◌, Text, nat_eq, ==_iff, arith, if◌then◌else◌, ◌==◌, keep, contains, All, All-append,
}
use mathlib.Core.Path.{fun_ext}
use mathlib.Core.List.{append-nil, append_assoc}
use native.Mathlib.Decide.{dec_le}
use progressive_lsp.Core.Paths.{path_eq, components}
use progressive_lsp.Index.Priority.{
  IndexClass, open_file, recent, same_package, other, vendor, class_rank, PriorityIndex, is_vendor,
  in_package, classify, insert_by, sort_by_key, order,
}

-- The elements whose key is `n`, those whose key is `n + 1`, and so on for `m` keys.
abbrev buckets : (Text → ℕ) → ℕ → ℕ → List Text → List Text
buckets key n zero xs = []
buckets key n (suc m) xs = keep (λ x. key x == n) xs ++ buckets key (suc n) m xs

module _ (key : Text → ℕ) where
  keep-All :
      (P : Text → Type 0) (n : ℕ) (xs : List Text)
      → ((y : Text) → key y ≡ n → P y)
      → All P (keep (λ x. key x == n) xs)
  keep-All P n [] p = tt
  keep-All P n (x ∷ xs) p = ground (arith, ==_iff (key x) n, keep-All P n xs p, p x)

  buckets-All : (a n m : ℕ) (xs : List Text) → a ≤ n → All (λ y. a ≤ key y) (buckets key n m xs)
  buckets-All a n zero xs h = tt
  buckets-All a n (suc m) xs h =
      All-append (λ y. a ≤ key y) (keep (λ x. key x == n) xs) (buckets key (suc n) m xs)
        (keep-All (λ y. a ≤ key y) n xs (λ y e. omega (arith, e, h)))
        (buckets-All a (suc n) m xs (omega (arith, h)))

  insert_by-passes :
      (path : Text) (front rest : List Text)
      → All (λ y. key y < key path) front
      → insert_by key path (front ++ rest) ≡ front ++ insert_by key path rest
  unfolding insert_by
  insert_by-passes path [] rest a = refl
  insert_by-passes path (x ∷ front) rest a = ground (arith, insert_by-passes path front rest a.1)

  insert_by-front :
      (path : Text) (xs : List Text)
      → All (λ y. key path ≤ key y) xs
      → insert_by key path xs ≡ path ∷ xs
  unfolding insert_by
  insert_by-front path [] a = refl
  insert_by-front path (x ∷ xs) a = ground arith

  -- The buckets behind its own do not hold the path.
  buckets-below :
      (path : Text) (n m : ℕ) (xs : List Text)
      → key path < n
      → buckets key n m (path ∷ xs) ≡ buckets key n m xs
  buckets-below path n zero xs h = refl
  buckets-below path n (suc m) xs h =
      ground (arith, ==_iff (key path) n, buckets-below path (suc n) m xs (omega (arith, h)))

  insert_by-buckets :
      (path : Text) (n m : ℕ) (xs : List Text)
      → n ≤ key path
      → key path < n + m
      → insert_by key path (buckets key n m xs) ≡ buckets key n m (path ∷ xs)
  insert_by-buckets path n zero xs low high = absurd (omega (arith, low, high))
  insert_by-buckets path n (suc m) xs low high = elim (dec_le (key path) n) [
    | yes le ↦
        let here : key path ≡ n = omega (arith, le, low) in
        insert_by-front path (buckets key n (suc m) xs) (buckets-All (key path) n (suc m) xs le)
        ∙ ground (
          arith,
          ==_iff (key path) n,
          here,
          buckets-below path (suc n) m xs (omega (arith, here)),
        )
    | no above ↦
        let past : n < key path = omega (arith, above) in
        insert_by-passes path (keep (λ x. key x == n) xs) (buckets key (suc n) m xs)
          (keep-All (λ y. key y < key path) n xs (λ y e. omega (arith, e, past)))
        ∙ ground (
          arith,
          ==_iff (key path) n,
          past,
          insert_by-buckets path (suc n) m xs (omega (arith, past)) (omega (arith, high)),
        )
  ]

  sort_by_key-buckets :
      (m : ℕ) (xs : List Text) → ((x : Text) → key x < m) → sort_by_key key xs ≡ buckets key 0 m xs
  unfolding sort_by_key
  sort_by_key-buckets m [] h = sym (buckets_nil 0 m)
    where
      buckets_nil : (n j : ℕ) → buckets key n j [] ≡ []
      buckets_nil n zero = refl
      buckets_nil n (suc j) = buckets_nil (suc n) j
  sort_by_key-buckets m (x ∷ xs) h =
      ap (insert_by key x) (sort_by_key-buckets m xs h)
      ∙ insert_by-buckets x 0 m xs (omega arith) (omega (arith, h x))

class_rank-lt : (c : IndexClass) → class_rank c < 5
class_rank-lt open_file = omega arith
class_rank-lt recent = omega arith
class_rank-lt same_package = omega arith
class_rank-lt other = omega arith
class_rank-lt vendor = omega arith

class_of : Bool → Bool → Bool → Bool → IndexClass
class_of v o r n =
    if v
    then vendor
    else if o
    then open_file
    else if r
    then recent
    else if n
    then same_package
    else other

class_of-ranks :
    (v o r n : Bool)
    → let rank = class_rank (class_of v o r n) in
      ((rank == 0) ≡ (not v && o))
      × ((rank == 1) ≡ (not v && not o && r))
      × ((rank == 2) ≡ (not v && not o && not r && n))
      × ((rank == 3) ≡ (not v && not o && not r && not n))
      × ((rank == 4) ≡ v)
unfolding class_of
class_of-ranks true o r n = (refl, refl, refl, refl, refl)
class_of-ranks false true r n = (refl, refl, refl, refl, refl)
class_of-ranks false false true n = (refl, refl, refl, refl, refl)
class_of-ranks false false false true = (refl, refl, refl, refl, refl)
class_of-ranks false false false false = (refl, refl, refl, refl, refl)

-- The tests of a path of which the first that holds decides.
module _ (p : PriorityIndex) where
  abbrev rank : Text → ℕ
  rank path = class_rank (classify p path)

  abbrev pub is_open : Text → Bool
  is_open path = contains p.open_paths (components path)

  abbrev pub is_recent : Text → Bool
  is_recent path = contains p.recent_paths (components path)

  abbrev pub is_near : Text → Bool
  is_near path = in_package p.package_prefix path

-- The dirty paths go out in five runs: the open files, those that are not open but recent, those
-- that are neither but in the package, and the rest, all of them outside the vendor directories,
-- and then the vendored files, open or not. In each run they stand just as they were given.
pub order_lem :
    (p : PriorityIndex) (dirty : List Text)
    → order p dirty
      ≡ keep (λ path. not (is_vendor path) && is_open p path) dirty
        ++ keep (λ path. not (is_vendor path) && not (is_open p path) && is_recent p path) dirty
        ++ keep
            (λ path.
              not (is_vendor path)
              && not (is_open p path)
              && not (is_recent p path)
              && is_near p path)
            dirty
        ++ keep
            (λ path.
              not (is_vendor path)
              && not (is_open p path)
              && not (is_recent p path)
              && not (is_near p path))
            dirty
        ++ keep is_vendor dirty
unfolding order classify class_of
order_lem p dirty =
    let ranks = λ (path : Text).
      class_of-ranks (is_vendor path) (is_open p path) (is_recent p path) (is_near p path) in
    sort_by_key-buckets (rank p) 5 dirty (λ path. class_rank-lt (classify p path))
    ∙ rw
        (
          fun_ext (λ path. (ranks path).0),
          fun_ext (λ path. (ranks path).1),
          fun_ext (λ path. (ranks path).2),
          fun_ext (λ path. (ranks path).3),
          fun_ext (λ path. (ranks path).4),
          append-nil (keep is_vendor dirty),
        )
        (simp append_assoc refl)
