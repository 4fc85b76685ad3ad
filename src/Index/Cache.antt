-- ===== src/Index/Cache.antt =====
-- progressive-lsp-index/src/cache.rs: the records of indexed contents, in memory and on disk. The disk
-- is an argument. Log lines are left out, and of the digest of a file only its bytes are read.
pub mod Paths
pub mod Records
pub mod Distinct
mod Examples
use progressive_lsp.Base.{
  ℕ, ◌+◌, ◌/◌, ◌%◌, [], ◌∷◌, ◌++◌, List, map, Bool, true, false, ◌&&◌, ◌||◌, Option, none, some,
  Text, text_eq, nat_eq, list_eq, pair_eq, PartialEq, eq_by, codes, if◌then◌else◌, ltb, leb, ◌==◌,
  length, take, drop, Result, ok, err, refl,
}
use progressive_lsp.Base.Bytes.{Bytes, to_le_bytes, from_le_bytes}
use progressive_lsp.Base.Texts.{starts_with, contains_text}
use progressive_lsp.Base.Map
use progressive_lsp.Base.Map.{Map}

-- `PLI1`
abbrev pub magic : Bytes
magic = 80 ∷ 76 ∷ 73 ∷ 49 ∷ []

pub record CacheKey : Type 0 where
  pub grammar : Text
  pub language : Text
  pub hash : Bytes

-- The derived `PartialEq`.
abbrev key_parts : CacheKey → Text × (Text × Bytes)
key_parts k = (k.grammar, (k.language, k.hash))

abbrev key_of : Text × (Text × Bytes) → CacheKey
key_of p = record { grammar = p.0; language = p.1.0; hash = p.1.1 }

instance abbrev pub key_eq : PartialEq CacheKey
key_eq = eq_by key_parts key_of (λ k. refl)

abbrev pub hex_digit : ℕ → ℕ
hex_digit n = if ltb n 10 then 48 + n else 87 + n

unfoldable pub hex_lower : Bytes → Text
hex_lower [] = []
hex_lower (b ∷ bytes) = hex_digit (b / 16) ∷ hex_digit (b % 16) ∷ hex_lower bytes

abbrev pub is_safe : ℕ → Bool
is_safe c =
    (leb 48 c && leb c 57)
    || ((leb 65 c && leb c 90) || ((leb 97 c && leb c 122) || (c == 45 || (c == 95 || c == 46))))

abbrev pub is_empty : Text → Bool
is_empty [] = true
is_empty (c ∷ s) = false

abbrev pub replaced : Text → Text
replaced s = map (λ c. if is_safe c then c else 95) s

abbrev pub is_rejected : Text → Bool
is_rejected s = is_empty s || (s == codes "." || (s == codes ".." || contains_text s (codes "..")))

unfoldable pub sanitize_component : Text → Text
sanitize_component s = if is_rejected (replaced s) then codes "_" else replaced s

-- `Path::join`
abbrev pub ends_with_slash : Text → Bool
ends_with_slash [] = true
ends_with_slash (c ∷ []) = c == 47
ends_with_slash (c ∷ d ∷ s) = ends_with_slash (d ∷ s)

unfoldable pub join : Text → Text → Text
join path component =
    if starts_with component (codes "/")
    then component
    else if ends_with_slash path
    then path ++ component
    else path ++ 47 ∷ component

unfoldable pub rel_path : CacheKey → Text
rel_path k =
    join (join (sanitize_component k.grammar) (sanitize_component k.language)) (hex_lower k.hash)

-- The file system, as far as the cache uses it: a call that fails may leave other files.
pub record DiskPort : Type 1 where
  pub Files : Type 0
  pub create_parents : Files → Text → Files × Bool
  pub write : Files → Text → Bytes → Files × Bool
  pub read : Files → Text → Option Bytes

pub record IndexCache : Type 0 where
  pub hits : Map CacheKey ℕ
  pub disk_dir : Option Text

abbrev pub new_cache : IndexCache
new_cache = record { hits = []; disk_dir = none }

abbrev pub open_cache : Text → IndexCache
open_cache dir = record { hits = []; disk_dir = some dir }

unfoldable pub disk_path : IndexCache → CacheKey → Option Text
disk_path c k = elim c.disk_dir [ none ↦ none | some dir ↦ some (join dir (rel_path k)) ]

-- What is written: the magic, and the generation in eight bytes.
abbrev pub cache_record : ℕ → Bytes
cache_record generation = magic ++ to_le_bytes 8 generation

unfoldable pub parse_cache_record : Bytes → Option ℕ
parse_cache_record bytes =
    if ltb (length bytes) 12
    then none
    else if take 4 bytes == magic
    then some (from_le_bytes (take 8 (drop 4 bytes)))
    else none

module _ (disk : DiskPort) where
  open disk use {Files, create_parents, write, read}

  unfoldable pub write_disk : Files → IndexCache → CacheKey → ℕ → Files
  write_disk files c k generation = elim (disk_path c k) [
    | none ↦ files
    | some path ↦
        let (files', created) = create_parents files path in
        if created then (write files' path (cache_record generation)).0 else files'
  ]

  unfoldable pub read_disk : Files → IndexCache → CacheKey → Option ℕ
  read_disk files c k = elim (disk_path c k) [
    | none ↦ none
    | some path ↦ elim (read files path) [ none ↦ none | some bytes ↦ parse_cache_record bytes ]
  ]

  -- The cache and the files after a record.
  unfoldable pub remember : Files → CacheKey → ℕ → IndexCache → Files × IndexCache
  unfolding write_disk
  remember files k generation c =
      (write_disk files c k generation, record c { hits = Map.insert k generation c.hits })

  unfoldable pub get : Files → CacheKey → IndexCache → Option ℕ
  unfolding read_disk
  get files k c = elim (Map.get k c.hits) [ some g ↦ some g | none ↦ read_disk files c k ]
