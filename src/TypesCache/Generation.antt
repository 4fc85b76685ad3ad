-- ===== src/TypesCache/Generation.antt =====
-- Which generation a file has for the cache (progressive-lsp-types-cache/src/port.rs).
use progressive_lsp.Base.{ℕ, ◌≡◌, refl, Option, none, some, Text}
use progressive_lsp.Index.{IndexService, generation_of}
use progressive_lsp.TypesCache.{file_generation, or_generation}

-- The generation of a file: that of its last batch, or else the count of the index.
abbrev pub live_generation : IndexService → Text → ℕ
live_generation idx file = elim (generation_of file idx.dirty) [
  | none ↦ idx.generation
  | some g ↦ g
]

pub file_generation-eq_live :
    (idx : IndexService) (file : Text) → file_generation idx file ≡ live_generation idx file
unfolding file_generation
file_generation-eq_live idx file = by_cases (generation_of file idx.dirty)
  where
    by_cases :
        (o : Option ℕ)
        → or_generation o idx.generation ≡ elim o as (λ _. ℕ) [ none ↦ idx.generation | some g ↦ g ]
    by_cases none = refl
    by_cases (some g) = refl
