-- ===== src/TypesCache/Store.antt =====
-- What the store keeps (progressive-lsp-types-cache/src/store.rs).
use progressive_lsp.Base.{ℕ, ◌≡◌, refl, some, if◌then◌else◌, ltb, nat_eq}
use progressive_lsp.Base.Map.{get-keep_found}
use progressive_lsp.TypesCache.{
  TypesCacheKey, TypesCacheEntry, key_eq, TypesCacheStore, lookup, bump_engine_generation,
  survives_bump,
}

-- An answer that was stored under engine generation 0 survives each change of the engine
-- generation.
bump_engine_generation-keeps :
    (store : TypesCacheStore) (key : TypesCacheKey) (entry : TypesCacheEntry) (generation : ℕ)
    → lookup key store ≡ some entry
    → entry.engine_generation ≡ 0
    → lookup key (bump_engine_generation generation store) ≡ some entry
unfolding lookup bump_engine_generation
bump_engine_generation-keeps store key entry generation found zero_gen =
    get-keep_found
      (survives_bump
        (if ltb store.engine_generation generation then generation else store.engine_generation))
      key entry store.entries found (rw zero_gen refl)
