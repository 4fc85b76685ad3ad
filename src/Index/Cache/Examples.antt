-- ===== src/Index/Cache/Examples.antt =====
-- A cache on a disk that is a map of paths (progressive-lsp-index/src/cache.rs).
use progressive_lsp.Base.{◌≡◌, ◌↔◌, refl, [], ◌∷◌, ◌++◌, true, some, arith, Text, text_eq, codes}
use progressive_lsp.Base.Bytes.{Bytes, to_le_bytes}
use progressive_lsp.Base.Texts.{starts_with, contains_text}
use progressive_lsp.Base.Map
use progressive_lsp.Base.Map.{Map}
use progressive_lsp.Index.Cache.{
  CacheKey, DiskPort, open_cache, join, rel_path, disk_path, cache_record, remember, get,
  sanitize_component, hex_lower,
}
use progressive_lsp.Index.Cache.Paths.{IsPlain, disk_path-IsPlain}
use progressive_lsp.Index.Cache.Distinct.{SameNames, rel_path_iff}
use progressive_lsp.Index.Cache.Records.{get-remember}

abbrev memory_disk : DiskPort
memory_disk = record {
  Files = Map Text Bytes;
  create_parents = λ files path. (files, true);
  write = λ files path bytes. (Map.insert path bytes files, true);
  read = λ files path. Map.get path files;
}

abbrev key : CacheKey
key = record { grammar = codes "v1"; language = codes "c"; hash = 1 ∷ 171 ∷ [] }

get-remember_example :
    (let files = Map.insert (codes "/p/v1/c/01ab") (cache_record 7) [] in
      ((remember memory_disk [] key 7 (open_cache (codes "/p"))).0 ≡ files)
      × (get memory_disk files key (remember memory_disk [] key 7 (open_cache (codes "/p"))).1
          ≡ some 7)
      × (get memory_disk files key (open_cache (codes "/p")) ≡ some 7))
unfolding join rel_path sanitize_component hex_lower starts_with contains_text Map.insert Map.get
    to_le_bytes
get-remember_example =
    get-remember memory_disk [] [] (Map.insert (codes "/p/v1/c/01ab") (cache_record 7) [])
      (codes "/p") (open_cache (codes "/p")) key 7 (omega arith) refl refl refl refl

-- A language that leads upwards has its record in the directory all the same.
abbrev outside : CacheKey
outside = record { grammar = codes "a/b"; language = codes ".."; hash = 1 ∷ [] }

disk_path-IsPlain_example :
    (disk_path (open_cache (codes "/p")) outside
      ≡ some (
          join (codes "/p") []
          ++ (sanitize_component (codes "a/b")
              ++ 47 ∷ (sanitize_component (codes "..") ++ 47 ∷ hex_lower (1 ∷ [])))))
    × IsPlain (sanitize_component (codes "a/b"))
    × IsPlain (sanitize_component (codes ".."))
    × IsPlain (hex_lower (1 ∷ []))
disk_path-IsPlain_example = disk_path-IsPlain (codes "/p") outside (omega arith) (omega arith, tt)

abbrev renamed : CacheKey
renamed = record { grammar = codes "a b"; language = codes ".."; hash = 1 ∷ [] }

rel_path_iff_example : (rel_path outside ≡ rel_path renamed) ↔ SameNames outside renamed
rel_path_iff_example =
    rel_path_iff outside renamed (omega arith) (omega arith) (omega arith, tt) (omega arith, tt)
