-- ===== src/Index/Cache/Records.antt =====
-- The records of the cache through the disk (progressive-lsp-index/src/cache.rs).
use progressive_lsp.Base.{
  ℕ, ◌<◌, ◌^◌, ◌≡◌, ap, ◌∙◌, true, none, some, arith, Text, ==_refl, nat_eq, list_eq, length,
  length-take, take,
}
use progressive_lsp.Base.Bytes.{Bytes, to_le_bytes, from_le_bytes, from-to_le_bytes}
use progressive_lsp.Base.Map
use progressive_lsp.Base.Map.{get-insert}
use progressive_lsp.Index.Cache.{
  CacheKey, key_eq, join, rel_path, DiskPort, IndexCache, open_cache, disk_path, cache_record,
  parse_cache_record, write_disk, remember, get,
}

parse-cache_record : (g : ℕ) → g < 2 ^ 64 → parse_cache_record (cache_record g) ≡ some g
unfolding parse_cache_record to_le_bytes from_le_bytes
parse-cache_record g h = ap some (from-to_le_bytes 8 g h)

parse_cache_record_short : (bytes : Bytes) → length bytes < 12 → parse_cache_record bytes ≡ none
unfolding parse_cache_record
parse_cache_record_short bytes h = ground arith

module _ (disk : DiskPort) where
  read_disk_at :
      (files : disk.Files) (dir : Text) (k : CacheKey) (bytes : Bytes)
      → disk.read files (join dir (rel_path k)) ≡ some bytes
      → get disk files k (open_cache dir) ≡ parse_cache_record bytes
  unfolding get disk_path Map.get
  read_disk_at files dir k bytes reads = ground (arith, reads)

-- If the directories and the file of a key can be written, and the file is afterwards what was
-- written, a 64-bit generation that is remembered under the key is found again, by the cache
-- itself and by a new cache of the same directory.
pub get-remember :
    (disk : DiskPort) (files files' files'' : disk.Files) (dir : Text) (c : IndexCache)
    (k : CacheKey) (g : ℕ)
    → g < 2 ^ 64
    → c.disk_dir ≡ some dir
    → disk.create_parents files (join dir (rel_path k)) ≡ (files', true)
    → disk.write files' (join dir (rel_path k)) (cache_record g) ≡ (files'', true)
    → disk.read files'' (join dir (rel_path k)) ≡ some (cache_record g)
    → ((remember disk files k g c).0 ≡ files'')
      × (get disk files'' k (remember disk files k g c).1 ≡ some g)
      × (get disk files'' k (open_cache dir) ≡ some g)
unfolding remember write_disk disk_path get
get-remember disk files files' files'' dir c k g fits at_dir creates writes reads = (
  ground (arith, at_dir, creates, writes),
  ground (arith, get-insert k k g c.hits, ==_refl k),
  read_disk_at disk files'' dir k (cache_record g) reads ∙ parse-cache_record g fits,
)

get_cut :
    (disk : DiskPort) (files : disk.Files) (dir : Text) (k : CacheKey) (g n : ℕ)
    → n < 12
    → disk.read files (join dir (rel_path k)) ≡ some (take n (cache_record g))
    → get disk files k (open_cache dir) ≡ none
get_cut disk files dir k g n short reads =
    read_disk_at disk files dir k (take n (cache_record g)) reads
    ∙ parse_cache_record_short (take n (cache_record g))
        (omega (arith, length-take n (cache_record g)))
