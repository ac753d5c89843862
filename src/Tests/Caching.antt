-- ===== src/Tests/Caching.antt =====
-- cache_get and cache_write_to_disk (filesys/cache.c) on a cache with one dirty block.
use os_326_omega.Prelude.{ℕ, ◌≡◌, refl, true, false, arith, some, length, [], ◌∷◌}
use os_326_omega.Sector.{zeros}
use os_326_omega.Cache.{Block, Cache, cache_get, cache_write_to_disk}
use os_326_omega.Cache.Get.{IsCache, Got, cache_get-Got}
use os_326_omega.Cache.Flush.{cache_write_to_disk-content}

abbrev block : Block
block = record { sector_no = 7; access = true; dirty = true; contents = λ o. o }

abbrev cache : Cache
cache = record { blocks = block ∷ []; disk = λ p. zeros }

cache-IsCache : IsCache cache
cache-IsCache = record {
  coherent = (λ clean. absurd (ground arith), refl, tt);
  bound = omega arith;
}

cache_get-Got_example :
    (r : ℕ × Cache) × (cache_get (some block) cache 9 false ≡ some r) × Got cache 9 r
cache_get-Got_example = cache_get-Got block cache 9 false cache-IsCache

cache_write_to_disk-content_example :
    ((cache_write_to_disk true cache).disk 7 ≡ (λ o. o))
    × (length (cache_write_to_disk true cache).blocks ≡ 0)
cache_write_to_disk-content_example = cache_write_to_disk-content true cache 7 cache-IsCache
