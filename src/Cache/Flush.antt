-- ===== src/Cache/Flush.antt =====
-- cache_write_to_disk of filesys/cache.c (prj4).
use os_326_omega.Prelude.{
  ℕ, suc, ◌≡◌, refl, ◌∙◌, Bool, true, false, arith, if◌then◌else◌, ap, List, length, [], ◌∷◌,
}
use os_326_omega.Cache.{Block, Cache, write_back, flush_loop, cache_write_to_disk}
use os_326_omega.Cache.View.{
  Disk, content, IsCoherent, content-same_disk, content-not_cached, after, after-at, after-else,
  IsCoherent-replace_rest,
}
use os_326_omega.Cache.Get.{IsCache}

length-flush :
    (done : Bool) (bs : List Block) (d : Disk)
    → length (flush_loop done bs d).0 ≡ (if done then 0 else length bs)
unfolding flush_loop
length-flush true [] d = refl
length-flush true (b ∷ bs) d = length-flush true bs _
length-flush false [] d = refl
length-flush false (b ∷ bs) d = ap suc (length-flush false bs _)

-- the disk after a flush holds what readers of the cache saw before
flush-content :
    (done : Bool) (bs : List Block) (d : Disk) (q : ℕ)
    → IsCoherent bs d
    → (flush_loop done bs d).1 q ≡ content bs d q
unfolding flush_loop after write_back
flush-content done [] d q k = refl
flush-content done (b ∷ bs) d q k =
    let d₁ : Disk = after 0 false d b k.0 in
    let rest = flush-content done bs d₁ q (IsCoherent-replace_rest 0 false d b k.0 bs k.2 k.1) in
    rest
    ∙ ground (
      arith,
      k.1,
      after-at 0 false d b k.0,
      after-else 0 false d b k.0 q,
      content-not_cached bs d₁ q,
      content-same_disk bs d d₁ q,
    )

-- cache_write_to_disk leaves on the disk what readers of the cache saw of every sector. With `done`
-- it empties the cache; without it every block stays.
pub cache_write_to_disk-content :
    (done : Bool) (c : Cache) (q : ℕ)
    → IsCache c
    → ((cache_write_to_disk done c).disk q ≡ content c.blocks c.disk q)
      × (length (cache_write_to_disk done c).blocks ≡ (if done then 0 else length c.blocks))
unfolding cache_write_to_disk
cache_write_to_disk-content done c q v =
    (flush-content done c.blocks c.disk q v.coherent, length-flush done c.blocks c.disk)
