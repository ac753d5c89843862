-- ===== src/Palloc.antt =====
-- threads/palloc.c of prj3: the page allocator. A page is named by its page number, the address
-- divided by PGSIZE; a null pointer is `none`. The locks of the pools are left out.
pub mod Laws
use os_326_omega.Prelude.{
  ℕ, ◌+◌, ◌-◌, Bool, true, false, not, ◌&&◌, ◌==◌, if◌then◌else◌, leb, ltb, Option, some, none,
}
use os_326_omega.Prelude.Panic.{◌>>=◌, ◌>>◌, assert}
use os_326_omega.Bitmap.{
  Bitmap, bitmap_error, bitmap_scan_and_flip, bitmap_set_multiple, bitmap_all, bitmap_size,
}

abbrev pub pgsize : ℕ
pgsize = 4096

-- The bytes of a page, for offsets below PGSIZE.
abbrev pub Page : Type 0
Page = ℕ → ℕ

-- enum palloc_flags, one field for each bit
pub record Flags : Type 0 where
  pub pal_assert : Bool
  pub pal_zero : Bool
  pub pal_user : Bool

-- struct pool
pub record Pool : Type 0 where
  pub used_map : Bitmap
  pub base : ℕ

-- the two pools and the pages of memory
pub record Memory : Type 0 where
  pub kernel_pool : Pool
  pub user_pool : Pool
  pub page : ℕ → Page

abbrev pub pool_of : Memory → Bool → Pool
pool_of m user = if user then m.user_pool else m.kernel_pool

abbrev pub set_used_map : Memory → Bool → Bitmap → Memory
set_used_map m true b = record m { user_pool = record (m.user_pool) { used_map = b } }
set_used_map m false b = record m { kernel_pool = record (m.kernel_pool) { used_map = b } }

-- memset of `cnt` pages from `start` on
abbrev pub memset : (ℕ → Page) → ℕ → ℕ → ℕ → ℕ → Page
memset page start cnt value p = if leb start p && ltb p (start + cnt) then (λ o. value) else page p

unfoldable pub palloc_get_multiple : Memory → Flags → ℕ → Option (Option ℕ × Memory)
palloc_get_multiple m flags page_cnt =
    let pool = pool_of m flags.pal_user in
    let get = bitmap_scan_and_flip pool.used_map 0 page_cnt false >>= λ found.
    let m' = set_used_map m flags.pal_user found.1 in
    let pages = pool.base + found.0 in
    let zeroed =
      if flags.pal_zero then record m' { page = memset m.page pages page_cnt 0 } else m' in
    let missing = if flags.pal_assert then none else some (none, m') in
    if not (found.0 == bitmap_error) then some (some pages, zeroed) else missing in
    if page_cnt == 0 then some (none, m) else get

unfoldable pub palloc_get_page : Memory → Flags → Option (Option ℕ × Memory)
palloc_get_page m flags = palloc_get_multiple m flags 1

unfoldable pub page_from_pool : Pool → ℕ → Bool
page_from_pool pool page = leb pool.base page && ltb page (pool.base + bitmap_size pool.used_map)

-- the pages given back to the pool `user`
unfoldable pub free_in_pool : Memory → Bool → ℕ → ℕ → Option Memory
free_in_pool m user pages page_cnt = do
  let pool = pool_of m user
  let page_idx = pages - pool.base
  used ← bitmap_all pool.used_map page_idx page_cnt
  assert used
  b ← bitmap_set_multiple pool.used_map page_idx page_cnt false
  some (record (set_used_map m user b) { page = memset m.page pages page_cnt 0xcc })

unfoldable pub palloc_free_multiple : Memory → Option ℕ → ℕ → Option Memory
unfolding page_from_pool free_in_pool
palloc_free_multiple m none page_cnt = some m
palloc_free_multiple m (some pages) page_cnt =
    if page_cnt == 0
    then some m
    else if page_from_pool m.kernel_pool pages
    then free_in_pool m false pages page_cnt
    else if page_from_pool m.user_pool pages
    then free_in_pool m true pages page_cnt
    else none

unfoldable pub palloc_free_page : Memory → Option ℕ → Option Memory
palloc_free_page m page = palloc_free_multiple m page 1
