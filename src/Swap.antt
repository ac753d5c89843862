-- ===== src/Swap.antt =====
-- vm/swap.c of prj3: the swap partition, one bit of the bitmap for each slot of eight sectors. The
-- lock is left out, and the partition and its bitmap exist.
pub mod Laws
use os_326_omega.Prelude.{
  ℕ, zero, suc, ◌+◌, ◌*◌, ◌/◌, ◌-◌, Bool, false, not, ◌&&◌, ◌==◌, if◌then◌else◌, leb, ltb, List,
  Option, some, none,
}
use os_326_omega.Prelude.Panic.{◌>>=◌, ◌>>◌, assert}
use os_326_omega.Sector.{Sector}
use os_326_omega.Bitmap.{
  Bitmap, bitmap_error, bitmap_create, bitmap_set_all, bitmap_scan_and_flip, bitmap_test,
  bitmap_flip,
}
use os_326_omega.Palloc.{Page}

abbrev pub sectors_per_page : ℕ
sectors_per_page = 8

-- swap_bitmap, and the sectors of swap_block
pub record Swap : Type 0 where
  pub swap_bitmap : Bitmap
  pub swap_block : ℕ → Sector

-- `block` and `elems` are what malloc returns to bitmap_create; `size` is block_size (swap_block).
unfoldable pub swap_init : Bool → Option (List ℕ) → ℕ → Option (Option Bitmap)
swap_init block elems size = do
  created ← bitmap_create block elems (size / sectors_per_page)
  elim created [
    | none ↦ some none
    | some b ↦ bitmap_set_all b false >>= λ cleared. some (some cleared)
  ]

-- `n` sectors, from number `i` of the page on, are written to the slot.
unfoldable pub write_sectors : ℕ → ℕ → (ℕ → Sector) → ℕ → Page → ℕ → Sector
write_sectors zero i block slot frame = block
write_sectors (suc n) i block slot frame =
    write_sectors n (i + 1)
      (λ q. if q == slot * sectors_per_page + i then (λ o. frame (i * 512 + o)) else block q) slot
      frame

-- The result is the slot. No free slot is a panic.
unfoldable pub swap_out : Swap → Page → Option (ℕ × Swap)
unfolding write_sectors
swap_out s frame = do
  (free_index, b) ← bitmap_scan_and_flip s.swap_bitmap 0 1 false
  assert (not (free_index == bitmap_error))
  some (
    free_index,
    record {
      swap_bitmap = b;
      swap_block = write_sectors sectors_per_page 0 s.swap_block free_index frame;
    },
  )

-- `n` sectors, from number `i` of the page on, are read from the slot.
unfoldable pub read_sectors : ℕ → ℕ → (ℕ → Sector) → ℕ → Page → Page
read_sectors zero i block slot frame = frame
read_sectors (suc n) i block slot frame = read_sectors n (i + 1) block slot (λ o.
    if leb (i * 512) o && ltb o (i * 512 + 512)
    then block (slot * sectors_per_page + i) (o - i * 512)
    else frame o)

-- What the page holds afterwards. A slot that is not in use is a panic.
unfoldable pub swap_in : Swap → ℕ → Page → Option (Page × Swap)
unfolding read_sectors
swap_in s used_index frame = do
  used ← bitmap_test s.swap_bitmap used_index
  assert used
  some (
    read_sectors sectors_per_page 0 s.swap_block used_index frame,
    record s { swap_bitmap = bitmap_flip s.swap_bitmap used_index },
  )
