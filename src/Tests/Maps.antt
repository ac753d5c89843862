-- ===== src/Tests/Maps.antt =====
-- Bitmaps and free maps of 40 bits (lib/kernel/bitmap.c, filesys/free-map.c).
use os_326_omega.Prelude.{
  ℕ, zero, suc, ◌^◌, ◌<◌, ◌≡◌, refl, Bool, true, false, arith, some, none, get_or, [], ◌∷◌,
}
use os_326_omega.Bits.{bit}
use os_326_omega.Bitmap.{
  Bitmap, bitmap_mark, bitmap_set_multiple, bitmap_scan, bitmap_scan_and_flip, bitmap_test,
  bitmap_contains, bitmap_set, bitmap_reset, elem_idx, bit_mask,
}
use os_326_omega.Bitmap.View.{IsValid}
use os_326_omega.Bitmap.Multiple.{Sets, bitmap_set_multiple-Sets}
use os_326_omega.Bitmap.Scan.{Flipped, bitmap_scan_and_flip_lem}
use os_326_omega.FreeMap.{FreeMap, Writer, free_map_allocate, free_map_release}
use os_326_omega.FreeMap.Laws.{Outcome, free_map_allocate_lem, free_map_release-free}

-- bits 0, 1 and 3 of 40
abbrev bitmap : Bitmap
bitmap = record { bit_cnt = 40; bits = 11 ∷ 0 ∷ [] }

words-small : (i : ℕ) → get_or (11 ∷ 0 ∷ []) i 0 < 2 ^ 32
words-small zero = omega arith
words-small (suc zero) = omega arith
words-small (suc (suc i)) = omega arith

bitmap-IsValid : IsValid bitmap
bitmap-IsValid = record { small = omega arith; room = omega arith; words = words-small }

scan_and_flip_run :
    bitmap_scan_and_flip bitmap 0 2 false ≡ some (4, record { bit_cnt = 40; bits = 59 ∷ 0 ∷ [] })
unfolding bitmap_scan_and_flip bitmap_scan bitmap_set_multiple bitmap_contains bitmap_test
    bitmap_set bitmap_mark bitmap_reset elem_idx bit_mask
scan_and_flip_run = refl

bitmap_scan_and_flip_lem_example :
    (r : ℕ × Bitmap) × (bitmap_scan_and_flip bitmap 0 2 false ≡ some r)
    × Flipped bitmap 0 2 false r.0 r.1
bitmap_scan_and_flip_lem_example =
    bitmap_scan_and_flip_lem bitmap 0 2 false bitmap-IsValid (omega arith)

bitmap_set_multiple-Sets_example :
    (b : Bitmap) × (bitmap_set_multiple bitmap 30 5 true ≡ some b) × Sets bitmap 30 5 true b
bitmap_set_multiple-Sets_example =
    bitmap_set_multiple-Sets bitmap 30 5 true bitmap-IsValid (omega arith)

abbrev free_map : FreeMap
free_map = record { map = bitmap; opened = false }

abbrev writes_all : Writer
writes_all bits size = size

free_map_allocate_lem_example :
    (r : Bool × ℕ × FreeMap) × (free_map_allocate writes_all free_map 3 0 ≡ some r)
    × Outcome writes_all free_map 3 0 r
free_map_allocate_lem_example = free_map_allocate_lem writes_all free_map 3 0 bitmap-IsValid

abbrev allocated : FreeMap
allocated = record { map = record { bit_cnt = 40; bits = 123 ∷ 0 ∷ [] }; opened = false }

free_map_release-free_example : free_map_release free_map 1 2 ≡ none
unfolding bit
free_map_release-free_example =
    free_map_release-free free_map 1 2 2 bitmap-IsValid (omega arith) (omega arith) (omega arith)
      refl
