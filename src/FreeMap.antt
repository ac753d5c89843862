-- ===== src/FreeMap.antt =====
-- filesys/free-map.c of prj4: the free map, one bit per sector of the file system device.
-- Bits are kept by the bitmap of lib/kernel/bitmap.c. What the file layer does with the free map
-- file enters as arguments: the bytes that file_write_at writes, and what file_read_at reads.
pub mod Laws
use os_326_omega.Prelude.{ℕ, Bool, true, false, not, ◌&&◌, ◌==◌, if◌then◌else◌, List, Option, some}
use os_326_omega.Prelude.Panic.{◌>>=◌, ◌>>◌, assert}
use os_326_omega.Bitmap.{
  Bitmap, bitmap_error, bitmap_scan_and_flip, bitmap_set_multiple, bitmap_write, bitmap_read,
  bitmap_all, bitmap_mark, bitmap_create,
}

-- the two static variables; `opened` says that free_map_file is not NULL
pub record FreeMap : Type 0 where
  pub map : Bitmap
  pub opened : Bool

-- how many bytes file_write_at writes of the elements it is given
abbrev pub Writer : Type 0
Writer = List ℕ → ℕ → ℕ

abbrev pub free_map_sector : ℕ
free_map_sector = 0

abbrev pub root_dir_sector : ℕ
root_dir_sector = 1

-- `block` and `elems` are what malloc returns to bitmap_create; `size` is block_size (fs_device).
unfoldable pub free_map_init : Bool → Option (List ℕ) → ℕ → Option FreeMap
free_map_init block elems size = do
  created ← bitmap_create block elems size
  b ← created
  some
      (record { map = bitmap_mark (bitmap_mark b free_map_sector) root_dir_sector; opened = false })

module _ (file_write_at : Writer) where
  -- The result, what *SECTORP holds afterwards (`sectorp` before), and the new map.
  unfoldable pub free_map_allocate : FreeMap → ℕ → ℕ → Option (Bool × ℕ × FreeMap)
  free_map_allocate m cnt sectorp = do
    (sector, b) ← bitmap_scan_and_flip m.map 0 cnt false
    if not (sector == bitmap_error) && m.opened && not (bitmap_write b file_write_at)
        then (bitmap_set_multiple b sector cnt false >>= λ b'.
            some (false, sectorp, record m { map = b' }))
        else some (
          not (sector == bitmap_error),
          (if sector == bitmap_error then sectorp else sector),
          record m { map = b },
        )

-- The result of the last bitmap_write is not looked at.
unfoldable pub free_map_release : FreeMap → ℕ → ℕ → Option FreeMap
free_map_release m sector cnt = do
  used ← bitmap_all m.map sector cnt
  assert used
  b ← bitmap_set_multiple m.map sector cnt false
  some (record m { map = b })

-- `opened` says that the free map file was opened.
unfoldable pub free_map_open : FreeMap → Bool → (ℕ → List ℕ × ℕ) → Option FreeMap
free_map_open m opened file_read_at = do
  assert opened
  let (success, b) = bitmap_read m.map file_read_at
  assert success
  some (record { map = b; opened = true })

-- `created` and `opened` say that the free map's inode was created and its file opened.
unfoldable pub free_map_create : Writer → FreeMap → Bool → Bool → Option FreeMap
free_map_create file_write_at m created opened = do
  assert created
  assert opened
  assert (bitmap_write m.map file_write_at)
  some (record m { opened = true })
