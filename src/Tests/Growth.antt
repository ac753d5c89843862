-- ===== src/Tests/Growth.antt =====
-- inode_expand (filesys/inode.c) on a device of 40 sectors.
use os_326_omega.Prelude.{
  ℕ, zero, suc, ◌+◌, ◌-◌, ◌*◌, ◌^◌, ◌<◌, ◌≡◌, refl, inl, false, arith, some, get_or, [], ◌∷◌,
}
use os_326_omega.Sector.{Words, zeros}
use os_326_omega.Bitmap.{Bitmap}
use os_326_omega.Bitmap.View.{IsValid}
use os_326_omega.FreeMap.{Writer}
use os_326_omega.Store.{Store}
use os_326_omega.Bits.{bit}
use os_326_omega.Device.{Device, device_store, HasRoom, free_cnt}
use os_326_omega.Inode.Grow.Count.{Reach, clear-Reach}
use os_326_omega.Inode.{Inode, bytes_to_data_sectors, max_file_size}
use os_326_omega.Inode.Grow.{inode_expand}
use os_326_omega.Inode.Grow.Capacity.{
  IsSized, Expanded, inode_expand-Expanded, inode_expand-IsSized, inode_expand-shrinks,
}

abbrev bitmap : Bitmap
bitmap = record { bit_cnt = 40; bits = 3 ∷ 0 ∷ [] }

words-small : (i : ℕ) → get_or (3 ∷ 0 ∷ []) i 0 < 2 ^ 32
words-small zero = omega arith
words-small (suc zero) = omega arith
words-small (suc (suc i)) = omega arith

bitmap-IsValid : IsValid bitmap
bitmap-IsValid = record { small = omega arith; room = omega arith; words = words-small }

abbrev device : Device
device = record { free_map = record { map = bitmap; opened = false }; sectors = λ p. zeros }

abbrev writes_all : Writer
writes_all bits size = size

abbrev junk : Words
junk i = 0

-- a file of 600 bytes, in two sectors
abbrev small_file : Inode
small_file = record {
  sector = 5;
  open_cnt = 1;
  removed = false;
  deny_write_cnt = 0;
  length = 600;
  read_length = 600;
  direct_index = 2;
  indirect_index = 0;
  double_indirect_index = 0;
  isdir = false;
  parent = 1;
  ptr = λ i. i + 2;
}

-- the largest file
abbrev large_file : Inode
large_file = record small_file {
  length = max_file_size;
  direct_index = 13;
  indirect_index = 128;
  double_indirect_index = 0;
}

small_file-IsSized : IsSized small_file
unfolding bytes_to_data_sectors
small_file-IsSized = record { indexed = ground arith; counted = refl }

large_file-IsSized : IsSized large_file
unfolding bytes_to_data_sectors
large_file-IsSized = record { indexed = ground arith; counted = refl }

room : HasRoom writes_all 40 device 21
unfolding free_cnt bit
room = record { valid = bitmap-IsValid; same_size = refl; room = omega arith; complete = inl refl }

room_for_one : HasRoom writes_all 40 device 3
unfolding free_cnt bit
room_for_one = record {
  valid = bitmap-IsValid;
  same_size = refl;
  room = omega arith;
  complete = inl refl;
}

abbrev store : Store
store = device_store writes_all 40

small_room :
    Store.IsOk store device (2 * (bytes_to_data_sectors 5000 - bytes_to_data_sectors 600) + 1)
unfolding bytes_to_data_sectors
small_room = Store.IsOk-le store device 21 _ (omega arith) room

large_room :
    Store.IsOk store device
      (2 * (bytes_to_data_sectors 8980580 - bytes_to_data_sectors max_file_size) + 1)
unfolding bytes_to_data_sectors
large_room = room_for_one

small-Reach : Reach store device small_file
small-Reach = clear-Reach store device small_file refl refl

large-Reach : Reach store device large_file
large-Reach = record { pointer = λ h. refl; inner = λ h. absurd (ground arith) }

inode_expand-Expanded_example :
    (r : ℕ × Device × Inode) × (inode_expand
        (device_store writes_all 40)
        junk
        device
        small_file
        5000
      ≡ some r)
    × Expanded (device_store writes_all 40) junk small_file 5000 r
inode_expand-Expanded_example =
    inode_expand-Expanded (device_store writes_all 40) junk device small_file 5000 small_room
      small-Reach small_file-IsSized (omega arith) (omega arith)

inode_expand-IsSized_example :
    (r : ℕ × Device × Inode) × (inode_expand
        (device_store writes_all 40)
        junk
        device
        small_file
        5000
      ≡ some r)
    × (r.0 ≡ 5000)
    × IsSized (record (r.2) { length = r.0 })
inode_expand-IsSized_example =
    inode_expand-IsSized (device_store writes_all 40) junk device small_file 5000 small_room
      small-Reach small_file-IsSized (omega arith) (omega arith) (omega arith)

inode_expand-shrinks_example :
    (r : ℕ × Device × Inode) × (inode_expand
        (device_store writes_all 40)
        junk
        device
        large_file
        8980580
      ≡ some r)
    × (r.0 < max_file_size)
inode_expand-shrinks_example =
    inode_expand-shrinks (device_store writes_all 40) junk device large_file 8980580 large_room
      large-Reach large_file-IsSized (omega arith) (omega arith) (omega arith) (omega arith)
