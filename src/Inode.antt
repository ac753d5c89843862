-- ===== src/Inode.antt =====
-- filesys/inode.c of prj4: inodes with 4 direct blocks, 9 indirect blocks and one double indirect
-- block. The types, and where the data of a file lies.
pub mod Grow
pub mod Free
pub mod Table
pub mod Read
use os_326_omega.Prelude.{ℕ, ◌+◌, ◌-◌, ◌*◌, ◌/◌, ◌%◌, ◌^◌, Bool, if◌then◌else◌, ltb, leb, length}
use os_326_omega.Prelude.Panic.{◌>>=◌, ◌>>◌, assert}
use os_326_omega.Sector.{Sector, Words, words_of, of_words, block_sector_size}

abbrev pub direct_blocks : ℕ
direct_blocks = 4

abbrev pub indirect_blocks : ℕ
indirect_blocks = 9

abbrev pub double_indirect_blocks : ℕ
double_indirect_blocks = 1

-- INDIRECT_INDEX and DOUBLE_INDIRECT_INDEX: where these pointers start in `ptr`
abbrev pub indirect_start : ℕ
indirect_start = 4

abbrev pub double_indirect_start : ℕ
double_indirect_start = 13

abbrev pub indirect_block_ptrs : ℕ
indirect_block_ptrs = 128

abbrev pub inode_block_ptrs : ℕ
inode_block_ptrs = 14

abbrev pub max_file_size : ℕ
max_file_size = 8980480

abbrev pub inode_magic : ℕ
inode_magic = 0x494e4f44

-- `struct inode` without its list element and its lock
pub record Inode : Type 0 where
  pub sector : ℕ
  pub open_cnt : ℕ
  pub removed : Bool
  pub deny_write_cnt : ℕ
  pub length : ℕ
  pub read_length : ℕ
  pub direct_index : ℕ
  pub indirect_index : ℕ
  pub double_indirect_index : ℕ
  pub isdir : Bool
  pub parent : ℕ
  pub ptr : Words

-- DIV_ROUND_UP (size, step) at sizes that do not overflow
abbrev pub div_round_up : ℕ → ℕ → ℕ
div_round_up size step = (size + step - 1) / step

unfoldable pub bytes_to_data_sectors : ℕ → ℕ
bytes_to_data_sectors size = div_round_up size block_sector_size

unfoldable pub bytes_to_indirect_sectors : ℕ → ℕ
bytes_to_indirect_sectors size =
    if leb size (block_sector_size * direct_blocks)
    then 0
    else div_round_up (size - block_sector_size * direct_blocks)
        (block_sector_size * indirect_block_ptrs)

unfoldable pub bytes_to_double_indirect_sector : ℕ → ℕ
bytes_to_double_indirect_sector size =
    if leb size (block_sector_size * (direct_blocks + indirect_blocks * indirect_block_ptrs))
    then 0
    else double_indirect_blocks

-- (block_sector_t) -1
abbrev pub no_sector : ℕ
no_sector = 2 ^ 32 - 1

-- The pointer blocks are read from the device, past the cache.
unfoldable pub byte_to_sector : (ℕ → Sector) → Inode → ℕ → ℕ → ℕ
byte_to_sector disk inode len pos =
    if ltb pos len
    then (if ltb pos (block_sector_size * direct_blocks)
        then inode.ptr (pos / block_sector_size)
        else if ltb pos
            (block_sector_size * (direct_blocks + indirect_blocks * indirect_block_ptrs))
        then (let pos' = pos - block_sector_size * direct_blocks in
            let idx = pos' / (block_sector_size * indirect_block_ptrs) + direct_blocks in
            let indirect_block = words_of (disk (inode.ptr idx)) in
            indirect_block (pos' % (block_sector_size * indirect_block_ptrs) / block_sector_size))
        else (let outer = words_of (disk (inode.ptr double_indirect_start)) in
            let pos' =
              pos - block_sector_size * (direct_blocks + indirect_blocks * indirect_block_ptrs) in
            let idx = pos' / (block_sector_size * indirect_block_ptrs) in
            let inner = words_of (disk (outer idx)) in
            inner (pos' % (block_sector_size * indirect_block_ptrs) / block_sector_size)))
    else no_sector
