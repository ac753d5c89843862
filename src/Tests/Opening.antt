-- ===== src/Tests/Opening.antt =====
-- The table of open inodes, open files and reads (filesys/inode.c, filesys/file.c).
use os_326_omega.Prelude.{
  ℕ, ◌+◌, ◌≡◌, refl, true, false, arith, if◌then◌else◌, ltb, List, Option, some, none, [], ◌∷◌,
}
use os_326_omega.Sector.{zeros}
use os_326_omega.FreeMap.{Writer}
use os_326_omega.Device.{Device, device_store}
use os_326_omega.Store.{Store}
use os_326_omega.Cache.{Block, Cache}
use os_326_omega.Cache.View.{content}
use os_326_omega.Cache.Get.{IsCache}
use os_326_omega.Inode.{Inode}
use os_326_omega.Inode.Read.{Settled, Reads, inode_read_at, inode_read_at-Reads}
use os_326_omega.Inode.Table.{Table, find_inode, inode_open, inode_close}
use os_326_omega.Inode.Table.Laws.{IsStorable, Restored, inode_open-close, inode_close-open}
use os_326_omega.File.{File, file_deny_write, file_allow_write}
use os_326_omega.File.Laws.{file_allow_write-deny_write}

abbrev device : Device
device = record {
  free_map = record { map = record { bit_cnt = 40; bits = 3 ∷ 0 ∷ [] }; opened = false };
  sectors = λ p. zeros;
}

abbrev writes_all : Writer
writes_all bits size = size

abbrev store : Store
store = device_store writes_all 40

abbrev open_file : Inode
open_file = record {
  sector = 5;
  open_cnt = 1;
  removed = false;
  deny_write_cnt = 0;
  length = 600;
  read_length = 600;
  direct_index = 2;
  indirect_index = 0;
  double_indirect_index = 0;
  isdir = false;
  parent = 1;
  ptr = λ i. if ltb i 2 then i + 6 else 0;
}

abbrev table : Table store
table = record { open_inodes = open_file ∷ []; store = device }

open_file-IsStorable : IsStorable open_file
open_file-IsStorable = record {
  length = omega arith;
  direct = omega arith;
  indirect = omega arith;
  double = omega arith;
  parent = omega arith;
  ptr = λ k. ground arith;
}

found : find_inode table.open_inodes 5 ≡ some open_file
unfolding find_inode
found = refl

inode_open-close_example :
    (t' : Table store) × (inode_close store table (some 5) ≡ some t')
    × (find_inode t'.open_inodes 5 ≡ none)
    × (i' : Inode) × (find_inode (inode_open store true t' 5).1.open_inodes 5 ≡ some i')
    × Restored open_file i'
unfolding find_inode
inode_open-close_example =
    inode_open-close store table 5 open_file (refl, tt) open_file-IsStorable found refl refl

inode_close-open_example :
    ((inode_open store true table 5).0 ≡ some 5)
    × (find_inode (inode_open store true table 5).1.open_inodes 5
        ≡ some (record open_file { open_cnt = 2 }))
    × (inode_close store (inode_open store true table 5).1 (some 5) ≡ some table)
inode_close-open_example = inode_close-open store true table 5 open_file found (omega arith)

abbrev file : File
file = record { inode = 5; pos = 0; deny_write = false }

file_allow_write-deny_write_example :
    (r : Table store × File) × (file_deny_write store table file ≡ some r)
    × (find_inode r.0.open_inodes 5 ≡ some (record open_file { deny_write_cnt = 1 }))
    × (r' : Table store × File) × (file_allow_write store r.0 r.1 ≡ some r')
    × (find_inode r'.0.open_inodes 5 ≡ some open_file)
    × (r'.1 ≡ file)
file_allow_write-deny_write_example =
    file_allow_write-deny_write store table file open_file refl found (omega arith)

-- a device that returns three zeros for each read
abbrev three_zeros : Table store → ℕ → (size offset : ℕ) → Option (List ℕ × Table store)
three_zeros t p size offset = some (0 ∷ 0 ∷ 0 ∷ [], t)

-- sector 6 is cached and dirty, sector 7 on the disk
abbrev block : Block
block = record { sector_no = 6; access = true; dirty = true; contents = λ o. o }

abbrev cache : Cache
cache = record { blocks = block ∷ []; disk = λ p. zeros }

cache-IsCache : IsCache cache
cache-IsCache = record {
  coherent = (λ clean. absurd (ground arith), refl, tt);
  bound = omega arith;
}

-- a file with an indirect block in sector 9
abbrev long_file : Inode
long_file = record open_file { length = 3000; read_length = 3000; ptr = λ i. i + 5 }

long_file-Settled : Settled long_file cache.disk (content cache.blocks cache.disk)
long_file-Settled = record {
  indirect = λ k h l. ground arith;
  double = λ l. absurd (omega arith);
  inner = λ k l. absurd (omega arith);
}

inode_read_at-Reads_example :
    (r : List ℕ × Cache) × (inode_read_at block long_file cache 2000 500 ≡ some r)
    × Reads block long_file (content cache.blocks cache.disk) 500 2000 r
inode_read_at-Reads_example =
    inode_read_at-Reads block long_file (content cache.blocks cache.disk) cache 2000 500
      cache-IsCache (λ q. refl) long_file-Settled
