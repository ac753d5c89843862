-- ===== src/Tests/Directories.antt =====
-- A directory with one entry and a free slot (filesys/directory.c of prj4).
use os_326_omega.Prelude.{
  ℕ, ◌+◌, ◌/◌, ◌≡◌, refl, ◌==◌, ltb, if◌then◌else◌, ◌&&◌, true, [], ◌∷◌, some, none,
}
use os_326_omega.Directory.{
  DirEntry, Dir, Inodes, dir_lookup, strcmp_eq, dir_open, dir_open_root, lookup, scan,
}
use os_326_omega.Path.{
  skip, token, after, strtok_r, get_filename, walk_step, walk, get_containing_dir,
}
use os_326_omega.Path.Laws.{get_filename-join}

-- how many slots a directory has, and its entries
abbrev Slots : Type 0
Slots = (ℕ → ℕ) × (ℕ → ℕ → DirEntry)

abbrev put : Slots → ℕ → DirEntry → ℕ → Slots
put s d e i = (
  λ q. if d == q && i == s.0 q then s.0 q + 1 else s.0 q,
  λ q j. if d == q && i == j then e else s.1 q j,
)

abbrev inodes : Inodes
inodes = record {
  State = Slots;
  slots = λ s d. s.0 d;
  entry = λ s d i. s.1 d i;
  read_entry = λ s d ofs. if ltb (ofs / 20) (s.0 d) then some (s.1 d (ofs / 20)) else none;
  write_entry = λ s d e ofs. (true, put s d e (ofs / 20));
  inode_create = λ s sector len is_dir. (true, s);
  inode_open = λ s sector. (true, s);
  inode_reopen = λ s d. s;
  inode_close = λ s d. s;
  inode_remove = λ s d. s;
  inode_add_parent = λ s parent child. (true, s);
  inode_get_parent = λ s d. 1;
  inode_is_dir = λ s d. d == 1;
  inode_get_open_cnt = λ s d. 1;
}

-- "a" in sector 5
abbrev root_slots : Slots
root_slots = (
  λ q. if q == 1 then 2 else 0,
  λ q i. record { inode_sector = 5; name = 97 ∷ []; in_use = i == 0 },
)

abbrev root : Dir
root = record { inode = 1; pos = 0 }

get_filename-join_example : get_filename (47 ∷ 97 ∷ 47 ∷ 98 ∷ []) ≡ some (98 ∷ [])
get_filename-join_example = get_filename-join 98 [] (refl, tt) (47 ∷ 97 ∷ [])

-- A regular file in the middle of a path is passed over.
get_containing_dir_run :
    get_containing_dir inodes 3 true root_slots none (97 ∷ 47 ∷ 98 ∷ [])
    ≡ some (some root, root_slots)
unfolding get_containing_dir walk walk_step strtok_r skip token after dir_open_root dir_open
    strcmp_eq dir_lookup lookup scan
get_containing_dir_run = refl
