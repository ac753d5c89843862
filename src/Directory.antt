-- ===== src/Directory.antt =====
-- filesys/directory.c of prj4: directories as files of entries. A name is the list of its characters
-- before the null character; an inode is named by its sector. The locks are left out.
pub mod Laws
pub mod Change
pub mod Remove
use os_326_omega.Prelude.{
  ℕ, suc, zero, ◌+◌, ◌*◌, ◌==◌, if◌then◌else◌, Bool, true, false, not, ◌&&◌, ◌||◌, ltb, List, [],
  ◌∷◌, Option, some, none, length, take,
}
use os_326_omega.Prelude.Panic.{◌>>=◌}
use os_326_omega.FreeMap.{root_dir_sector}

abbrev pub name_max : ℕ
name_max = 14

-- sizeof (struct dir_entry)
abbrev pub entry_size : ℕ
entry_size = 20

-- struct dir_entry
pub record DirEntry : Type 0 where
  pub inode_sector : ℕ
  pub name : List ℕ
  pub in_use : Bool

-- struct dir
pub record Dir : Type 0 where
  pub inode : ℕ
  pub pos : ℕ

-- strcmp of lib/string.c: whether its result is 0
unfoldable pub strcmp_eq : List ℕ → List ℕ → Bool
strcmp_eq [] [] = true
strcmp_eq [] (b ∷ ys) = false
strcmp_eq (a ∷ xs) [] = false
strcmp_eq (a ∷ xs) (b ∷ ys) = let rest = strcmp_eq xs ys in if a == b then rest else false

-- What strlcpy leaves in a buffer of `size` characters.
unfoldable pub strlcpy : List ℕ → ℕ → List ℕ
strlcpy src zero = []
strlcpy src (suc dst_len) = take dst_len src

-- the test of lookup
abbrev pub has_name : List ℕ → DirEntry → Bool
has_name name e = e.in_use && strcmp_eq name e.name

-- What directory.c asks of filesys/inode.c. `slots` counts the whole entries in a directory. A read of
-- an entry is `none` where inode_read_at is short, a write of an entry says whether it was complete.
pub record Inodes : Type 1 where
  pub State : Type 0
  pub slots : State → ℕ → ℕ
  pub entry : State → ℕ → ℕ → DirEntry
  pub read_entry : State → ℕ → ℕ → Option DirEntry
  pub write_entry : State → ℕ → DirEntry → ℕ → Bool × State
  pub inode_create : State → ℕ → ℕ → Bool → Bool × State
  -- false where there is no memory for the inode
  pub inode_open : State → ℕ → Bool × State
  pub inode_reopen : State → ℕ → State
  pub inode_close : State → Option ℕ → State
  pub inode_remove : State → ℕ → State
  pub inode_add_parent : State → ℕ → ℕ → Bool × State
  pub inode_get_parent : State → ℕ → ℕ
  pub inode_is_dir : State → ℕ → Bool
  pub inode_get_open_cnt : State → ℕ → ℕ

module _ (I : Inodes) where
  open I use {
    State, read_entry, write_entry, inode_open, inode_reopen, inode_close, inode_remove,
    inode_add_parent, inode_get_parent, inode_is_dir, inode_get_open_cnt,
  }

  unfoldable pub dir_create : State → ℕ → ℕ → Bool × State
  dir_create s sector entry_cnt = I.inode_create s sector (entry_cnt * entry_size) true

  -- `memory` says whether calloc succeeds; `none` is a null pointer.
  unfoldable pub dir_open : Bool → State → Option ℕ → Option Dir × State
  dir_open memory s none = (none, inode_close s none)
  dir_open memory s (some inode) =
      if memory
      then (some (record { inode = inode; pos = 0 }), s)
      else (none, inode_close s (some inode))

  -- inode_open, as a null pointer or the inode
  abbrev pub open_inode : State → ℕ → Option ℕ × State
  open_inode s sector =
      let opened = inode_open s sector in (if opened.0 then some sector else none, opened.1)

  unfoldable pub dir_open_root : Bool → State → Option Dir × State
  unfolding dir_open
  dir_open_root memory s =
      let opened = open_inode s root_dir_sector in dir_open memory opened.1 opened.0

  unfoldable pub dir_reopen : Bool → State → Dir → Option Dir × State
  unfolding dir_open
  dir_reopen memory s dir = dir_open memory (inode_reopen s dir.inode) (some dir.inode)

  unfoldable pub dir_close : State → Option Dir → State
  dir_close s none = s
  dir_close s (some dir) = inode_close s (some dir.inode)

  -- The loop that the functions below share: entries are read from `ofs` on until one passes the test.
  -- The result is that entry, if any, with the offset where the loop stopped. It runs on fuel.
  unfoldable pub scan : ℕ → (DirEntry → Bool) → State → ℕ → ℕ → Option (Option DirEntry × ℕ)
  scan zero test s inode ofs = none
  scan (suc n) test s inode ofs =
      let next = scan n test s inode (ofs + entry_size) in
      elim (read_entry s inode ofs) [
        | none ↦ some (none, ofs)
        | some e ↦ if test e then some (some e, ofs) else next
      ]

  unfoldable pub lookup : ℕ → State → ℕ → List ℕ → Option (Option DirEntry × ℕ)
  unfolding scan
  lookup rounds s inode name = scan rounds (has_name name) s inode 0

  -- The inode that is found, or a null pointer.
  unfoldable pub dir_lookup : ℕ → State → Dir → List ℕ → Option (Option ℕ × State)
  unfolding lookup
  dir_lookup rounds s dir name = lookup rounds s dir.inode name >>= λ found.
      some (elim found.0 [ none ↦ (none, s) | some e ↦ open_inode s e.inode_sector ])

  -- The last part of dir_add: a free slot, or the end of the file, is written.
  unfoldable pub add_slot : ℕ → State → ℕ → List ℕ → ℕ → Option (Bool × State)
  unfolding scan
  add_slot rounds s inode name inode_sector = scan rounds (λ e. not e.in_use) s inode 0 >>= λ free.
      some (
        write_entry s inode
          (record {
            inode_sector = inode_sector;
            name = strlcpy name (name_max + 1);
            in_use = true;
          })
          free.1)

  unfoldable pub dir_add : ℕ → State → Dir → List ℕ → ℕ → Option (Bool × State)
  unfolding lookup add_slot
  dir_add rounds s dir name inode_sector =
      let parent = inode_add_parent s dir.inode inode_sector in
      let add : Option (Bool × State) =
        if parent.0
        then add_slot rounds parent.1 dir.inode name inode_sector
        else some (false, parent.1) in
      let unless_found : Option (Bool × State) = lookup rounds s dir.inode name >>= λ found.
      elim found.0 [ some e ↦ some (false, s) | none ↦ add ] in
      if length name == 0 || ltb name_max (length name) then some (false, s) else unless_found

  unfoldable pub dir_is_empty : ℕ → State → ℕ → Option Bool
  unfolding scan
  dir_is_empty rounds s inode = scan rounds (λ e. e.in_use) s inode 0 >>= λ found.
      some (elim found.0 [ some e ↦ false | none ↦ true ])

  -- The entry `e` at `ofs` is erased and its inode removed.
  unfoldable pub erase : State → Dir → DirEntry → ℕ → Bool × State
  erase s dir e ofs =
      let written = write_entry s dir.inode (record e { in_use = false }) ofs in
      if written.0
      then (true, inode_close (inode_remove written.1 e.inode_sector) (some e.inode_sector))
      else (false, inode_close written.1 (some e.inode_sector))

  -- dir_remove once the entry is found
  unfoldable pub remove_entry : ℕ → State → Dir → DirEntry → ℕ → Option (Bool × State)
  unfolding dir_is_empty erase
  remove_entry rounds s dir e ofs =
      let opened = inode_open s e.inode_sector in
      let is_dir = inode_is_dir opened.1 e.inode_sector in
      let refused : Option (Bool × State) =
        some (false, inode_close opened.1 (some e.inode_sector)) in
      let emptied : Option (Bool × State) = dir_is_empty rounds opened.1 e.inode_sector >>= λ empty.
      if empty then some (erase opened.1 dir e ofs) else refused in
      if not opened.0
      then some (false, inode_close opened.1 none)
      else if is_dir && ltb 1 (inode_get_open_cnt opened.1 e.inode_sector)
      then refused
      else if is_dir
      then emptied
      else some (erase opened.1 dir e ofs)

  unfoldable pub dir_remove : ℕ → State → Dir → List ℕ → Option (Bool × State)
  unfolding lookup remove_entry
  dir_remove rounds s dir name = lookup rounds s dir.inode name >>= λ found. elim found.0 [
    | none ↦ some (false, inode_close s none)
    | some e ↦ remove_entry rounds s dir e found.1
  ]

  -- The name that is read, if any, and the directory with its position advanced.
  unfoldable pub dir_readdir : ℕ → State → Dir → Option (Option (List ℕ) × Dir)
  unfolding scan
  dir_readdir rounds s dir = scan rounds (λ e. e.in_use) s dir.inode dir.pos >>= λ found.
      some (elim found.0 [
        | none ↦ (none, record dir { pos = found.1 })
        | some e ↦ (some (strlcpy e.name (name_max + 1)), record dir { pos = found.1 + entry_size })
      ])

  unfoldable pub dir_is_root : Option Dir → Bool
  dir_is_root none = false
  dir_is_root (some dir) = dir.inode == root_dir_sector

  unfoldable pub dir_get_parent : State → Dir → Option ℕ × State
  dir_get_parent s dir = open_inode s (inode_get_parent s dir.inode)
