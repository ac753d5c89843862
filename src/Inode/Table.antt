-- ===== src/Inode/Table.antt =====
-- The table of open inodes of filesys/inode.c (prj4): inode_open, inode_reopen, inode_close and the
-- operations on an open inode. A `struct inode *` is the sector of the inode, since open_inodes holds
-- at most one inode for a sector; NULL is `none`. The use of a freed inode is a panic.
pub mod Laws
use os_326_omega.Prelude.{
  ℕ, zero, suc, ◌+◌, ◌-◌, ◌%◌, Bool, true, false, not, ◌==◌, if◌then◌else◌, ltb, leb, List, Option,
  some, none, length, [], ◌∷◌,
}
use os_326_omega.Prelude.Panic.{◌>>=◌, ◌>>◌, assert}
use os_326_omega.Sector.{Sector, Words, words_of, of_words}
use os_326_omega.Store.{Store}
use os_326_omega.Inode.{Inode, inode_magic, inode_block_ptrs}
use os_326_omega.Inode.Free.{inode_dealloc}

-- `struct inode_disk` as the 128 words of its sector: 7 fields, 107 unused words, 14 pointers
abbrev pub inode_disk : Inode → Words
inode_disk i zero = i.length
inode_disk i (suc zero) = inode_magic
inode_disk i (suc (suc zero)) = i.direct_index
inode_disk i (suc (suc (suc zero))) = i.indirect_index
inode_disk i (suc (suc (suc (suc zero)))) = i.double_indirect_index
inode_disk i (suc (suc (suc (suc (suc zero))))) = if i.isdir then 1 else 0
inode_disk i (suc (suc (suc (suc (suc (suc zero)))))) = i.parent
inode_disk i (suc (suc (suc (suc (suc (suc (suc k))))))) = if ltb k 107 then 0 else i.ptr (k - 107)

-- what inode_open makes of the sector
unfoldable pub from_disk : ℕ → Words → Inode
from_disk sector w = record {
  sector = sector;
  open_cnt = 1;
  removed = false;
  deny_write_cnt = 0;
  length = w 0;
  read_length = w 0;
  direct_index = w 2;
  indirect_index = w 3;
  double_indirect_index = w 4;
  isdir = not (w 5 % 256 == 0);
  parent = w 6;
  ptr = λ k. w (114 + k);
}

unfoldable pub find_inode : List Inode → ℕ → Option Inode
find_inode [] sector = none
find_inode (i ∷ rest) sector = if i.sector == sector then some i else find_inode rest sector

-- the open inode of the sector changed, and taken off the list
unfoldable pub update_inode : List Inode → ℕ → (Inode → Inode) → List Inode
update_inode [] sector f = []
update_inode (i ∷ rest) sector f =
    if i.sector == sector then f i ∷ rest else i ∷ update_inode rest sector f

unfoldable pub remove_inode : List Inode → ℕ → List Inode
remove_inode [] sector = []
remove_inode (i ∷ rest) sector = if i.sector == sector then rest else i ∷ remove_inode rest sector

module _ (D : Store) where
  open D use {State, read, write, release}

  pub record Table : Type 0 where
    pub open_inodes : List Inode
    pub store : State

module _ (D : Store) where
  open D use {State, read, write, release}

  -- `memory` says whether malloc succeeds.
  unfoldable pub inode_open : Bool → Table D → ℕ → Option ℕ × Table D
  inode_open memory t sector = elim (find_inode t.open_inodes sector) [
    | some i ↦ (
      some sector,
      record t {
        open_inodes =
            update_inode t.open_inodes sector (λ i. record i { open_cnt = i.open_cnt + 1 });
      },
    )
    | none ↦
        if memory
        then (
          some sector,
          record t {
            open_inodes = from_disk sector (words_of (read t.store sector)) ∷ t.open_inodes;
          },
        )
        else (none, t)
  ]

  unfoldable pub inode_reopen : Table D → Option ℕ → Option ℕ × Table D
  inode_reopen t none = (none, t)
  inode_reopen t (some p) = (
    some p,
    record t {
      open_inodes = update_inode t.open_inodes p (λ i. record i { open_cnt = i.open_cnt + 1 });
    },
  )

  unfoldable pub inode_close : Table D → Option ℕ → Option (Table D)
  inode_close t none = some t
  inode_close t (some p) = do
    i ← find_inode t.open_inodes p
    if i.open_cnt - 1 == 0
        then (let rest = remove_inode t.open_inodes p in
            if i.removed
            then (do
              s ← release t.store p
              s' ← inode_dealloc D s i
              some (record { open_inodes = rest; store = s' }))
            else some
                (record { open_inodes = rest; store = write t.store p (of_words (inode_disk i)) }))
        else some (record t {
          open_inodes = update_inode t.open_inodes p (λ i. record i { open_cnt = i.open_cnt - 1 });
        })

  unfoldable pub inode_remove : Table D → ℕ → Table D
  inode_remove t p = record t {
    open_inodes = update_inode t.open_inodes p (λ i. record i { removed = true });
  }

  unfoldable pub inode_deny_write : Table D → ℕ → Option (Table D)
  inode_deny_write t p = do
    i ← find_inode t.open_inodes p
    assert (leb (i.deny_write_cnt + 1) i.open_cnt)
    some (record t {
      open_inodes =
          update_inode t.open_inodes p (λ i. record i { deny_write_cnt = i.deny_write_cnt + 1 });
    })

  unfoldable pub inode_allow_write : Table D → ℕ → Option (Table D)
  inode_allow_write t p = do
    i ← find_inode t.open_inodes p
    assert (ltb 0 i.deny_write_cnt)
    assert (leb i.deny_write_cnt i.open_cnt)
    some (record t {
      open_inodes =
          update_inode t.open_inodes p (λ i. record i { deny_write_cnt = i.deny_write_cnt - 1 });
    })

  unfoldable pub inode_add_parent : Bool → Table D → ℕ → ℕ → Option (Bool × Table D)
  inode_add_parent memory t parent_sector child_sector =
      let (r, t') = inode_open memory t child_sector in
      elim r [
        | none ↦ some (false, t')
        | some p ↦
            let named = record t' {
              open_inodes =
                  update_inode t'.open_inodes p (λ i. record i { parent = parent_sector });
            } in
            inode_close named (some p) >>= λ t''. some (true, t'')
      ]
