-- ===== src/Inode/Table/Laws.antt =====
-- Opening and closing inodes (filesys/inode.c of prj4).
use os_326_omega.Prelude.{
  ℕ, suc, ◌+◌, ◌-◌, ◌^◌, ◌<◌, ◌≡◌, refl, ◌∙◌, Bool, true, false, arith, List, some, none, [], ◌∷◌,
}
use os_326_omega.Sector.{Sector, words_of, of_words, words_of-of_words}
use os_326_omega.Store.{Store}
use os_326_omega.Inode.{Inode}
use os_326_omega.Inode.Table.{
  Table, inode_disk, from_disk, find_inode, update_inode, remove_inode, inode_open, inode_close,
  inode_deny_write, inode_allow_write,
}

-- No two open inodes have the same sector.
abbrev pub IsDistinct : List Inode → Type 0
IsDistinct [] = Unit {0}
IsDistinct (i ∷ rest) = (find_inode rest i.sector ≡ none) × IsDistinct rest

-- The fields fit the words of the disk.
pub record IsStorable (i : Inode) : Type 0 where
  pub length : i.length < 2 ^ 32
  pub direct : i.direct_index < 2 ^ 32
  pub indirect : i.indirect_index < 2 ^ 32
  pub double : i.double_indirect_index < 2 ^ 32
  pub parent : i.parent < 2 ^ 32
  pub ptr : (k : ℕ) → i.ptr k < 2 ^ 32

find-remove : (ts : List Inode) (p : ℕ) → IsDistinct ts → find_inode (remove_inode ts p) p ≡ none
unfolding find_inode remove_inode
find-remove [] p d = refl
find-remove (i ∷ rest) p d = ground (arith, find-remove rest p d.1, d.0)

find-update :
    (ts : List Inode) (p : ℕ) (f : Inode → Inode) (i : Inode)
    → ((j : Inode) → (f j).sector ≡ j.sector)
    → find_inode ts p ≡ some i
    → find_inode (update_inode ts p f) p ≡ some (f i)
unfolding find_inode update_inode
find-update [] p f i keeps e = absurd (ground arith)
find-update (j ∷ rest) p f i keeps e = ground (arith, find-update rest p f i keeps, keeps j)

-- one opener more and one less
update-back :
    (ts : List Inode) (p : ℕ)
    → update_inode
        (update_inode ts p (λ i. record i { open_cnt = i.open_cnt + 1 }))
        p
        (λ i. record i { open_cnt = i.open_cnt - 1 })
      ≡ ts
unfolding update_inode
update-back [] p = refl
update-back (i ∷ rest) p = ground (arith, update-back rest p)

disk-ptr : (i : Inode) (k : ℕ) → inode_disk i (114 + k) ≡ i.ptr k
disk-ptr i k =
    let e : 114 + k ≡ suc (suc (suc (suc (suc (suc (suc (107 + k))))))) = omega arith in
    let r : 107 + k - 107 ≡ k = omega arith in rw e (ground (arith, r))

-- what survives on the disk
pub record Restored (i i' : Inode) : Type 0 where
  pub length : i'.length ≡ i.length
  pub read_length : i'.read_length ≡ i.length
  pub direct : i'.direct_index ≡ i.direct_index
  pub indirect : i'.indirect_index ≡ i.indirect_index
  pub double : i'.double_indirect_index ≡ i.double_indirect_index
  pub isdir : i'.isdir ≡ i.isdir
  pub parent : i'.parent ≡ i.parent
  pub ptr : (k : ℕ) → i'.ptr k ≡ i.ptr k
  pub fresh : (i'.open_cnt ≡ 1) × (i'.removed ≡ false) × (i'.deny_write_cnt ≡ 0)

from_disk-Restored :
    (p : ℕ) (i : Inode)
    → IsStorable i
    → Restored i (from_disk p (words_of (of_words (inode_disk i))))
unfolding from_disk
from_disk-Restored p i s = record {
  length = words_of-of_words (inode_disk i) 0 s.length;
  read_length = words_of-of_words (inode_disk i) 0 s.length;
  direct = words_of-of_words (inode_disk i) 2 s.direct;
  indirect = words_of-of_words (inode_disk i) 3 s.indirect;
  double = words_of-of_words (inode_disk i) 4 s.double;
  isdir = ground (arith, words_of-of_words (inode_disk i) 5);
  parent = words_of-of_words (inode_disk i) 6 s.parent;
  ptr =
      λ k. words_of-of_words (inode_disk i) (114 + k) (rw (disk-ptr i k) (s.ptr k)) ∙ disk-ptr i k;
  fresh = (refl, refl, refl);
}

module _ (D : Store) where
  open-found :
      (memory : Bool) (t : Table D) (p : ℕ) (i : Inode)
      → find_inode t.open_inodes p ≡ some i
      → inode_open D memory t p ≡ (
        some p,
        record t {
          open_inodes = update_inode t.open_inodes p (λ i. record i { open_cnt = i.open_cnt + 1 });
        },
      )
  unfolding inode_open
  open-found memory t p i found = rw (found, inode_open) refl

  open-new :
      (t : Table D) (p : ℕ)
      → find_inode t.open_inodes p ≡ none
      → inode_open D true t p ≡ (
        some p,
        record t { open_inodes = from_disk p (words_of (D.read t.store p)) ∷ t.open_inodes },
      )
  unfolding inode_open
  open-new t p free = rw (free, inode_open) refl

  -- Closing an inode that was opened once and not removed writes it to the disk: it is not open any
  -- more, and opening the sector again gives an inode with the same length, indices, kind, parent and
  -- pointers, opened once.
  pub inode_open-close :
      (t : Table D) (p : ℕ) (i : Inode)
      → IsDistinct t.open_inodes
      → IsStorable i
      → find_inode t.open_inodes p ≡ some i
      → i.open_cnt ≡ 1
      → i.removed ≡ false
      → (t' : Table D) × (inode_close D t (some p) ≡ some t')
        × (find_inode t'.open_inodes p ≡ none)
        × (i' : Inode) × (find_inode (inode_open D true t' p).1.open_inodes p ≡ some i')
        × Restored i i'
  unfolding inode_close inode_open find_inode from_disk
  inode_open-close t p i d s found once kept =
      let free = find-remove t.open_inodes p d in
      let t' : Table D = record {
        open_inodes = remove_inode t.open_inodes p;
        store = D.write t.store p (of_words (inode_disk i));
      } in
      let x : Sector = of_words (inode_disk i) in
      let back : D.read t'.store p ≡ x = ground (arith, D.read-write t.store p p x) in
      (
        t',
        ground arith,
        free,
        from_disk p (words_of x),
        rw (open-new t' p free, back) (ground arith),
        from_disk-Restored p i s,
      )

  -- inode_deny_write of an open inode that fewer have denied than opened does not panic and adds one
  -- to its count of denials; inode_allow_write afterwards does not panic and takes it back.
  pub inode_allow_write-deny_write :
      (t : Table D) (p : ℕ) (i : Inode)
      → find_inode t.open_inodes p ≡ some i
      → i.deny_write_cnt < i.open_cnt
      → (t' : Table D) × (inode_deny_write D t p ≡ some t')
        × (find_inode t'.open_inodes p ≡ some (record i { deny_write_cnt = i.deny_write_cnt + 1 }))
        × (t'' : Table D) × (inode_allow_write D t' p ≡ some t'')
        × (find_inode t''.open_inodes p ≡ some i)
  unfolding inode_deny_write inode_allow_write
  inode_allow_write-deny_write t p i found less =
      let deny : Inode → Inode = λ i. record i { deny_write_cnt = i.deny_write_cnt + 1 } in
      let allow : Inode → Inode = λ i. record i { deny_write_cnt = i.deny_write_cnt - 1 } in
      let t' : Table D = record t { open_inodes = update_inode t.open_inodes p deny } in
      let t'' : Table D = record t { open_inodes = update_inode t'.open_inodes p allow } in
      let found' = find-update t.open_inodes p deny i (λ j. refl) found in
      let found'' = find-update t'.open_inodes p allow (deny i) (λ j. refl) found' in
      (t', ground arith, found', t'', ground arith, found'' ∙ ground arith)

  -- Opening an inode that is open, whether or not malloc would succeed, returns it with one opener
  -- more; inode_close afterwards does not panic and gives the table back exactly as it was, with the
  -- store and all open inodes.
  pub inode_close-open :
      (memory : Bool) (t : Table D) (p : ℕ) (i : Inode)
      → find_inode t.open_inodes p ≡ some i
      → 0 < i.open_cnt
      → ((inode_open D memory t p).0 ≡ some p)
        × (find_inode (inode_open D memory t p).1.open_inodes p
            ≡ some (record i { open_cnt = i.open_cnt + 1 }))
        × (inode_close D (inode_open D memory t p).1 (some p) ≡ some t)
  unfolding inode_close
  inode_close-open memory t p i found opened =
      let more : Inode → Inode = λ i. record i { open_cnt = i.open_cnt + 1 } in
      let found' = find-update t.open_inodes p more i (λ j. refl) found in
      rw (open-found memory t p i found)
        (refl, found', ground (arith, found', update-back t.open_inodes p))
