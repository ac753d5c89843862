-- ===== src/File.antt =====
-- filesys/file.c of prj4: open files. A file holds the sector of its inode in the table of open inodes;
-- NULL is `none`. inode_read_at and inode_write_at enter as arguments: the bytes copied, or how many
-- bytes were written, and the table afterwards.
pub mod Laws
use os_326_omega.Prelude.{
  ℕ, ◌+◌, Bool, true, false, if◌then◌else◌, List, Option, some, none, length,
}
use os_326_omega.Prelude.Panic.{◌>>=◌, ◌>>◌, assert}
use os_326_omega.Store.{Store}
use os_326_omega.Inode.{Inode}
use os_326_omega.Inode.Table.{
  Table, find_inode, inode_close, inode_reopen, inode_deny_write, inode_allow_write,
}

-- `struct file`
pub record File : Type 0 where
  pub inode : ℕ
  pub pos : ℕ
  pub deny_write : Bool

abbrev pub file_get_inode : File → ℕ
file_get_inode f = f.inode

abbrev pub file_tell : File → ℕ
file_tell f = f.pos

unfoldable pub file_seek : File → ℕ → File
file_seek f new_pos = record f { pos = new_pos }

module _ (D : Store) where
  -- `memory` says whether calloc succeeds.
  unfoldable pub file_open : Bool → Table D → Option ℕ → Option (Option File × Table D)
  file_open memory t none = inode_close D t none >>= λ t'. some (none, t')
  file_open memory t (some p) =
      if memory
      then some (some (record { inode = p; pos = 0; deny_write = false }), t)
      else (inode_close D t (some p) >>= λ t'. some (none, t'))

  unfoldable pub file_reopen : Bool → Table D → File → Option (Option File × Table D)
  file_reopen memory t f = let (p, t') = inode_reopen D t (some f.inode) in file_open memory t' p

  unfoldable pub file_deny_write : Table D → File → Option (Table D × File)
  file_deny_write t f =
      if f.deny_write
      then some (t, f)
      else (do t' ← inode_deny_write D t f.inode; some (t', record f { deny_write = true }))

  unfoldable pub file_allow_write : Table D → File → Option (Table D × File)
  file_allow_write t f =
      if f.deny_write
      then (do t' ← inode_allow_write D t f.inode; some (t', record f { deny_write = false }))
      else some (t, f)

  unfoldable pub file_close : Table D → Option File → Option (Table D)
  file_close t none = some t
  file_close t (some f) = do (t', f') ← file_allow_write t f; inode_close D t' (some f'.inode)

  unfoldable pub file_length : Table D → File → Option ℕ
  file_length t f = find_inode t.open_inodes f.inode >>= λ i. some i.length

  module _ (inode_read_at : Table D → ℕ → (size offset : ℕ) → Option (List ℕ × Table D)) where
    unfoldable pub file_read_at : Table D → File → ℕ → ℕ → Option (List ℕ × Table D)
    file_read_at t f size file_ofs = inode_read_at t f.inode size file_ofs

    unfoldable pub file_read : Table D → File → ℕ → Option (List ℕ × Table D × File)
    file_read t f size = do
      (bytes, t') ← inode_read_at t f.inode size f.pos
      some (bytes, t', record f { pos = f.pos + length bytes })

  module _ (inode_write_at : Table D → ℕ → List ℕ → (size offset : ℕ) → Option (ℕ × Table D)) where
    unfoldable pub file_write_at : Table D → File → List ℕ → ℕ → ℕ → Option (ℕ × Table D)
    file_write_at t f buffer size file_ofs = inode_write_at t f.inode buffer size file_ofs

    unfoldable pub file_write : Table D → File → List ℕ → ℕ → Option (ℕ × Table D × File)
    file_write t f buffer size = do
      (bytes_written, t') ← inode_write_at t f.inode buffer size f.pos
      some (bytes_written, t', record f { pos = f.pos + bytes_written })
