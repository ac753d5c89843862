-- ===== src/File/Laws.antt =====
-- Denying and allowing writes, and closing, on an open file (filesys/file.c of prj4).
use os_326_omega.Prelude.{
  ℕ, ◌+◌, ◌<◌, ◌≡◌, refl, ◌∙◌, true, false, arith, ap, List, Option, some, length, subst,
}
use os_326_omega.Prelude.Panic.{>>=-eq-some}
use os_326_omega.Store.{Store}
use os_326_omega.Inode.{Inode}
use os_326_omega.Inode.Table.{Table, find_inode}
use os_326_omega.Inode.Table.Laws.{inode_allow_write-deny_write}
use os_326_omega.File.{File, file_deny_write, file_allow_write, file_read}

module _ (D : Store) where
  -- file_deny_write of a file that has denied writes does nothing: a second call after a first one
  -- changes neither the table nor the file.
  pub file_deny_write_idem :
      (t t' : Table D) (f f' : File)
      → file_deny_write D t f ≡ some (t', f')
      → file_deny_write D t' f' ≡ some (t', f')
  unfolding file_deny_write
  file_deny_write_idem t t' f f' e = ground arith

  -- file_allow_write takes file_deny_write back: the inode is as it was, and so is the file.
  pub file_allow_write-deny_write :
      (t : Table D) (f : File) (i : Inode)
      → f.deny_write ≡ false
      → find_inode t.open_inodes f.inode ≡ some i
      → i.deny_write_cnt < i.open_cnt
      → (r : Table D × File) × (file_deny_write D t f ≡ some r)
        × (find_inode r.0.open_inodes f.inode
            ≡ some (record i { deny_write_cnt = i.deny_write_cnt + 1 }))
        × (r' : Table D × File) × (file_allow_write D r.0 r.1 ≡ some r')
        × (find_inode r'.0.open_inodes f.inode ≡ some i)
        × (r'.1 ≡ f)
  unfolding file_deny_write file_allow_write
  file_allow_write-deny_write t f i clear found less =
      let (t', e, found', t'', e', found'') =
        inode_allow_write-deny_write D t f.inode i found less in
      (
        (t', record f { deny_write = true }),
        ground arith,
        found',
        (t'', f),
        ground arith,
        found'',
        refl,
      )

  file_read-pos :
      (read_at : Table D → ℕ → (size offset : ℕ) → Option (List ℕ × Table D)) (t t' : Table D)
      (f f' : File) (size : ℕ) (b : List ℕ)
      → file_read D read_at t f size ≡ some (b, t', f')
      → (read_at t f.inode size f.pos ≡ some (b, t')) × (f' ≡ record f { pos = f.pos + length b })
  unfolding file_read
  file_read-pos read_at t t' f f' size b e =
      let ((c, u), e₁, e₂) = >>=-eq-some (read_at t f.inode size f.pos) _ e in
      (ground arith, ground arith)

  -- Two reads in a row are at consecutive positions: the second starts where the bytes of the first end.
  pub file_read-read :
      (read_at : Table D → ℕ → (size offset : ℕ) → Option (List ℕ × Table D)) (t t₁ t₂ : Table D)
      (f f₁ f₂ : File) (size₁ size₂ : ℕ) (b₁ b₂ : List ℕ)
      → file_read D read_at t f size₁ ≡ some (b₁, t₁, f₁)
      → file_read D read_at t₁ f₁ size₂ ≡ some (b₂, t₂, f₂)
      → (read_at t₁ f.inode size₂ (f.pos + length b₁) ≡ some (b₂, t₂))
        × (f₂ ≡ record f { pos = f.pos + length b₁ + length b₂ })
  file_read-read read_at t t₁ t₂ f f₁ f₂ size₁ size₂ b₁ b₂ e e' =
      let (r, g) = file_read-pos read_at t t₁ f f₁ size₁ b₁ e in
      let (r', g') = file_read-pos read_at t₁ t₂ f₁ f₂ size₂ b₂ e' in
      (
        subst (λ h. read_at t₁ h.inode size₂ h.pos ≡ some (b₂, t₂)) g r',
        g' ∙ ap (λ (h : File). record h { pos = h.pos + length b₂ }) g,
      )
