-- ===== src/Directory/Remove.antt =====
-- filesys/directory.c of prj4: dir_remove.
use os_326_omega.Prelude.{
  ℕ, ◌*◌, ◌≤◌, ◌<◌, ◌≡◌, ◌≢◌, ◌↔◌, refl, sym, ◌∙◌, ap, subst, inl, inr, if◌then◌else◌, ltb, Bool,
  true, false, Bool-cases, arith, List, Option, some, none,
}
use os_326_omega.Directory.{
  DirEntry, Dir, Inodes, lookup, dir_is_empty, erase, remove_entry, dir_remove,
}
use os_326_omega.Directory.Laws.{
  Same, Wrote, IsLawful, Holds, IsDir, Found, lookup-Found, dir_is_empty-Holds,
}
use os_326_omega.Directory.Change.{
  Same-trans, Same-sym, Same-Holds, Same-IsDir, erased-Holds, erased-IsDir,
}

module _ (I : Inodes) where
  open I use {
    State, slots, entry, write_entry, inode_open, inode_close, inode_remove, inode_is_dir,
    inode_get_open_cnt,
  }

  -- The name is gone and nothing else.
  abbrev pub Gone : State → State → ℕ → List ℕ → Type 0
  Gone s t d name =
      IsDir I t d × ((m : List ℕ) (y : ℕ) → Holds I t d m y ↔ ((m ≢ name) × Holds I s d m y))

  -- The inode `x` is no directory, or one that nobody else has open and that is empty.
  abbrev pub Removable : State → ℕ → Type 0
  Removable s x =
      inode_is_dir (inode_open s x).1 x ≡ true
      → (inode_get_open_cnt (inode_open s x).1 x ≤ 1)
        × ((i : ℕ) → i < slots s x → (entry s x i).in_use ≡ false)

  abbrev pub Removed : State → ℕ → List ℕ → Bool × State → Type 0
  Removed s d name (true, t) = Gone s t d name × ((x : ℕ) × Holds I s d name x × Removable s x)
  Removed s d name (false, t) = Same I s t d

  Same-Gone :
      (s s1 t t1 : State) (d : ℕ) (name : List ℕ)
      → Same I s s1 d
      → Same I t1 t d
      → Gone s1 t1 d name
      → Gone s t d name
  Same-Gone s s1 t t1 d name a b (u, held) = (
    Same-IsDir I t1 t d b u,
    λ m y. (
      (λ at.
          let old = (held m y).0 (Same-Holds I t t1 d m y (Same-sym I t1 t d b) at) in
          (old.0, Same-Holds I s1 s d m y (Same-sym I s s1 d a) old.1)),
      (λ c. Same-Holds I t1 t d m y b ((held m y).1 (c.0, Same-Holds I s s1 d m y a c.1))),
    ),
  )

  module _ (laws : IsLawful I) (rounds : ℕ) (s : State) (dir : Dir) (name : List ℕ)
      (u : IsDir I s dir.inode) (h : slots s dir.inode < rounds)
      (apart : (x : ℕ) → Holds I s dir.inode name x → (x ≢ dir.inode) × (slots s x < rounds)) where
    -- the entry in slot j is found
    module _ (j : ℕ) (hj : j < slots s dir.inode) (used : (entry s dir.inode j).in_use ≡ true)
        (named : (entry s dir.inode j).name ≡ name) where
      abbrev e : DirEntry
      e = entry s dir.inode j

      abbrev s1 : State
      s1 = (inode_open s (e.inode_sector)).1

      held : Holds I s dir.inode name (e.inode_sector)
      held = (j, hj, used, named, refl)

      opened : Same I s s1 dir.inode
      opened = laws.open_same s (e.inode_sector) dir.inode

      closed :
          (t : State)
          → Same I s t dir.inode
          → Same I s (inode_close t (some (e.inode_sector))) dir.inode
      closed t a =
          Same-trans I s t _ dir.inode a
            (laws.close_same t (e.inode_sector) dir.inode (apart (e.inode_sector) held).0)

      erase-Removed :
          Removable s (e.inode_sector) → Removed s dir.inode name (erase I s1 dir e (j * 20))
      unfolding erase
      erase-Removed fine =
          outcome (write_entry s1 dir.inode (record e { in_use = false }) (j * 20)) refl
        where
          j1 : j < slots s1 dir.inode
          j1 = omega (arith, opened.count, hj)

          off : DirEntry
          off = record e { in_use = false }

          outcome :
              (r : Bool × State)
              → write_entry s1 dir.inode off (j * 20) ≡ r
              → Removed s dir.inode name (
                  if r.0
                  then (
                    true,
                    inode_close (inode_remove r.1 (e.inode_sector)) (some (e.inode_sector)),
                  )
                  else (false, inode_close r.1 (some (e.inode_sector))))
          outcome (true, t1) eq =
              let w : Wrote I s1 t1 dir.inode off j =
                subst (λ z. Wrote I s1 z.1 dir.inode off j) eq
                  (laws.written s1 dir.inode off j (omega (arith, j1)) (ap (λ z. z.0) eq)) in
              let here = opened.entries j hj in
              let u1 = Same-IsDir I s s1 dir.inode opened u in
              let t = inode_close (inode_remove t1 (e.inode_sector)) (some (e.inode_sector)) in
              let after : Same I t1 t dir.inode =
                Same-trans I t1 (inode_remove t1 (e.inode_sector)) t dir.inode
                  (laws.remove_same t1 (e.inode_sector) dir.inode)
                  (laws.close_same _ (e.inode_sector) dir.inode (apart (e.inode_sector) held).0) in
              let erased =
                erased-Holds I s1 t1 dir.inode off j w (omega (arith, j1)) refl j1
                  (ap (λ y. y.in_use) here ∙ used) u1 in
              let n1 : (entry s1 dir.inode j).name ≡ name = ap (λ y. y.name) here ∙ named in
              (
                Same-Gone s s1 t t1 dir.inode name opened after (
                  erased-IsDir I s1 t1 dir.inode off j w (omega (arith, j1)) refl u1,
                  λ m y.
                      subst (λ x. Holds I t1 dir.inode m y ↔ ((m ≢ x) × Holds I s1 dir.inode m y))
                        n1 (erased m y),
                ),
                (e.inode_sector, held, fine),
              )
          outcome (false, t1) eq = closed t1 (
              Same-trans I s s1 t1 dir.inode opened (
                subst (λ z. Same I s1 z.1 dir.inode) eq
                  (laws.not_written s1 dir.inode off j (omega (arith, j1)) (ap (λ z. z.0) eq))))

      remove_entry-Removed :
          (r : Bool × State) × (remove_entry I rounds s dir e (j * 20) ≡ some r)
          × Removed s dir.inode name r
      unfolding remove_entry
      remove_entry-Removed = elim (Bool-cases (inode_open s (e.inode_sector)).0) [
        | inr failed ↦ (
          (false, inode_close s1 none),
          rw failed refl,
          subst (λ z. Same I s z dir.inode) (sym (laws.close_null s1)) opened,
        )
        | inl ok ↦ elim (Bool-cases (inode_is_dir s1 (e.inode_sector))) [
          | inr plain ↦
              (erase I s1 dir e (j * 20), rw (ok, plain) refl, erase-Removed (λ d. absurd (cc)))
          | inl is_dir ↦ elim (Bool-cases (ltb 1 (inode_get_open_cnt s1 (e.inode_sector)))) [
            | inl busy ↦ (
              (false, inode_close s1 (some (e.inode_sector))),
              rw (ok, is_dir, busy) refl,
              closed s1 opened,
            )
            | inr idle ↦ emptied ok is_dir idle (
                dir_is_empty-Holds I laws rounds s1 (e.inode_sector) (
                  omega (
                    arith,
                    (apart (e.inode_sector) held).1,
                    (laws.open_same s (e.inode_sector) (e.inode_sector)).count,
                  )))
          ]
        ]
      ]
        where
          emptied :
              (inode_open s (e.inode_sector)).0 ≡ true
              → inode_is_dir s1 (e.inode_sector) ≡ true
              → ltb 1 (inode_get_open_cnt s1 (e.inode_sector)) ≡ false
              → (b : Bool) × (dir_is_empty I rounds s1 (e.inode_sector) ≡ some b)
                × ((b ≡ true)
                    → (i : ℕ) → i < slots s1 (e.inode_sector)
                    → (entry s1 (e.inode_sector) i).in_use ≡ false)
                × ((b ≡ false)
                    → (i : ℕ) × (i < slots s1 (e.inode_sector))
                      × ((entry s1 (e.inode_sector) i).in_use ≡ true))
              → (r : Bool × State) × (remove_entry I rounds s dir e (j * 20) ≡ some r)
                × Removed s dir.inode name r
          emptied ok is_dir idle (false, eq, all, one) = (
            (false, inode_close s1 (some (e.inode_sector))),
            rw (ok, is_dir, idle, eq) refl,
            closed s1 opened,
          )
          emptied ok is_dir idle (true, eq, all, one) =
              let inner = laws.open_same s (e.inode_sector) (e.inode_sector) in
              (
                erase I s1 dir e (j * 20),
                rw (ok, is_dir, idle, eq) refl,
                erase-Removed (λ d. (
                  ground arith,
                  λ i hi.
                      sym (ap (λ y. y.in_use) (inner.entries i hi))
                      ∙ all refl i (omega (arith, inner.count)),
                )),
              )

    -- dir_remove from a directory without double names, on inodes that keep what is written,
    -- where the name is not that of the directory itself, ends. If it succeeds, the
    -- directory had the name, for a file or for a directory that is empty and that nobody
    -- else has open, and it then holds what it held before without this name. If it fails,
    -- the entries are the same.
    pub dir_remove-Removed :
        (r : Bool × State) × (dir_remove I rounds s dir name ≡ some r) × Removed s dir.inode name r
    unfolding dir_remove
    dir_remove-Removed = found (lookup-Found I laws rounds s dir.inode name h)
      where
        found :
            (r : Option DirEntry × ℕ) × (lookup I rounds s dir.inode name ≡ some r)
              × Found I laws s dir.inode name r
            → (r : Bool × State) × (dir_remove I rounds s dir name ≡ some r)
              × Removed s dir.inode name r
        found ((none, ofs), eq, f) = (
          (false, inode_close s none),
          rw eq refl,
          subst (λ z. Same I s z dir.inode) (sym (laws.close_null s))
              (record { count = refl; entries = λ i hi. refl }),
        )
        found ((some x, ofs), eq, f) =
            let (r, done, gone) = remove_entry-Removed f.0 f.1 f.4 f.5 in
            (
              r,
              rw eq (
                  subst (λ y. remove_entry I rounds s dir y ofs ≡ some r) (sym f.3)
                    (subst (λ o. remove_entry I rounds s dir (entry s dir.inode f.0) o ≡ some r)
                      (sym f.2) done)),
              gone,
            )
