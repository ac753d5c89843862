-- ===== src/Directory/Change.antt =====
-- filesys/directory.c of prj4: entries are added and removed.
use os_326_omega.Prelude.{
  ℕ, suc, zero, ◌*◌, ◌≤◌, ◌<◌, ◌≡◌, ◌≢◌, ◌↔◌, refl, sym, ◌∙◌, ap, subst, ◌⊎◌, inl, inr, ◌==◌,
  ==_iff, ltb, Bool, true, false, not, ◌||◌, Bool-cases, arith, List, [], ◌∷◌, Option, some, none,
  length, take,
}
use os_326_omega.Directory.{DirEntry, Dir, Inodes, strlcpy, scan, lookup, add_slot, dir_add}
use os_326_omega.Directory.Laws.{
  Same, Wrote, IsLawful, Holds, IsDir, Scanned, scan-Scanned, Found, lookup-Found,
}

take-all : (n : ℕ) (xs : List ℕ) → length xs ≤ n → take n xs ≡ xs
take-all zero [] h = refl
take-all (suc n) [] h = refl
take-all zero (x ∷ xs) h = absurd (omega arith)
take-all (suc n) (x ∷ xs) h = ap (λ l. x ∷ l) (take-all n xs (omega arith))

module _ (I : Inodes) where
  open I use {
    State, slots, entry, write_entry, inode_open, inode_close, inode_remove, inode_add_parent,
    inode_is_dir,
  }

  pub Same-trans : (s t u : State) (d : ℕ) → Same I s t d → Same I t u d → Same I s u d
  Same-trans s t u d a b = record {
    count = b.count ∙ a.count;
    entries = λ i h. b.entries i (omega (arith, a.count)) ∙ a.entries i h;
  }

  pub Same-sym : (s t : State) (d : ℕ) → Same I s t d → Same I t s d
  Same-sym s t d a = record {
    count = sym a.count;
    entries = λ i h. sym (a.entries i (omega (arith, a.count)));
  }

  pub Same-Holds :
      (s t : State) (d : ℕ) (name : List ℕ) (x : ℕ)
      → Same I s t d
      → Holds I s d name x
      → Holds I t d name x
  Same-Holds s t d name x a (i, h, used, n, e) =
      let same = a.entries i h in
      (
        i,
        omega (arith, a.count),
        ap (λ y. y.in_use) same ∙ used,
        ap (λ y. y.name) same ∙ n,
        ap (λ y. y.inode_sector) same ∙ e,
      )

  pub Same-IsDir : (s t : State) (d : ℕ) → Same I s t d → IsDir I s d → IsDir I t d
  Same-IsDir s t d a u i j hi hj ui uj n =
      let li : i < slots s d = omega (arith, a.count) in
      let lj : j < slots s d = omega (arith, a.count) in
      let ei = sym (a.entries i li) in
      let ej = sym (a.entries j lj) in
      u i j li lj (ap (λ y. y.in_use) ei ∙ ui) (ap (λ y. y.in_use) ej ∙ uj)
        (ap (λ y. y.name) ei ∙ n ∙ ap (λ y. y.name) (sym ej))

  -- a written slot
  module _ (s t : State) (d : ℕ) (e : DirEntry) (i : ℕ) (w : Wrote I s t d e i)
      (le : i ≤ slots s d) where
    older : (j : ℕ) → j < slots t d → j ≢ i → j < slots s d
    older j h ne = ground (arith, w.count)

    newer : (j : ℕ) → j < slots s d → j < slots t d
    newer j h = ground (arith, w.count)

    inside : i < slots t d
    inside = ground (arith, w.count)

    -- an entry put in a free slot
    added-Holds :
        e.in_use ≡ true
        → (i < slots s d → (entry s d i).in_use ≡ false)
        → (name : List ℕ) (x : ℕ)
        → Holds I t d name x ↔ (((e.name ≡ name) × (e.inode_sector ≡ x)) ⊎ Holds I s d name x)
    added-Holds used free name x = (forth, back)
      where
        forth : Holds I t d name x → ((e.name ≡ name) × (e.inode_sector ≡ x)) ⊎ Holds I s d name x
        forth (j, h, u, n, sec) = elim (Bool-cases (j == i)) [
          | inl same ↦
              let here : entry t d j ≡ e = ap (entry t d) ((==_iff j i).0 same) ∙ w.here in
              inl (ap (λ y. y.name) (sym here) ∙ n, ap (λ y. y.inode_sector) (sym here) ∙ sec)
          | inr other ↦
              let ne : j ≢ i = ground arith in
              let old = sym (w.entries j ne) in
              inr (
                j,
                older j h ne,
                ap (λ y. y.in_use) old ∙ u,
                ap (λ y. y.name) old ∙ n,
                ap (λ y. y.inode_sector) old ∙ sec,
              )
        ]

        back : ((e.name ≡ name) × (e.inode_sector ≡ x)) ⊎ Holds I s d name x → Holds I t d name x
        back (inl (n, sec)) = (
          i,
          inside,
          ap (λ y. y.in_use) w.here ∙ used,
          ap (λ y. y.name) w.here ∙ n,
          ap (λ y. y.inode_sector) w.here ∙ sec,
        )
        back (inr (j, h, u, n, sec)) =
            let ne : j ≢ i = λ same.
              let off = free (subst (λ y. y < slots s d) same h) in
              let on = subst (λ y. (entry s d y).in_use ≡ true) same u in cc in
            let new = w.entries j ne in
            (
              j,
              newer j h,
              ap (λ y. y.in_use) new ∙ u,
              ap (λ y. y.name) new ∙ n,
              ap (λ y. y.inode_sector) new ∙ sec,
            )

    added-IsDir : IsDir I s d → ((x : ℕ) → ¬ (Holds I s d e.name x)) → IsDir I t d
    added-IsDir u absent j k hj hk uj uk n = elim (Bool-cases (j == i)) [
      | inl sj ↦ elim (Bool-cases (k == i)) [
        | inl sk ↦ (==_iff j i).0 sj ∙ sym ((==_iff k i).0 sk)
        | inr nk ↦ absurd (
            clash k (ground arith) hk uk
              (sym n ∙ ap (λ y. (entry t d y).name) ((==_iff j i).0 sj) ∙ ap (λ y. y.name) w.here))
      ]
      | inr nj ↦ elim (Bool-cases (k == i)) [
        | inl sk ↦ absurd (
            clash j (ground arith) hj uj
              (n ∙ ap (λ y. (entry t d y).name) ((==_iff k i).0 sk) ∙ ap (λ y. y.name) w.here))
        | inr nk ↦
            let dj : j ≢ i = ground arith in
            let dk : k ≢ i = ground arith in
            let ej = sym (w.entries j dj) in
            let ek = sym (w.entries k dk) in
            u j k (older j hj dj) (older k hk dk) (ap (λ y. y.in_use) ej ∙ uj)
              (ap (λ y. y.in_use) ek ∙ uk) (ap (λ y. y.name) ej ∙ n ∙ ap (λ y. y.name) (sym ek))
      ]
    ]
      where
        clash :
            (m : ℕ)
            → m ≢ i
            → m < slots t d
            → (entry t d m).in_use ≡ true
            → (entry t d m).name ≡ e.name
            → ⊥
        clash m ne hm um nm =
            let old = sym (w.entries m ne) in
            absent (entry s d m).inode_sector
              (m, older m hm ne, ap (λ y. y.in_use) old ∙ um, ap (λ y. y.name) old ∙ nm, refl)

    -- an entry that is erased
    pub erased-Holds :
        e.in_use ≡ false
        → i < slots s d
        → (entry s d i).in_use ≡ true
        → IsDir I s d
        → (name : List ℕ) (x : ℕ)
        → Holds I t d name x ↔ ((name ≢ (entry s d i).name) × Holds I s d name x)
    erased-Holds off hi on u name x = (forth, back)
      where
        forth : Holds I t d name x → (name ≢ (entry s d i).name) × Holds I s d name x
        forth (j, h, uj, n, sec) =
            let ne : j ≢ i = λ same.
              let gone = ap (λ y. (entry t d y).in_use) same ∙ ap (λ y. y.in_use) w.here ∙ off in
              cc in
            let old = sym (w.entries j ne) in
            let uj' = ap (λ y. y.in_use) old ∙ uj in
            let n' = ap (λ y. y.name) old ∙ n in
            (
              (λ m. ne (u j i (older j h ne) hi uj' on (n' ∙ m))),
              (j, older j h ne, uj', n', ap (λ y. y.inode_sector) old ∙ sec),
            )

        back : (name ≢ (entry s d i).name) × Holds I s d name x → Holds I t d name x
        back (m, (j, h, uj, n, sec)) =
            let ne : j ≢ i = λ same. m (sym n ∙ ap (λ y. (entry s d y).name) same) in
            let new = w.entries j ne in
            (
              j,
              newer j h,
              ap (λ y. y.in_use) new ∙ uj,
              ap (λ y. y.name) new ∙ n,
              ap (λ y. y.inode_sector) new ∙ sec,
            )

    pub erased-IsDir : e.in_use ≡ false → IsDir I s d → IsDir I t d
    erased-IsDir off u j k hj hk uj uk n =
        let ne : (m : ℕ) → (entry t d m).in_use ≡ true → m ≢ i = λ m um same.
          let gone = ap (λ y. (entry t d y).in_use) same ∙ ap (λ y. y.in_use) w.here ∙ off in cc in
        let ej = sym (w.entries j (ne j uj)) in
        let ek = sym (w.entries k (ne k uk)) in
        u j k (older j hj (ne j uj)) (older k hk (ne k uk)) (ap (λ y. y.in_use) ej ∙ uj)
          (ap (λ y. y.in_use) ek ∙ uk) (ap (λ y. y.name) ej ∙ n ∙ ap (λ y. y.name) (sym ek))

  -- What dir_add gives.
  abbrev pub Added : State → ℕ → List ℕ → ℕ → Bool × State → Type 0
  Added s d name sector (true, s') =
      IsDir I s' d
      × ((x : ℕ) → ¬ (Holds I s d name x))
      × ((m : List ℕ) (x : ℕ) → Holds I s' d m x ↔ (((name ≡ m) × (sector ≡ x)) ⊎ Holds I s d m x))
  Added s d name sector (false, s') =
      Same I s s' d
      × ((name ≡ [])
          ⊎ (14 < length name)
          ⊎ ((x : ℕ) × Holds I s d name x)
          ⊎ ((inode_add_parent s d sector).0 ≡ false)
          ⊎ ((e : DirEntry) × (ofs : ℕ) × ((write_entry (inode_add_parent s d sector).1 d e ofs).0
                ≡ false)))

  module _ (laws : IsLawful I) where
    same-here : (s : State) (d : ℕ) → Same I s s d
    same-here s d = record { count = refl; entries = λ i h. refl }

    add_slot-Added :
        (rounds : ℕ) (s s1 : State) (d : ℕ) (name : List ℕ) (sector : ℕ)
        → s1 ≡ (inode_add_parent s d sector).1
        → Same I s s1 d
        → IsDir I s d
        → length name ≤ 14
        → ((x : ℕ) → ¬ (Holds I s d name x))
        → slots s d < rounds
        → (r : Bool × State) × (add_slot I rounds s1 d name sector ≡ some r)
          × Added s d name sector r
    unfolding add_slot strlcpy
    add_slot-Added rounds s s1 d name sector is_s1 same u short absent h = slot (
        scan-Scanned I laws rounds (λ e. not e.in_use) s1 d 0 (omega (arith, same.count))
          (omega arith))
      where
        new : DirEntry
        new = record { inode_sector = sector; name = take 14 name; in_use = true }

        write_at :
            (i ofs : ℕ)
            → ofs ≡ i * 20
            → i ≤ slots s1 d
            → (i < slots s1 d → (entry s1 d i).in_use ≡ false)
            → Added s d name sector (write_entry s1 d new ofs)
        write_at i ofs o le free =
            subst (λ z. Added s d name sector (write_entry s1 d new z)) (sym o)
              (outcome (write_entry s1 d new (i * 20)) refl)
          where
            whole : take 14 name ≡ name
            whole = take-all 14 name short

            outcome :
                (r : Bool × State) → write_entry s1 d new (i * 20) ≡ r → Added s d name sector r
            outcome (true, t) e =
                let w : Wrote I s1 t d new i =
                  subst (λ z. Wrote I s1 z.1 d new i) e
                    (laws.written s1 d new i le (ap (λ z. z.0) e)) in
                let back = Same-sym s s1 d same in
                (
                  added-IsDir s1 t d new i w le (Same-IsDir s s1 d same u) (λ x held.
                      absent x
                        (Same-Holds s1 s d name x back (subst (λ m. Holds I s1 d m x) whole held))),
                  absent,
                  λ m x.
                      let held = added-Holds s1 t d new i w le refl free m x in
                      (
                        (λ at. elim (held.0 at) [
                          | inl (n, sec) ↦ inl (sym whole ∙ n, sec)
                          | inr old ↦ inr (Same-Holds s1 s d m x back old)
                        ]),
                        (λ c. held.1 (elim c [
                          | inl (n, sec) ↦ inl (whole ∙ n, sec)
                          | inr old ↦ inr (Same-Holds s s1 d m x same old)
                        ])),
                      ),
                )
            outcome (false, t) e =
                let kept : Same I s1 t d =
                  subst (λ z. Same I s1 z.1 d) e
                    (laws.not_written s1 d new i le (ap (λ z. z.0) e)) in
                (
                  Same-trans s s1 t d same kept,
                  inr (
                      inr (
                        inr (
                          inr (
                            new,
                            i * 20,
                            subst (λ z. (write_entry z d new (i * 20)).0 ≡ false) is_s1
                                (ap (λ z. z.0) e),
                          )))),
                )

        slot :
            (r : Option DirEntry × ℕ) × (scan I rounds (λ e. not e.in_use) s1 d 0 ≡ some r)
              × Scanned I (λ e. not e.in_use) s1 d 0 r
            → (r : Bool × State) × (add_slot I rounds s1 d name sector ≡ some r)
              × Added s d name sector r
        slot ((none, ofs), e, sc) = (
          write_entry s1 d new ofs,
          rw e refl,
          write_at (slots s1 d) ofs sc.0 (omega arith) (λ lt. absurd (omega arith)),
        )
        slot ((some x, ofs), e, sc) = (
          write_entry s1 d new ofs,
          rw e refl,
          write_at sc.0 ofs sc.3 (omega (arith, sc.2))
              (λ lt. let f = subst (λ y. not y.in_use ≡ true) sc.4 sc.5 in ground arith),
        )

    -- dir_add to a directory without double names, on inodes that keep what is written,
    -- ends. If it succeeds, the directory did not have the name, and it then holds the new
    -- name with its sector and what it held before, still without double names. If it fails,
    -- the entries are the same, and the name is empty, longer than 14 characters or in the
    -- directory, or the parent could not be noted, or a write was short.
    pub dir_add-Added :
        (rounds : ℕ) (s : State) (dir : Dir) (name : List ℕ) (sector : ℕ)
        → IsDir I s dir.inode
        → slots s dir.inode < rounds
        → (r : Bool × State) × (dir_add I rounds s dir name sector ≡ some r)
          × Added s dir.inode name sector r
    unfolding dir_add
    dir_add-Added rounds s dir name sector u h =
        elim (Bool-cases (length name == 0 || ltb 14 (length name))) [
          | inl invalid ↦ ((false, s), rw invalid refl, (same-here s dir.inode, why invalid))
          | inr valid ↦ found valid (lookup-Found I laws rounds s dir.inode name h)
        ]
      where
        no_name : (m : List ℕ) → length m == 0 ≡ true → m ≡ []
        no_name [] e = refl
        no_name (c ∷ cs) e = absurd (ground arith)

        why :
            length name == 0 || ltb 14 (length name) ≡ true
            → (name ≡ [])
              ⊎ (14 < length name)
              ⊎ ((x : ℕ) × Holds I s dir.inode name x)
              ⊎ ((inode_add_parent s dir.inode sector).0 ≡ false)
              ⊎ ((e : DirEntry) × (ofs : ℕ) × ((write_entry
                      (inode_add_parent s dir.inode sector).1
                      dir.inode
                      e
                      ofs).0
                    ≡ false))
        why invalid = elim (Bool-cases (length name == 0)) [
          | inl empty ↦ inl (no_name name empty)
          | inr some_name ↦ inr (inl (ground arith))
        ]

        found :
            length name == 0 || ltb 14 (length name) ≡ false
            → (r : Option DirEntry × ℕ) × (lookup I rounds s dir.inode name ≡ some r)
              × Found I laws s dir.inode name r
            → (r : Bool × State) × (dir_add I rounds s dir name sector ≡ some r)
              × Added s dir.inode name sector r
        found valid ((some d, ofs), e, f) = (
          (false, s),
          rw (valid, e) refl,
          (
            same-here s dir.inode,
            inr (
                inr
                  (inl (d.inode_sector, (f.0, f.1, f.4, f.5, ap (λ y. y.inode_sector) (sym f.3))))),
          ),
        )
        found valid ((none, ofs), e, f) =
            elim (Bool-cases (inode_add_parent s dir.inode sector).0) [
              | inl adopted ↦
                  let (r, e', a) =
                    add_slot-Added rounds s (inode_add_parent s dir.inode sector).1 dir.inode name
                      sector refl (laws.add_parent_same s dir.inode sector dir.inode) u
                      (ground arith) f h in
                  (r, rw (valid, e, adopted) e', a)
              | inr orphan ↦ (
                (false, (inode_add_parent s dir.inode sector).1),
                rw (valid, e, orphan) refl,
                (laws.add_parent_same s dir.inode sector dir.inode, inr (inr (inr (inl orphan)))),
              )
            ]
