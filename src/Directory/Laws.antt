-- ===== src/Directory/Laws.antt =====
-- filesys/directory.c of prj4: what a directory holds, and what is read of it.
use os_326_omega.Prelude.{
  ℕ, suc, zero, ◌+◌, ◌*◌, ◌≤◌, ◌<◌, ◌≡◌, ◌≢◌, refl, sym, ◌∙◌, ap, subst, inl, inr, ◌==◌, ==_iff,
  ltb, if◌then◌else◌, Bool, true, false, Bool-cases, arith, List, [], ◌∷◌, Option, some, none,
}
use os_326_omega.Directory.{
  DirEntry, Dir, Inodes, entry_size, strcmp_eq, strlcpy, scan, has_name, lookup, dir_lookup,
  dir_is_empty, dir_readdir, open_inode,
}

pub strcmp_eq_refl : (xs : List ℕ) → strcmp_eq xs xs ≡ true
unfolding strcmp_eq
strcmp_eq_refl [] = refl
strcmp_eq_refl (x ∷ xs) = ground (arith, strcmp_eq_refl xs)

pub eq_of_strcmp_eq : (xs ys : List ℕ) → strcmp_eq xs ys ≡ true → xs ≡ ys
unfolding strcmp_eq
eq_of_strcmp_eq [] [] h = refl
eq_of_strcmp_eq [] (y ∷ ys) h = absurd (cc)
eq_of_strcmp_eq (x ∷ xs) [] h = absurd (cc)
eq_of_strcmp_eq (x ∷ xs) (y ∷ ys) h = elim (Bool-cases (x == y)) [
  | inl same ↦
      let first = (==_iff x y).0 same in
      let rest = eq_of_strcmp_eq xs ys (ground arith) in
      ap (λ z. z ∷ xs) first ∙ ap (λ l. y ∷ l) rest
  | inr other ↦ absurd (ground arith)
]

module _ (I : Inodes) where
  open I use {
    State, slots, entry, read_entry, write_entry, inode_open, inode_close, inode_remove,
    inode_add_parent,
  }

  -- directory `d` has the same entries
  pub record Same (s s' : State) (d : ℕ) : Type 0 where
    pub count : slots s' d ≡ slots s d
    pub entries : (i : ℕ) → i < slots s d → entry s' d i ≡ entry s d i

  -- slot i of directory `d`, which may be the one behind the last, has entry `e`; the others are the same
  pub record Wrote (s s' : State) (d : ℕ) (e : DirEntry) (i : ℕ) : Type 0 where
    pub count : slots s' d ≡ (if i == slots s d then slots s d + 1 else slots s d)
    pub here : entry s' d i ≡ e
    pub entries : (j : ℕ) → j ≢ i → entry s' d j ≡ entry s d j

  -- What inode.c promises to directories that are open.
  pub record IsLawful : Type 0 where
    pub read_inside :
        (s : State) (d i : ℕ) → i < slots s d → read_entry s d (i * 20) ≡ some (entry s d i)
    pub read_end : (s : State) (d i : ℕ) → slots s d ≤ i → read_entry s d (i * 20) ≡ none
    pub written :
        (s : State) (d : ℕ) (e : DirEntry) (i : ℕ)
        → i ≤ slots s d
        → (write_entry s d e (i * 20)).0 ≡ true
        → Wrote s (write_entry s d e (i * 20)).1 d e i
    pub not_written :
        (s : State) (d : ℕ) (e : DirEntry) (i : ℕ)
        → i ≤ slots s d
        → (write_entry s d e (i * 20)).0 ≡ false
        → Same s (write_entry s d e (i * 20)).1 d
    pub open_same : (s : State) (c d : ℕ) → Same s (inode_open s c).1 d
    pub add_parent_same : (s : State) (parent c d : ℕ) → Same s (inode_add_parent s parent c).1 d
    pub remove_same : (s : State) (c d : ℕ) → Same s (inode_remove s c) d
    pub close_same : (s : State) (c d : ℕ) → c ≢ d → Same s (inode_close s (some c)) d
    pub close_null : (s : State) → inode_close s none ≡ s

  -- directory `d` maps the name to the sector
  abbrev pub Holds : State → ℕ → List ℕ → ℕ → Type 0
  Holds s d name sector =
      (i : ℕ) × (i < slots s d)
      × ((entry s d i).in_use ≡ true)
      × ((entry s d i).name ≡ name)
      × ((entry s d i).inode_sector ≡ sector)

  -- no name is there twice
  abbrev pub IsDir : State → ℕ → Type 0
  IsDir s d =
      (i j : ℕ)
      → i < slots s d
      → j < slots s d
      → (entry s d i).in_use ≡ true
      → (entry s d j).in_use ≡ true
      → (entry s d i).name ≡ (entry s d j).name
      → i ≡ j

  abbrev pub Scanned : (DirEntry → Bool) → State → ℕ → ℕ → Option DirEntry × ℕ → Type 0
  Scanned test s d i (none, ofs) =
      (ofs ≡ slots s d * 20) × ((k : ℕ) → i ≤ k → k < slots s d → test (entry s d k) ≡ false)
  Scanned test s d i (some e, ofs) =
      (j : ℕ) × (i ≤ j)
      × (j < slots s d)
      × (ofs ≡ j * 20)
      × (e ≡ entry s d j)
      × (test e ≡ true)
      × ((k : ℕ) → i ≤ k → k < j → test (entry s d k) ≡ false)

  module _ (laws : IsLawful) where
    -- one round of the loop, where the read gives `o`
    abbrev round :
        ℕ → (DirEntry → Bool) → State → ℕ → ℕ → Option DirEntry → Option (Option DirEntry × ℕ)
    round n test s d ofs o = elim o [
      | none ↦ some (none, ofs)
      | some e ↦ if test e then some (some e, ofs) else scan I n test s d (ofs + entry_size)
    ]

    scan-round :
        (n : ℕ) (test : DirEntry → Bool) (s : State) (d ofs : ℕ) (o : Option DirEntry)
        → read_entry s d ofs ≡ o
        → scan I (suc n) test s d ofs ≡ round n test s d ofs o
    unfolding scan
    scan-round n test s d ofs o e = ap (round n test s d ofs) e

    pub scan-Scanned :
        (n : ℕ) (test : DirEntry → Bool) (s : State) (d i : ℕ)
        → slots s d < n + i
        → i ≤ slots s d
        → (r : Option DirEntry × ℕ) × (scan I n test s d (i * 20) ≡ some r) × Scanned test s d i r
    unfolding scan
    scan-Scanned zero test s d i h le = absurd (omega arith)
    scan-Scanned (suc n) test s d i h le = elim (Bool-cases (ltb i (slots s d))) [
      | inl inside ↦
          let read = laws.read_inside s d i (ground arith) in
          elim (Bool-cases (test (entry s d i))) [
            | inl passes ↦ (
              (some (entry s d i), i * 20),
              scan-round n test s d (i * 20) _ read ∙ rw passes refl,
              (i, omega arith, ground arith, refl, refl, passes, λ k lo hi. absurd (omega arith)),
            )
            | inr unlike ↦
                let next : i * 20 + 20 ≡ (i + 1) * 20 = omega arith in
                let (r, e, sc) = scan-Scanned n test s d (i + 1) (omega arith) (ground arith) in
                (r, scan-round n test s d (i * 20) _ read ∙ rw (unlike, next) e, later r sc unlike)
          ]
      | inr end ↦ (
        (none, i * 20),
        scan-round n test s d (i * 20) none (laws.read_end s d i (ground arith)),
        (
          let same : i ≡ slots s d = ground arith in ap (λ x. x * 20) same,
          λ k lo hi. absurd (ground arith),
        ),
      )
    ]
      where
        first :
            (k : ℕ)
            → test (entry s d i) ≡ false
            → i ≤ k
            → (i + 1 ≤ k → test (entry s d k) ≡ false)
            → test (entry s d k) ≡ false
        first k unlike lo rest = elim (Bool-cases (i == k)) [
          | inl same ↦ subst (λ x. test (entry s d x) ≡ false) ((==_iff i k).0 same) unlike
          | inr other ↦ rest (ground arith)
        ]

        later :
            (r : Option DirEntry × ℕ)
            → Scanned test s d (i + 1) r
            → test (entry s d i) ≡ false
            → Scanned test s d i r
        later (none, ofs) (e, all) unlike = (e, λ k lo hi. first k unlike lo (λ lo'. all k lo' hi))
        later (some e, ofs) (j, lo, hi, o, eq, passes, all) unlike = (
          j,
          omega arith,
          hi,
          o,
          eq,
          passes,
          λ k lo' hi'. first k unlike lo' (λ lo''. all k lo'' hi'),
        )

    Holds-unique :
        (s : State) (d : ℕ) (name : List ℕ) (x y : ℕ)
        → IsDir s d
        → Holds s d name x
        → Holds s d name y
        → x ≡ y
    Holds-unique s d name x y u (i, hi, used, n, e) (j, hj, used', n', e') =
        let same : i ≡ j = u i j hi hj used used' (n ∙ sym n') in
        sym e ∙ ap (λ k. (entry s d k).inode_sector) same ∙ e'

    has_name-eq :
        (name : List ℕ) (e : DirEntry)
        → has_name name e ≡ true
        → (e.in_use ≡ true) × (e.name ≡ name)
    has_name-eq name e h =
        let used : e.in_use ≡ true = ground arith in
        (used, sym (eq_of_strcmp_eq name e.name (ground arith)))

    absent-Holds :
        (s : State) (d : ℕ) (name : List ℕ)
        → ((k : ℕ) → 0 ≤ k → k < slots s d → has_name name (entry s d k) ≡ false)
        → (x : ℕ) → ¬ (Holds s d name x)
    absent-Holds s d name all x (i, hi, used, n, e) =
        let eq : strcmp_eq name (entry s d i).name ≡ true =
          subst (λ m. strcmp_eq name m ≡ true) (sym n) (strcmp_eq_refl name) in
        let unlike = all i (omega arith) hi in ground arith

    abbrev pub Found : State → ℕ → List ℕ → Option DirEntry × ℕ → Type 0
    Found s d name (none, ofs) = (x : ℕ) → ¬ (Holds s d name x)
    Found s d name (some e, ofs) =
        (j : ℕ) × (j < slots s d)
        × (ofs ≡ j * 20)
        × (e ≡ entry s d j)
        × ((entry s d j).in_use ≡ true)
        × ((entry s d j).name ≡ name)

    pub lookup-Found :
        (rounds : ℕ) (s : State) (d : ℕ) (name : List ℕ)
        → slots s d < rounds
        → (r : Option DirEntry × ℕ) × (lookup I rounds s d name ≡ some r) × Found s d name r
    unfolding lookup
    lookup-Found rounds s d name h =
        let (r, e, sc) = scan-Scanned rounds (has_name name) s d 0 (omega arith) (omega arith) in
        (r, e, found r sc)
      where
        found : (r : Option DirEntry × ℕ) → Scanned (has_name name) s d 0 r → Found s d name r
        found (none, ofs) (e, all) = absent-Holds s d name all
        found (some e, ofs) (j, lo, hi, o, eq, passes, all) =
            let (used, n) =
              has_name-eq name (entry s d j) (subst (λ x. has_name name x ≡ true) eq passes) in
            (j, hi, o, eq, used, n)

    -- dir_lookup in a directory without double names opens the inode of the entry in use
    -- with the name, and gives a null pointer where there is no such entry.
    pub dir_lookup-Holds :
        (rounds : ℕ) (s : State) (dir : Dir) (name : List ℕ)
        → IsDir s dir.inode
        → slots s dir.inode < rounds
        → ((x : ℕ)
            → Holds s dir.inode name x
            → dir_lookup I rounds s dir name ≡ some (open_inode I s x))
          × (((x : ℕ) → ¬ (Holds s dir.inode name x))
              → dir_lookup I rounds s dir name ≡ some (none, s))
    unfolding dir_lookup
    dir_lookup-Holds rounds s dir name u h = both (lookup-Found rounds s dir.inode name h)
      where
        both :
            (r : Option DirEntry × ℕ) × (lookup I rounds s dir.inode name ≡ some r)
              × Found s dir.inode name r
            → ((x : ℕ)
                → Holds s dir.inode name x
                → dir_lookup I rounds s dir name ≡ some (open_inode I s x))
              × (((x : ℕ) → ¬ (Holds s dir.inode name x))
                  → dir_lookup I rounds s dir name ≡ some (none, s))
        both ((none, ofs), e, f) = ((λ x held. absurd (f x held)), (λ unlike. rw e refl))
        both ((some d, ofs), e, f) =
            let here : Holds s dir.inode name d.inode_sector =
              (f.0, f.1, f.4, f.5, ap (λ z. z.inode_sector) (sym f.3)) in
            (
              (λ x held. rw e (
                  ap (λ y. some (open_inode I s y))
                    (Holds-unique s dir.inode name d.inode_sector x u here held))),
              (λ unlike. absurd (unlike d.inode_sector here)),
            )

    -- dir_is_empty says whether no entry of the directory is in use.
    pub dir_is_empty-Holds :
        (rounds : ℕ) (s : State) (d : ℕ)
        → slots s d < rounds
        → (b : Bool) × (dir_is_empty I rounds s d ≡ some b)
          × ((b ≡ true) → (i : ℕ) → i < slots s d → (entry s d i).in_use ≡ false)
          × ((b ≡ false) → (i : ℕ) × (i < slots s d) × ((entry s d i).in_use ≡ true))
    unfolding dir_is_empty
    dir_is_empty-Holds rounds s d h =
        result (scan-Scanned rounds (λ e. e.in_use) s d 0 (omega arith) (omega arith))
      where
        result :
            (r : Option DirEntry × ℕ) × (scan I rounds (λ e. e.in_use) s d 0 ≡ some r)
              × Scanned (λ e. e.in_use) s d 0 r
            → (b : Bool) × (dir_is_empty I rounds s d ≡ some b)
              × ((b ≡ true) → (i : ℕ) → i < slots s d → (entry s d i).in_use ≡ false)
              × ((b ≡ false) → (i : ℕ) × (i < slots s d) × ((entry s d i).in_use ≡ true))
        result ((none, ofs), e, sc) =
            (true, rw e refl, (λ t i hi. sc.1 i (omega arith) hi), (λ f. absurd (cc)))
        result ((some x, ofs), e, sc) = (
          false,
          rw e refl,
          (λ t. absurd (cc)),
          (λ f. (sc.0, sc.2, subst (λ y. y.in_use ≡ true) sc.4 sc.5)),
        )

    -- What dir_readdir gives from slot i on: the next name in use, or none where there is none left.
    abbrev pub Next : State → Dir → ℕ → Option (List ℕ) × Dir → Type 0
    Next s dir i (none, dir') =
        (dir' ≡ record dir { pos = slots s dir.inode * 20 })
        × ((k : ℕ) → i ≤ k → k < slots s dir.inode → (entry s dir.inode k).in_use ≡ false)
    Next s dir i (some name, dir') =
        (j : ℕ) × (i ≤ j)
        × (j < slots s dir.inode)
        × (dir' ≡ record dir { pos = (j + 1) * 20 })
        × (name ≡ strlcpy (entry s dir.inode j).name 15)
        × ((entry s dir.inode j).in_use ≡ true)
        × ((k : ℕ) → i ≤ k → k < j → (entry s dir.inode k).in_use ≡ false)

    -- dir_readdir from a position at the start of an entry gives the name of the next entry
    -- in use and stops behind it, or reports the end where no entry in use is left.
    pub dir_readdir-Next :
        (rounds : ℕ) (s : State) (dir : Dir) (i : ℕ)
        → dir.pos ≡ i * 20
        → i ≤ slots s dir.inode
        → slots s dir.inode < rounds
        → (r : Option (List ℕ) × Dir) × (dir_readdir I rounds s dir ≡ some r) × Next s dir i r
    unfolding dir_readdir
    dir_readdir-Next rounds s dir i at le h =
        next (scan-Scanned rounds (λ e. e.in_use) s dir.inode i (omega arith) le)
      where
        next :
            (r : Option DirEntry × ℕ) × (scan I rounds (λ e. e.in_use) s dir.inode (i * 20)
                ≡ some r)
              × Scanned (λ e. e.in_use) s dir.inode i r
            → (r : Option (List ℕ) × Dir) × (dir_readdir I rounds s dir ≡ some r) × Next s dir i r
        next ((none, ofs), e, sc) = (
          (none, record dir { pos = ofs }),
          rw (at, e) refl,
          (ap (λ x. record dir { pos = x }) sc.0, sc.1),
        )
        next ((some x, ofs), e, sc) = (
          (some (strlcpy x.name 15), record dir { pos = ofs + 20 }),
          rw (at, e) refl,
          (
            sc.0,
            sc.1,
            sc.2,
            ap (λ y. record dir { pos = y })
                (let o : ofs + 20 ≡ (sc.0 + 1) * 20 = omega (arith, sc.3) in o),
            ap (λ y. strlcpy y.name 15) sc.4,
            subst (λ y. y.in_use ≡ true) sc.4 sc.5,
            sc.6,
          ),
        )
