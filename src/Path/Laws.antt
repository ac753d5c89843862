-- ===== src/Path/Laws.antt =====
-- filesys/filesys.c of prj4: the name at the end of a path, and a step of a walk.
use os_326_omega.Prelude.{
  ℕ, suc, zero, ◌+◌, ◌≤◌, ◌<◌, ◌≡◌, refl, sym, ◌∙◌, ap, subst, ◌⊎◌, inl, inr, ◌==◌, Bool, true,
  false, Bool-cases, arith, List, [], ◌∷◌, ◌++◌, some, none, length, length-append,
}
use os_326_omega.Directory.{Dir, Inodes, strcmp_eq}
use os_326_omega.Directory.Laws.{IsLawful, Holds, IsDir, dir_lookup-Holds}
use os_326_omega.Path.{
  skip, token, after, strtok_r, filename_loop, get_filename, walk_step, dot, dot_dot,
}

-- the string has no "/"
abbrev pub NoSlash : List ℕ → Type 0
NoSlash [] = Unit
NoSlash (c ∷ cs) = (c == 47 ≡ false) × NoSlash cs

token_all : (b : List ℕ) → NoSlash b → token b ≡ b
unfolding token
token_all [] h = refl
token_all (c ∷ cs) h = rw (h.0) (ap (λ l. c ∷ l) (token_all cs h.1))

after_all : (b : List ℕ) → NoSlash b → after b ≡ []
unfolding after
after_all [] h = refl
after_all (c ∷ cs) h = rw (h.0) (after_all cs h.1)

-- a name alone
strtok_r_name : (c : ℕ) (cs : List ℕ) → NoSlash (c ∷ cs) → strtok_r (c ∷ cs) ≡ some (c ∷ cs, [])
unfolding strtok_r skip
strtok_r_name c cs h =
    let t = token_all (c ∷ cs) h in
    let a = after_all (c ∷ cs) h in
    let s : skip (c ∷ cs) ≡ c ∷ cs = rw (h.0) refl in
    ap (λ x. elim x [ [] ↦ none | d ∷ ds ↦ some (token (d ∷ ds), after (d ∷ ds)) ]) s
    ∙ ap (λ x. some (x, after (c ∷ cs))) t
    ∙ ap (λ x. some (c ∷ cs, x)) a

strtok_r_slash : (d : ℕ) (s : List ℕ) → d == 47 ≡ true → strtok_r (d ∷ s) ≡ strtok_r s
unfolding strtok_r skip
strtok_r_slash d s slash =
    let e : skip (d ∷ s) ≡ skip s = rw slash refl in
    ap (λ x. elim x [ [] ↦ none | d ∷ ds ↦ some (token (d ∷ ds), after (d ∷ ds)) ]) e

strtok_r_other :
    (d : ℕ) (s : List ℕ) → d == 47 ≡ false → strtok_r (d ∷ s) ≡ some (token (d ∷ s), after (d ∷ s))
unfolding strtok_r skip
strtok_r_other d s other =
    let e : skip (d ∷ s) ≡ d ∷ s = rw other refl in
    ap (λ x. elim x [ [] ↦ none | d ∷ ds ↦ some (token (d ∷ ds), after (d ∷ ds)) ]) e

after_other : (d : ℕ) (s : List ℕ) → d == 47 ≡ false → after (d ∷ s) ≡ after s
unfolding after
after_other d s other = rw other refl

module _ (c : ℕ) (cs : List ℕ) (h : NoSlash (c ∷ cs)) where
  -- a path that still has the name at its end
  Left : ℕ → List ℕ → Type 0
  Left n r = (r ≡ c ∷ cs) ⊎ ((p : List ℕ) × (length p < n) × (r ≡ p ++ 47 ∷ c ∷ cs))

  after-join : (p : List ℕ) (n : ℕ) → length p < n → Left n (after (p ++ 47 ∷ c ∷ cs))
  unfolding after Left
  after-join [] n lt = inl refl
  after-join (d ∷ ds) n lt = elim (Bool-cases (d == 47)) [
    | inl slash ↦ inr (ds, omega arith, rw slash refl)
    | inr other ↦ rw other (after-join ds n (omega arith))
  ]

  Step : ℕ → List ℕ → Type 0
  Step n s =
      (t : List ℕ) × (r : List ℕ) × (strtok_r s ≡ some (t, r))
      × (((t ≡ c ∷ cs) × (r ≡ [])) ⊎ Left n r)

  strtok_r-join : (p : List ℕ) (n : ℕ) → length p ≤ n → Step n (p ++ 47 ∷ c ∷ cs)
  unfolding Step
  strtok_r-join [] n le =
      (c ∷ cs, [], strtok_r_slash 47 (c ∷ cs) refl ∙ strtok_r_name c cs h, inl (refl, refl))
  strtok_r-join (d ∷ ds) n le = elim (Bool-cases (d == 47)) [
    | inl slash ↦
        let (t, r, e, l) = strtok_r-join ds n (omega arith) in
        (t, r, strtok_r_slash d _ slash ∙ e, l)
    | inr other ↦ (
      token (d ∷ ds ++ 47 ∷ c ∷ cs),
      after (d ∷ ds ++ 47 ∷ c ∷ cs),
      strtok_r_other d (ds ++ 47 ∷ c ∷ cs) other,
      inr (
          subst (Left n) (sym (after_other d (ds ++ 47 ∷ c ∷ cs) other))
            (after-join ds n (omega arith))),
    )
  ]

  filename_loop-none : (n : ℕ) (prev : List ℕ) → filename_loop (suc n) [] prev ≡ some prev
  unfolding filename_loop strtok_r skip
  filename_loop-none n prev = refl

  filename_loop-step :
      (n : ℕ) (s t r prev : List ℕ)
      → strtok_r s ≡ some (t, r)
      → filename_loop (suc n) s prev ≡ filename_loop n r t
  unfolding filename_loop
  filename_loop-step n s t r prev e =
      ap (λ x. elim x [ none ↦ some prev | some y ↦ filename_loop n y.1 y.0 ]) e

  filename_loop-name :
      (n : ℕ) (prev : List ℕ) → filename_loop (suc (suc n)) (c ∷ cs) prev ≡ some (c ∷ cs)
  filename_loop-name n prev =
      filename_loop-step (suc n) (c ∷ cs) (c ∷ cs) [] prev (strtok_r_name c cs h)
      ∙ filename_loop-none n (c ∷ cs)

  filename_loop-join :
      (n : ℕ) (p prev : List ℕ)
      → length p + 2 ≤ n
      → filename_loop (suc n) (p ++ 47 ∷ c ∷ cs) prev ≡ some (c ∷ cs)
  unfolding Step Left
  filename_loop-join zero p prev le = absurd (omega arith)
  filename_loop-join (suc zero) p prev le = absurd (omega arith)
  filename_loop-join (suc (suc n)) p prev le =
      let (t, r, e, l) = strtok_r-join p (length p) (omega arith) in
      filename_loop-step (suc (suc n)) (p ++ 47 ∷ c ∷ cs) t r prev e ∙ elim l [
        | inl (is_name, end) ↦
            ap (λ x. filename_loop (suc (suc n)) x t) end
            ∙ filename_loop-none (suc n) t
            ∙ ap some is_name
        | inr (inl rest) ↦ ap (λ x. filename_loop (suc (suc n)) x t) rest ∙ filename_loop-name n t
        | inr (inr (q, shorter, rest)) ↦
            ap (λ x. filename_loop (suc (suc n)) x t) rest
            ∙ filename_loop-join (suc n) q t (omega arith)
      ]

  -- get_filename of a path that ends in "/" and a name without "/" that is not empty ends and
  -- gives that name, whatever stands before.
  pub get_filename-join : (p : List ℕ) → get_filename (p ++ 47 ∷ c ∷ cs) ≡ some (c ∷ cs)
  unfolding get_filename
  get_filename-join p =
      let size : length (p ++ 47 ∷ c ∷ cs) + 2 ≡ suc (length p + (length cs + 3)) =
        omega (arith, length-append p (47 ∷ c ∷ cs)) in
      ap (λ n. filename_loop n (p ++ 47 ∷ c ∷ cs) []) size
      ∙ filename_loop-join (length p + (length cs + 3)) p [] (omega arith)

module _ (I : Inodes) (laws : IsLawful I) where
  open I use {State, slots, inode_is_dir, inode_open, inode_close}

  -- Where a directory without double names holds a name other than "." and ".." for an inode
  -- that can be opened and is not a directory, the step of get_containing_dir for this name
  -- closes the inode and goes on in the same directory.
  pub walk_step-file :
      (rounds : ℕ) (memory : Bool) (s : State) (dir : Dir) (name : List ℕ) (x : ℕ)
      → IsDir I s dir.inode
      → slots s dir.inode < rounds
      → Holds I s dir.inode name x
      → strcmp_eq name dot ≡ false
      → strcmp_eq name dot_dot ≡ false
      → (inode_open s x).0 ≡ true
      → inode_is_dir (inode_open s x).1 x ≡ false
      → walk_step I rounds memory s dir name
        ≡ some (some (some dir), inode_close (inode_open s x).1 (some x))
  unfolding walk_step
  walk_step-file rounds memory s dir name x u h held not_dot not_up opened file =
      let found = (dir_lookup-Holds I laws rounds s dir name u h).0 x held in
      rw (not_dot, not_up, found, opened, file) refl
