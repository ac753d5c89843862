-- ===== src/Ordered/Sort.antt =====
-- lib/kernel/list.c: list_sort.
use os_326_omega.Prelude.{
  ℕ, zero, suc, ◌+◌, ◌*◌, ◌≤◌, ◌<◌, ◌≡◌, refl, sym, Bool, Bool-cases, inl, inr, if◌then◌else◌, ltb,
  ltb→lt, List, [], ◌∷◌, ◌++◌, append_assoc, append-nil, some, arith, filter, filter-append, ap,
  ◌∙◌, subst, length,
}
use os_326_omega.Ordered.{
  find_end_of_run, merge_loop, inplace_merge, sort_pass, sort_loop, list_sort,
}
use os_326_omega.Ordered.Merge.{
  IsOrder, IsSorted, SameRank, is_sorted-IsSorted, find_end_of_run-append, merge_loop-IsSorted,
  merge_loop-filter,
}

module _ {ℓ} {A : Type ℓ} (less : A → A → Bool) where
  -- the maximal runs of a list
  breaks : A → List A → ℕ
  breaks a [] = 0
  breaks a (b ∷ xs) = (if less b a then 1 else 0) + breaks b xs

  runs : List A → ℕ
  runs [] = 0
  runs (a ∷ xs) = breaks a xs + 1

  breaks-le : (a : A) (xs : List A) → breaks a xs ≤ length xs
  unfolding breaks
  breaks-le a [] = omega arith
  breaks-le a (b ∷ xs) = ground (arith, breaks-le b xs)

  runs-le : (xs : List A) → runs xs ≤ length xs
  unfolding runs
  runs-le [] = omega arith
  runs-le (a ∷ xs) = omega (arith, breaks-le a xs)

  one_run : (xs : List A) → runs xs ≤ 1 → IsSorted less xs
  unfolding runs breaks
  one_run [] h = tt
  one_run (a ∷ []) h = (tt, tt)
  one_run (a ∷ b ∷ xs) h = ground (arith, one_run (b ∷ xs))

  find_end_of_run-IsSorted : (a : A) (xs : List A) → IsSorted less (find_end_of_run less a xs).0
  unfolding find_end_of_run
  find_end_of_run-IsSorted a [] = (tt, tt)
  find_end_of_run-IsSorted a (b ∷ []) = ground arith
  find_end_of_run-IsSorted a (b ∷ c ∷ xs) = ground (arith, find_end_of_run-IsSorted b (c ∷ xs))

  find_end_of_run-runs :
      (a : A) (xs : List A) → runs (a ∷ xs) ≡ runs (find_end_of_run less a xs).1 + 1
  unfolding runs breaks find_end_of_run
  find_end_of_run-runs a [] = refl
  find_end_of_run-runs a (b ∷ xs) = ground (arith, find_end_of_run-runs b xs)

  find_end_of_run-length : (a : A) (xs : List A) → length (find_end_of_run less a xs).1 ≤ length xs
  unfolding find_end_of_run
  find_end_of_run-length a [] = omega arith
  find_end_of_run-length a (b ∷ xs) = ground (arith, find_end_of_run-length b xs)

  runs-append : (xs ys : List A) → IsSorted less xs → runs (xs ++ ys) ≤ runs ys + 1
  unfolding runs breaks
  runs-append [] ys h = omega arith
  runs-append (a ∷ []) [] h = omega arith
  runs-append (a ∷ []) (b ∷ ys) h = ground arith
  runs-append (a ∷ b ∷ xs) ys h = ground (arith, runs-append (b ∷ xs) ys)

-- What a pass over `xs` gives: at most half of the runs, rounded up, and the order within each rank.
record Passed {ℓ} {A : Type ℓ} (less : A → A → Bool) (xs : List A) (r : List A × ℕ) : Type ℓ where
  fewer : runs less r.0 ≤ r.1
  half : 2 * r.1 ≤ runs less xs + 1
  stable : (p : A → Bool) → SameRank less p → filter p r.0 ≡ filter p xs

-- What sorting gives: a sorted list with the elements of each rank in the order they had.
pub record Sorted {ℓ} {A : Type ℓ} (less : A → A → Bool) (xs ys : List A) : Type ℓ where
  pub sorted : IsSorted less ys
  pub stable : (p : A → Bool) → SameRank less p → filter p ys ≡ filter p xs

module _ {ℓ} {A : Type ℓ} (less : A → A → Bool) (o : IsOrder less) where
  inplace_merge-total :
      (xs ys : List A)
      → IsSorted less xs
      → IsSorted less ys
      → inplace_merge less xs ys ≡ some (merge_loop less xs ys)
  unfolding inplace_merge
  inplace_merge-total xs ys h k =
      rw (is_sorted-IsSorted less xs h, is_sorted-IsSorted less ys k) refl

  last_run :
      (n : ℕ) (x : A) (xs : List A)
      → (find_end_of_run less x xs).1 ≡ []
      → sort_pass less (suc n) (x ∷ xs) ≡ some ((find_end_of_run less x xs).0, 1)
  unfolding sort_pass
  last_run n x xs e = rw (e, sort_pass)

  two_runs :
      (n : ℕ) (x : A) (xs : List A) {y : A} {ys : List A} {r : List A × ℕ}
      → (find_end_of_run less x xs).1 ≡ y ∷ ys
      → sort_pass less n (find_end_of_run less y ys).1 ≡ some r
      → sort_pass less (suc n) (x ∷ xs)
        ≡ some (
          merge_loop less (find_end_of_run less x xs).0 (find_end_of_run less y ys).0 ++ r.0,
          r.1 + 1,
        )
  unfolding sort_pass
  two_runs n x xs {y} {ys} e k =
      rw (e, sort_pass)
        (rw
          (
            inplace_merge-total _ _ (find_end_of_run-IsSorted less x xs)
                (find_end_of_run-IsSorted less y ys),
            k,
          )
          refl)

  filter_runs :
      (p : A → Bool) (x : A) (xs : List A) {rest : List A}
      → (find_end_of_run less x xs).1 ≡ rest
      → filter p (find_end_of_run less x xs).0 ++ filter p rest ≡ filter p (x ∷ xs)
  filter_runs p x xs e =
      let first = find_end_of_run less x xs in
      ap (λ zs. filter p first.0 ++ filter p zs) (sym e)
      ∙ sym (filter-append p first.0 first.1)
      ∙ ap (filter p) (find_end_of_run-append less x xs)

  one_left :
      (x : A) (xs : List A)
      → (find_end_of_run less x xs).1 ≡ []
      → Passed less (x ∷ xs) ((find_end_of_run less x xs).0, 1)
  unfolding runs
  one_left x xs e =
      let first = (find_end_of_run less x xs).0 in
      let s : IsSorted less first = find_end_of_run-IsSorted less x xs in
      let le : runs less (first ++ []) ≤ runs less [] + 1 = runs-append less first [] s in
      record {
        fewer = subst (λ zs. runs less zs ≤ 1) (append-nil first) le;
        half = omega arith;
        stable = λ p q. sym (append-nil (filter p first)) ∙ filter_runs p x xs e;
      }

  merged_runs :
      (x : A) (xs : List A) {y : A} {ys : List A} {r : List A × ℕ}
      → (find_end_of_run less x xs).1 ≡ y ∷ ys
      → Passed less (find_end_of_run less y ys).1 r
      → Passed less (x ∷ xs) (
        merge_loop less (find_end_of_run less x xs).0 (find_end_of_run less y ys).0 ++ r.0,
        r.1 + 1,
      )
  merged_runs x xs {y} {ys} {r} e ih =
      let first = find_end_of_run less x xs in
      let second = find_end_of_run less y ys in
      let s1 : IsSorted less first.0 = find_end_of_run-IsSorted less x xs in
      let s2 : IsSorted less second.0 = find_end_of_run-IsSorted less y ys in
      record {
        fewer = omega (
          arith,
          ih.fewer,
          runs-append less (merge_loop less first.0 second.0) r.0
              (merge_loop-IsSorted less o first.0 second.0 s1 s2),
        );
        half = omega (
          arith,
          ih.half,
          find_end_of_run-runs less x xs,
          ap (runs less) e,
          find_end_of_run-runs less y ys,
        );
        stable = λ p q.
            filter-append p (merge_loop less first.0 second.0) r.0
            ∙ rw
                (
                  merge_loop-filter less o p q first.0 second.0 s1 s2,
                  ih.stable p q,
                  append_assoc (filter p first.0) (filter p second.0) (filter p second.1),
                  filter_runs p y ys refl,
                )
                (filter_runs p x xs e);
      }

  sort_pass-Passed :
      (n : ℕ) (xs : List A)
      → length xs ≤ n
      → (r : List A × ℕ) × (sort_pass less n xs ≡ some r) × Passed less xs r
  unfolding sort_pass runs
  sort_pass-Passed n [] h =
      (([], 0), refl, record { fewer = omega arith; half = omega arith; stable = λ p q. refl })
  sort_pass-Passed zero (x ∷ xs) h = absurd (omega arith)
  sort_pass-Passed (suc n) (x ∷ xs) h =
      go (λ zs. sort_pass-Passed n zs) (find_end_of_run less x xs).1 refl
    where
      go :
          ((zs : List A)
            → length zs ≤ n
            → (r : List A × ℕ) × (sort_pass less n zs ≡ some r) × Passed less zs r)
          → (rest : List A) → (find_end_of_run less x xs).1 ≡ rest
          → (r : List A × ℕ) × (sort_pass less (suc n) (x ∷ xs) ≡ some r) × Passed less (x ∷ xs) r
      go ih [] e = (_, last_run n x xs e, one_left x xs e)
      go ih (y ∷ ys) e =
          let (r, run, passed) = ih (find_end_of_run less y ys).1 (
            omega (
              arith,
              find_end_of_run-length less x xs,
              ap length e,
              find_end_of_run-length less y ys,
            )) in
          (_, two_runs n x xs e run, merged_runs x xs e passed)

  sort_loop-Sorted :
      (n : ℕ) (xs : List A)
      → runs less xs < n
      → (ys : List A) × (sort_loop less n xs ≡ some ys) × Sorted less xs ys
  unfolding sort_loop
  sort_loop-Sorted zero xs h = absurd (omega arith)
  sort_loop-Sorted (suc n) xs h =
      let ((ys, c), run, passed) = sort_pass-Passed (length xs) xs (omega arith) in
      elim (Bool-cases (ltb 1 c)) [
        | inl more ↦
            let (zs, rest, s) =
              sort_loop-Sorted n ys (omega (arith, passed.fewer, passed.half, ltb→lt 1 c more)) in
            (
              zs,
              rw (run, more) rest,
              record { sorted = s.sorted; stable = λ p q. s.stable p q ∙ passed.stable p q },
            )
        | inr last ↦
            let s : IsSorted less ys = one_run less ys (ground (arith, passed.fewer)) in
            (
              ys,
              rw (run, last, is_sorted-IsSorted less ys s) refl,
              record { sorted = s; stable = passed.stable },
            )
      ]

  -- list_sort of any list by a strict weak order ends without a failed ASSERT. The result is sorted,
  -- and the elements of each rank stand in it as often and in the same order as in the list.
  pub list_sort-Sorted :
      (xs : List A) → (ys : List A) × (list_sort less xs ≡ some ys) × Sorted less xs ys
  unfolding list_sort
  list_sort-Sorted xs = sort_loop-Sorted (length xs + 1) xs (omega (arith, runs-le less xs))
