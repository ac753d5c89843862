-- ===== src/Ordered/Merge.antt =====
-- lib/kernel/list.c: runs, merging and ordered insertion.
use os_326_omega.Prelude.{
  ◌≡◌, refl, sym, Bool, true, false, Bool-cases, inl, inr, if◌then◌else◌, List, [], ◌∷◌, ◌++◌,
  arith, filter, append-nil,
}
use os_326_omega.Ordered.{is_sorted, find_end_of_run, merge_loop, list_insert_ordered}

-- A strict weak order.
pub record IsOrder {ℓ} {A : Type ℓ} (less : A → A → Bool) : Type ℓ where
  pub asym : (a b : A) → less a b ≡ true → less b a ≡ false
  pub trans : (a b c : A) → less a b ≡ true → less c b ≡ false → less a c ≡ true

-- Each element is not less than the one before it.
abbrev pub IsNotBelow {ℓ} : {A : Type ℓ} → (A → A → Bool) → A → List A → Type 0
IsNotBelow less a [] = Unit
IsNotBelow less a (b ∷ xs) = less b a ≡ false

abbrev pub IsSorted {ℓ} : {A : Type ℓ} → (A → A → Bool) → List A → Type 0
IsSorted less [] = Unit
IsSorted less (a ∷ xs) = IsNotBelow less a xs × IsSorted less xs

-- `p` holds of elements of one rank only.
abbrev pub SameRank {ℓ} : {A : Type ℓ} → (A → A → Bool) → (A → Bool) → Type ℓ
SameRank {A} less p = (a b : A) → p a ≡ true → p b ≡ true → less a b ≡ false

module _ {ℓ} {A : Type ℓ} (less : A → A → Bool) where
  pub is_sorted-IsSorted : (xs : List A) → IsSorted less xs → is_sorted less xs ≡ true
  unfolding is_sorted
  is_sorted-IsSorted [] h = refl
  is_sorted-IsSorted (a ∷ []) h = refl
  is_sorted-IsSorted (a ∷ b ∷ xs) h = rw (h.0) (is_sorted-IsSorted (b ∷ xs) h.1)

  pub find_end_of_run-append :
      (a : A) (xs : List A)
      → (find_end_of_run less a xs).0 ++ (find_end_of_run less a xs).1 ≡ a ∷ xs
  unfolding find_end_of_run
  find_end_of_run-append a [] = refl
  find_end_of_run-append a (b ∷ xs) = ground (arith, find_end_of_run-append b xs)

  merge_right :
      (x y : A) (xs ys : List A)
      → less y x ≡ true
      → merge_loop less (x ∷ xs) (y ∷ ys) ≡ y ∷ merge_loop less (x ∷ xs) ys
  unfolding merge_loop
  merge_right x y xs ys e = rw (e, merge_loop)

  merge_left :
      (x y : A) (xs ys : List A)
      → less y x ≡ false
      → merge_loop less (x ∷ xs) (y ∷ ys) ≡ x ∷ merge_loop less xs (y ∷ ys)
  unfolding merge_loop
  merge_left x y xs ys e = rw (e, merge_loop)

module _ {ℓ} {A : Type ℓ} (less : A → A → Bool) (o : IsOrder less) where
  open o use {asym, trans}

  merge_head :
      (z : A) (xs ys : List A)
      → IsNotBelow less z xs
      → IsNotBelow less z ys
      → IsNotBelow less z (merge_loop less xs ys)
  unfolding merge_loop
  merge_head z [] ys h k = k
  merge_head z (x ∷ xs) [] h k = h
  merge_head z (x ∷ xs) (y ∷ ys) h k = elim (Bool-cases (less y x)) [
    | inl e ↦ rw (merge_right less x y xs ys e) k
    | inr e ↦ rw (merge_left less x y xs ys e) h
  ]

  pub merge_loop-IsSorted :
      (xs ys : List A) → IsSorted less xs → IsSorted less ys → IsSorted less (merge_loop less xs ys)
  unfolding merge_loop
  merge_loop-IsSorted [] ys h k = k
  merge_loop-IsSorted (x ∷ xs) [] h k = h
  merge_loop-IsSorted (x ∷ xs) (y ∷ ys) h k = elim (Bool-cases (less y x)) [
    | inl e ↦
        rw (merge_right less x y xs ys e)
          (merge_head y (x ∷ xs) ys (asym y x e) k.0, merge_loop-IsSorted (x ∷ xs) ys h k.1)
    | inr e ↦
        rw (merge_left less x y xs ys e)
          (merge_head x xs (y ∷ ys) h.0 e, merge_loop-IsSorted xs (y ∷ ys) h.1 k)
  ]

  -- An element below the head of a sorted list has no equal in it.
  none_of_rank :
      (p : A → Bool)
      → SameRank less p
      → (y x : A) (xs : List A) → p y ≡ true
      → less y x ≡ true
      → IsSorted less (x ∷ xs)
      → filter p (x ∷ xs) ≡ []
  none_of_rank p r y x [] py lt h = ground (arith, r y x)
  none_of_rank p r y x (z ∷ xs) py lt h =
      ground (arith, r y x, trans y x z, none_of_rank p r y z xs)

  -- Elements of one rank keep their order, those of the first list first.
  pub merge_loop-filter :
      (p : A → Bool)
      → SameRank less p
      → (xs ys : List A) → IsSorted less xs
      → IsSorted less ys
      → filter p (merge_loop less xs ys) ≡ filter p xs ++ filter p ys
  unfolding merge_loop
  merge_loop-filter p r [] ys h k = refl
  merge_loop-filter p r (x ∷ xs) [] h k = sym (append-nil (filter p (x ∷ xs)))
  merge_loop-filter p r (x ∷ xs) (y ∷ ys) h k = elim (Bool-cases (less y x)) [
    | inl e ↦ ground (arith, none_of_rank p r y x xs, merge_loop-filter p r (x ∷ xs) ys)
    | inr e ↦ ground (arith, merge_loop-filter p r xs (y ∷ ys))
  ]

  insert_head :
      (z a : A) (xs : List A)
      → less a z ≡ false
      → IsNotBelow less z xs
      → IsNotBelow less z (list_insert_ordered less a xs)
  unfolding list_insert_ordered
  insert_head z a [] h k = h
  insert_head z a (e ∷ xs) h k = ground arith

  -- Ordered insertion keeps a list sorted,
  pub list_insert_ordered-IsSorted :
      (a : A) (xs : List A) → IsSorted less xs → IsSorted less (list_insert_ordered less a xs)
  unfolding list_insert_ordered
  list_insert_ordered-IsSorted a [] h = (tt, tt)
  list_insert_ordered-IsSorted a (e ∷ xs) h = elim (Bool-cases (less a e)) [
    | inl lt ↦ rw lt (asym a e lt, h)
    | inr ge ↦ rw ge (insert_head e a xs ge h.0, list_insert_ordered-IsSorted a xs h.1)
  ]

  -- and puts the element behind those of its rank.
  pub list_insert_ordered-filter :
      (p : A → Bool)
      → SameRank less p
      → (a : A) (xs : List A) → IsSorted less xs
      → filter p (list_insert_ordered less a xs) ≡ filter p xs ++ filter p (a ∷ [])
  unfolding list_insert_ordered
  list_insert_ordered-filter p r a [] h = refl
  list_insert_ordered-filter p r a (e ∷ xs) h = elim (Bool-cases (less a e)) [
    | inl lt ↦ rw lt (elim (Bool-cases (p a)) [
      | inl pa ↦ rw (none_of_rank p r a e xs pa lt h, pa) refl
      | inr pa ↦ rw pa (sym (append-nil (filter p (e ∷ xs))))
    ])
    | inr ge ↦
        rw (ge, list_insert_ordered-filter p r a xs h.1) (head e (filter p xs) (filter p (a ∷ [])))
  ]
    where
      head :
          (e : A) (us vs : List A)
          → (if p e then e ∷ (us ++ vs) else us ++ vs) ≡ (if p e then e ∷ us else us) ++ vs
      head e us vs = ground arith
