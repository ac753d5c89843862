-- ===== src/Ordered.antt =====
-- lib/kernel/list.c of prj1: the functions on lists that are ordered by a comparison. A list is the
-- sequence of its elements; a pair of list elements that delimits a range is the sequence between them.
pub mod Merge
pub mod Sort
use os_326_omega.Prelude.{
  ℕ, zero, suc, ◌+◌, Bool, true, false, not, ◌&&◌, if◌then◌else◌, ltb, List, [], ◌∷◌, ◌++◌, Option,
  some, none, length,
}
use os_326_omega.Prelude.Panic.{◌>>=◌, ◌>>◌, assert}

module _ {ℓ} {A : Type ℓ} (less : A → A → Bool) where
  unfoldable pub is_sorted : List A → Bool
  is_sorted [] = true
  is_sorted (a ∷ []) = true
  is_sorted (a ∷ b ∷ xs) = if less b a then false else is_sorted (b ∷ xs)

  -- The run that starts with `a`, and what is left of the list.
  unfoldable pub find_end_of_run : A → List A → List A × List A
  find_end_of_run a [] = (a ∷ [], [])
  find_end_of_run a (b ∷ xs) =
      let later = find_end_of_run b xs in
      if not (less b a) then (a ∷ later.0, later.1) else (a ∷ [], b ∷ xs)

  -- the loop of inplace_merge
  unfoldable pub merge_loop : List A → List A → List A
  merge_loop [] ys = ys
  merge_loop (x ∷ xs) [] = x ∷ xs
  merge_loop (x ∷ xs) (y ∷ ys) = elim (not (less y x)) [
    | true ↦ x ∷ merge_loop xs (y ∷ ys)
    | false ↦ y ∷ merge_loop (x ∷ xs) ys
  ]

  unfoldable pub inplace_merge : List A → List A → Option (List A)
  inplace_merge xs ys = do assert (is_sorted xs); assert (is_sorted ys); some (merge_loop xs ys)

  -- One pass of list_sort: the new list and output_run_cnt. `n` bounds the rounds.
  unfoldable pub sort_pass : ℕ → List A → Option (List A × ℕ)
  sort_pass n [] = some ([], 0)
  sort_pass zero (x ∷ xs) = none
  sort_pass (suc n) (x ∷ xs) =
      let first = find_end_of_run x xs in
      elim first.1 [
        | [] ↦ some (first.0, 1)
        | y ∷ ys ↦
            let second = find_end_of_run y ys in
            inplace_merge first.0 second.0 >>= λ merged.
            sort_pass n second.1 >>= λ later. some (merged ++ later.0, later.1 + 1)
      ]

  unfoldable pub sort_loop : ℕ → List A → Option (List A)
  sort_loop zero xs = none
  sort_loop (suc n) xs = sort_pass (length xs) xs >>= λ pass.
      let again = sort_loop n pass.0 in
      let done = assert (is_sorted pass.0) >> some pass.0 in if ltb 1 pass.1 then again else done

  unfoldable pub list_sort : List A → Option (List A)
  list_sort xs = sort_loop (length xs + 1) xs

  unfoldable pub list_insert_ordered : A → List A → List A
  list_insert_ordered a [] = a ∷ []
  list_insert_ordered a (e ∷ xs) = if less a e then a ∷ e ∷ xs else e ∷ list_insert_ordered a xs

  -- the loop of list_unique from `elem` on: the list without duplicates, and the duplicates
  unfoldable pub unique_loop : A → List A → List A × List A
  unique_loop a [] = (a ∷ [], [])
  unique_loop a (b ∷ xs) =
      let dropped : List A × List A = (let rest = unique_loop a xs in (rest.0, b ∷ rest.1)) in
      let kept : List A × List A = (let rest = unique_loop b xs in (a ∷ rest.0, rest.1)) in
      if not (less a b) && not (less b a) then dropped else kept

  unfoldable pub list_unique : List A → List A × List A
  list_unique [] = ([], [])
  list_unique (a ∷ xs) = unique_loop a xs

  unfoldable pub max_loop : A → List A → A
  max_loop m [] = m
  max_loop m (e ∷ xs) = max_loop (if less m e then e else m) xs

  -- The tail that the code returns for an empty list is `none`.
  unfoldable pub list_max : List A → Option A
  list_max [] = none
  list_max (a ∷ xs) = some (max_loop a xs)

  unfoldable pub min_loop : A → List A → A
  min_loop m [] = m
  min_loop m (e ∷ xs) = min_loop (if less e m then e else m) xs

  unfoldable pub list_min : List A → Option A
  list_min [] = none
  list_min (a ∷ xs) = some (min_loop a xs)
