-- ===== src/Thread/Frame.antt =====
-- threads/thread.c of prj1: changes that keep the ready list valid.
use os_326_omega.Prelude.{
  ℕ, ◌≤◌, ◌<◌, ◌≡◌, ◌≢◌, ◌⊎◌, refl, sym, ◌∙◌, ap, if◌then◌else◌, true, false, inl, inr, Bool-cases,
  List, [], ◌∷◌, some, arith,
}
use os_326_omega.Prelude.Panic.{◌>>=◌}
use os_326_omega.Prelude.Int.{ℤ, ltb_ℤ}
use os_326_omega.Ordered.Merge.{IsSorted}
use os_326_omega.Ordered.Sort.{list_sort-Sorted}
use os_326_omega.Thread.{
  Kernel, Thread, is_ready, is_running, update, compare_thread_priority, set_priority,
}
use os_326_omega.Thread.Schedule.{
  thread_super_yield, thread_set_priority, thread_current, change_priority,
}
use os_326_omega.Thread.Donation.{sort_ready}
use os_326_omega.Thread.Invariant.{
  count, count-sort, priority-IsOrder, IsValid, IsHighest, but_status, runnable, Runs,
}
use os_326_omega.Thread.Switch.{thread_super_yield-IsHighest, thread_current-IsValid, not_queued}

-- The order of a list depends on the priorities of its threads only.
pub IsSorted-priorities :
    (thread thread' : ℕ → Thread) (xs : List ℕ)
    → ((i : ℕ) → 0 < count i xs → (thread' i).priority ≡ (thread i).priority)
    → IsSorted (compare_thread_priority thread) xs
    → IsSorted (compare_thread_priority thread') xs
unfolding count
IsSorted-priorities thread thread' [] same h = tt
IsSorted-priorities thread thread' (a ∷ []) same h = (tt, tt)
IsSorted-priorities thread thread' (a ∷ b ∷ xs) same h = (
  ground (arith, same a, same b),
  IsSorted-priorities thread thread' (b ∷ xs) (λ i c. ground (arith, same i)) h.1,
)

-- A change that keeps the statuses, the queue and who runs, and the priorities of the ready threads.
pub record SameQueue (k k' : Kernel) : Type 0 where
  pub status : (i : ℕ) → (k'.thread i).status ≡ (k.thread i).status
  pub priority : (i : ℕ) → 0 < count i k.ready_list → (k'.thread i).priority ≡ (k.thread i).priority
  pub ready_list : k'.ready_list ≡ k.ready_list
  pub current : k'.current ≡ k.current
  pub mlfqs : k'.thread_mlfqs ≡ k.thread_mlfqs

pub SameQueue-IsValid : (k k' : Kernel) → SameQueue k k' → IsValid k → IsValid k'
SameQueue-IsValid k k' s v = record {
  current_runs = rw (s.current, s.status k.current) v.current_runs;
  alone = λ i h. v.alone i (ap is_running (sym (s.status i)) ∙ h) ∙ sym s.current;
  queued = λ i. rw (s.ready_list, s.status i) (v.queued i);
  sorted = λ m.
      rw s.ready_list (
        IsSorted-priorities k.thread k'.thread k.ready_list s.priority
          (v.sorted (sym s.mlfqs ∙ m)));
}

-- sort_ready of a state in which only the order of the ready list may be wrong makes it valid.
pub sort_ready-IsValid :
    (k : Kernel)
    → is_running (k.thread k.current).status ≡ true
    → ((i : ℕ) → is_running (k.thread i).status ≡ true → i ≡ k.current)
    → ((i : ℕ) → count i k.ready_list ≤ (if is_ready (k.thread i).status then 1 else 0))
    → (queue : List ℕ) × (sort_ready k ≡ some (record k { ready_list = queue }))
      × IsValid (record k { ready_list = queue })
unfolding sort_ready
sort_ready-IsValid k runs alone queued =
    let (queue, run, s) =
      list_sort-Sorted (compare_thread_priority k.thread) (priority-IsOrder k.thread)
        k.ready_list in
    (
      queue,
      ap (λ o. o >>= λ queue. some (record k { ready_list = queue })) run,
      record {
        current_runs = runs;
        alone = alone;
        queued = λ i. omega (arith, queued i, count-sort k.thread i k.ready_list queue s);
        sorted = λ m. s.sorted;
      },
    )

pub update_priority-SameQueue :
    (k : Kernel) (p : ℤ) → IsValid k → SameQueue k (set_priority k k.current p)
update_priority-SameQueue k p v = record {
  status = λ i. ground arith;
  priority = λ i h. ground (arith, not_queued k v);
  ready_list = refl;
  current = refl;
  mlfqs = refl;
}

update_ori-SameQueue :
    (k : Kernel) (p : ℤ)
    → SameQueue k (record k {
      thread = update k.thread k.current (record (k.thread k.current) { ori_priority = p });
    })
update_ori-SameQueue k p = record {
  status = λ i. ground arith;
  priority = λ i h. ground arith;
  ready_list = refl;
  current = refl;
  mlfqs = refl;
}

-- What thread_set_priority does: without donors, or above the donated priority, the running thread
-- gets the new priority; otherwise it keeps the donated one and saves the new one. Nothing but the
-- status of another thread changes, and apart from the idle thread the same threads run or are ready.
pub record PrioritySet (k k' : Kernel) (p : ℤ) : Type 0 where
  pub own :
      (((k.thread k.current).donation_list ≡ [] ⊎ ltb_ℤ (k.thread k.current).priority p ≡ true)
        × ((k'.thread k.current).priority ≡ p)
        × ((k'.thread k.current).ori_priority ≡ (k.thread k.current).ori_priority))
      ⊎ (((k.thread k.current).donation_list ≢ [])
          × (ltb_ℤ (k.thread k.current).priority p ≡ false)
          × ((k'.thread k.current).priority ≡ (k.thread k.current).priority)
          × ((k'.thread k.current).ori_priority ≡ p))
  pub others : (i : ℕ) → i ≢ k.current → but_status (k'.thread i) ≡ but_status (k.thread i)
  pub runs : Runs k k' (runnable k)

-- thread_set_priority of a valid state of the priority scheduler, outside an interrupt and with the
-- idle thread known, does not fail. The running thread gets the new priority if it has no donors or
-- the new one is greater than its own, and otherwise keeps its priority and saves the new one; the
-- other threads change in their status at most, and apart from the idle thread the same threads run
-- or are ready. Afterwards the state is valid and no ready thread has a greater priority than the
-- running one.
pub thread_set_priority-IsHighest :
    (k : Kernel) (i : ℕ) (p : ℤ)
    → IsValid k
    → k.thread_mlfqs ≡ false
    → k.intr_context ≡ false
    → k.idle_thread ≡ some i
    → (k' : Kernel) × (thread_set_priority k p ≡ some k')
      × IsValid k'
      × IsHighest k'
      × PrioritySet k k' p
unfolding thread_set_priority
thread_set_priority-IsHighest k i p v m c e =
    let (k', run, valid, highest, set) = go (k.thread k.current).donation_list refl in
    (
      k',
      ap
            (λ b.
              if b
              then some k
              else (thread_current k >>= λ t.
                  thread_super_yield (change_priority k t p (k.thread t).donation_list)))
            m
          ∙ ap
              (λ o.
                o >>= λ t. thread_super_yield (change_priority k t p (k.thread t).donation_list))
              (thread_current-IsValid k v)
          ∙ run,
      valid,
      highest,
      set,
    )
  where
    raised :
        (donors : List ℕ)
        → (k.thread k.current).donation_list ≡ donors
        → (donors ≡ [] ⊎ ltb_ℤ (k.thread k.current).priority p ≡ true)
        → (k' : Kernel) × (thread_super_yield (set_priority k k.current p) ≡ some k')
          × IsValid k'
          × IsHighest k'
          × PrioritySet k k' p
    raised donors r why =
        let k1 = set_priority k k.current p in
        let (k', run, valid, highest, same, runs) =
          thread_super_yield-IsHighest k1 i
            (SameQueue-IsValid k _ (update_priority-SameQueue k p v) v) m c e in
        (
          k',
          run,
          valid,
          highest,
          record {
            own = inl (
              elim why [ inl none_left ↦ inl (r ∙ none_left) | inr above ↦ inr above ],
              ap Thread.priority (same.thread k.current) ∙ ground arith,
              ap Thread.ori_priority (same.thread k.current) ∙ ground arith,
            );
            others = λ j h. same.thread j ∙ ground arith;
            runs = runs;
          },
        )

    saved :
        (d : ℕ) (ds : List ℕ)
        → (k.thread k.current).donation_list ≡ d ∷ ds
        → ltb_ℤ (k.thread k.current).priority p ≡ false
        → (k' : Kernel) × (thread_super_yield (record k {
          thread = update k.thread k.current (record (k.thread k.current) { ori_priority = p });
        })
            ≡ some k')
          × IsValid k'
          × IsHighest k'
          × PrioritySet k k' p
    saved d ds r below =
        let (k', run, valid, highest, same, runs) =
          thread_super_yield-IsHighest _ i (SameQueue-IsValid k _ (update_ori-SameQueue k p) v) m c
            e in
        (
          k',
          run,
          valid,
          highest,
          record {
            own = inr (
              λ h. cc,
              below,
              ap Thread.priority (same.thread k.current) ∙ ground arith,
              ap Thread.ori_priority (same.thread k.current) ∙ ground arith,
            );
            others = λ j h. same.thread j ∙ ground arith;
            runs = runs;
          },
        )

    go :
        (donors : List ℕ)
        → (k.thread k.current).donation_list ≡ donors
        → (k' : Kernel) × (thread_super_yield (change_priority k k.current p donors) ≡ some k')
          × IsValid k'
          × IsHighest k'
          × PrioritySet k k' p
    go [] r = raised [] r (inl refl)
    go (d ∷ ds) r = elim (Bool-cases (ltb_ℤ (k.thread k.current).priority p)) [
      | inl above ↦ rw above (raised (d ∷ ds) r (inr above))
      | inr below ↦ rw below (saved d ds r below)
    ]
