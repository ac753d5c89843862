-- ===== src/Thread/Switch.antt =====
-- threads/thread.c of prj1: switches run a thread of the greatest priority.
use os_326_omega.Prelude.{
  ℕ, ◌+◌, ◌≤◌, ◌<◌, ◌≡◌, refl, sym, ◌∙◌, ap, subst, fun_ext, ◌==◌, if◌then◌else◌, Bool, true, false,
  not, inl, inr, Bool-cases, ==_iff, List, [], ◌∷◌, Option, some, arith,
}
use os_326_omega.Prelude.Panic.{◌>>=◌, ◌>>◌, assert, assert-true}
use os_326_omega.Prelude.Int.{ltb_ℤ, ◌≤ℤ◌}
use os_326_omega.Ordered.{list_insert_ordered, list_sort}
use os_326_omega.Ordered.Merge.{IsSorted, list_insert_ordered-IsSorted}
use os_326_omega.Ordered.Sort.{Sorted, list_sort-Sorted}
use os_326_omega.Thread.{
  Kernel, Status, running, ready, is_ready, is_running, is_blocked, compare_thread_priority,
  set_status, is_address,
}
use os_326_omega.Thread.Schedule.{
  thread_current, thread_unblock, next_thread_to_run, thread_schedule_tail, schedule, thread_yield,
  thread_super_yield, idle_next,
}
use os_326_omega.Thread.Invariant.{
  count, count-insert, count-sort, priority-IsOrder, head_highest, IsValid, IsSuspended, IsHighest,
  SameData, SameData-refl, SameData-trans, Runs, runnable,
}

-- What next_thread_to_run chooses: the thread and the ready list without it.
record Next (k : Kernel) (n : ℕ) (rest : List ℕ) : Type 0 where
  run : next_thread_to_run k ≡ some (n, record k { ready_list = rest })
  others : (i : ℕ) → count i rest ≤ (if n == i then 0 else count i k.ready_list)
  order : k.thread_mlfqs ≡ false → IsSorted (compare_thread_priority k.thread) rest
  highest : (i : ℕ) → 0 < count i rest → (k.thread i).priority ≤ℤ (k.thread n).priority
  kept :
      (i : ℕ)
      → is_address k.idle_thread i ≡ false
      → count i rest + (if n == i then 1 else 0) ≡ count i k.ready_list

no_ready : (k : Kernel) → k.ready_list ≡ [] → next_thread_to_run k ≡ idle_next k k.idle_thread
unfolding next_thread_to_run
no_ready k e = ground arith

idle_Next : (k : Kernel) (n : ℕ) → k.ready_list ≡ [] → k.idle_thread ≡ some n → Next k n []
unfolding next_thread_to_run count
idle_Next k n e f = record {
  run = no_ready k e ∙ ap (idle_next k) f ∙ ap (λ l. some (n, record k { ready_list = l })) e;
  others = λ i. ground arith;
  order = λ m. tt;
  highest = λ i h. absurd (omega arith);
  kept = λ i h. ground (arith, f);
}

-- popping a sorted list that holds each ready thread once
pop_Next :
    (k : Kernel) (n : ℕ) (rest : List ℕ)
    → next_thread_to_run k ≡ some (n, record k { ready_list = rest })
    → IsSuspended k
    → ((i : ℕ) → count i (n ∷ rest) ≡ count i k.ready_list)
    → IsSorted (compare_thread_priority k.thread) (n ∷ rest)
    → Next k n rest
unfolding count
pop_Next k n rest run v same s = record {
  run = run;
  others = λ i. ground (arith, same i, v.queued i);
  order = λ m. s.1;
  highest = head_highest k.thread n rest s;
  kept = λ i h. ground (arith, same i);
}

feedback_Next :
    (k : Kernel) (t : ℕ) (ts ys : List ℕ)
    → k.ready_list ≡ t ∷ ts
    → k.thread_mlfqs ≡ true
    → list_sort (compare_thread_priority k.thread) (t ∷ ts) ≡ some ys
    → Sorted (compare_thread_priority k.thread) (t ∷ ts) ys
    → IsSuspended k
    → (n : ℕ) × (rest : List ℕ) × Next k n rest
unfolding next_thread_to_run count
feedback_Next k t ts [] e m run s v = absurd (ground (arith, count-sort k.thread t (t ∷ ts) [] s))
feedback_Next k t ts (n ∷ rest) e m run s v = (
  n,
  rest,
  pop_Next k n rest (rw (e, next_thread_to_run, m, run) refl) v
      (λ i. count-sort k.thread i (t ∷ ts) (n ∷ rest) s ∙ ap (count i) (sym e)) s.sorted,
)

ready_Next :
    (k : Kernel) (t : ℕ) (ts : List ℕ)
    → k.ready_list ≡ t ∷ ts
    → IsSuspended k
    → (n : ℕ) × (rest : List ℕ) × Next k n rest
unfolding next_thread_to_run count
ready_Next k t ts e v = elim (Bool-cases k.thread_mlfqs) [
  | inl m ↦
      let less = compare_thread_priority k.thread in
      let (ys, run, s) = list_sort-Sorted less (priority-IsOrder k.thread) (t ∷ ts) in
      feedback_Next k t ts ys e m run s v
  | inr m ↦ (
    t,
    ts,
    pop_Next k t ts (rw (e, next_thread_to_run, m) refl) v (λ i. ap (count i) (sym e))
        (subst (λ l. IsSorted (compare_thread_priority k.thread) l) e (v.sorted m)),
  )
]

compare-set_status :
    (k : Kernel) (t : ℕ) (s : Status)
    → compare_thread_priority (set_status k t s).thread ≡ compare_thread_priority k.thread
compare-set_status k t s = fun_ext (λ a. fun_ext (λ b. ground arith))

-- A switch that succeeds: no ready thread has a greater priority than the one that runs, and the
-- threads that run or are ready are those that `r` counts.
abbrev pub Switched : Kernel → Option Kernel → (ℕ → ℕ) → Type 0
Switched k o r =
    (k' : Kernel) × (o ≡ some k') × IsValid k' × IsHighest k' × SameData k k' × Runs k k' r

-- A switch runs a thread, and no ready thread has a greater priority.
switched :
    (k : Kernel) (n : ℕ) (rest : List ℕ)
    → IsSuspended k
    → Next k n rest
    → Switched k (schedule k) (λ i. count i k.ready_list)
unfolding schedule thread_schedule_tail
switched k n rest v x =
    let after = set_status (record k { ready_list = rest; current = n }) n running in
    (
      record after { thread_ticks = 0 },
      rw (v.idle k.current, x.run) refl,
      record {
        current_runs = ground arith;
        alone = λ i h. ground (arith, v.idle i);
        queued = λ i. ground (arith, x.others i, v.queued i);
        sorted = λ m. rw (compare-set_status k n running) (x.order m);
      },
      λ i h. ground (arith, x.highest i h),
      record {
        thread = λ i. ground arith;
        lock = refl;
        waiter = refl;
        condition = refl;
        idle_thread = refl;
        mlfqs = refl;
        intr_context = refl;
      },
      x.kept,
    )

-- A switch goes to some thread where one is ready or the idle thread is known.
switch_IsHighest :
    (k : Kernel) {i : ℕ}
    → IsSuspended k
    → k.idle_thread ≡ some i
    → Switched k (schedule k) (λ i. count i k.ready_list)
switch_IsHighest k {i} v e = go k.ready_list refl
  where
    go : (l : List ℕ) → k.ready_list ≡ l → Switched k (schedule k) (λ i. count i k.ready_list)
    go [] r = switched k i [] v (idle_Next k i r e)
    go (t ∷ ts) r = let (n, rest, x) = ready_Next k t ts r v in switched k n rest v x

not_both : (s : Status) → is_running s ≡ true → is_ready s ≡ false
not_both s h = ground arith

pub not_queued : (k : Kernel) → IsValid k → count k.current k.ready_list ≡ 0
not_queued k v =
    ground (arith, v.queued k.current, not_both (k.thread k.current).status v.current_runs)

-- How thread_block and thread_exit leave the running thread: with another status.
IsSuspended-set_status :
    (k : Kernel) (s : Status)
    → IsValid k
    → is_running s ≡ false
    → IsSuspended (set_status k k.current s)
IsSuspended-set_status k s v h = record {
  idle = λ i. ground (arith, v.alone i);
  queued = λ i. ground (arith, v.queued i, not_queued k v);
  sorted = λ m. rw (compare-set_status k k.current s) (v.sorted m);
}

-- How thread_yield leaves it: ready, and in the list again.
requeue : Kernel → Kernel
requeue k =
    let queue = list_insert_ordered (compare_thread_priority k.thread) k.current k.ready_list in
    set_status (record k { ready_list = queue }) k.current ready

requeue_idle : (k : Kernel) → (requeue k).idle_thread ≡ k.idle_thread
unfolding requeue
requeue_idle k = refl

requeue-IsSuspended : (k : Kernel) → IsValid k → IsSuspended (requeue k)
unfolding requeue count
requeue-IsSuspended k v =
    let less = compare_thread_priority k.thread in
    record {
      idle = λ i. ground (arith, v.alone i);
      queued = λ i.
          ground (arith, v.queued i, not_queued k v, count-insert less i k.current k.ready_list);
      sorted = λ m. rw (compare-set_status k k.current ready) (
          list_insert_ordered-IsSorted less (priority-IsOrder k.thread) k.current k.ready_list
            (v.sorted m));
    }

pub thread_current-IsValid : (k : Kernel) → IsValid k → thread_current k ≡ some k.current
unfolding thread_current
thread_current-IsValid k v = assert-true _ (some k.current) v.current_runs

thread_yield_run :
    (k : Kernel)
    → IsValid k
    → k.intr_context ≡ false
    → thread_yield k ≡ (
        if is_address k.idle_thread k.current
        then schedule (set_status k k.current ready)
        else schedule (requeue k))
unfolding thread_yield requeue
thread_yield_run k v c =
    ap
      (λ o. o >>= λ cur.
        assert (not k.intr_context)
        >> (let queue = list_insert_ordered (compare_thread_priority k.thread) cur k.ready_list in
            schedule (
              set_status
                (if is_address k.idle_thread cur then k else record k { ready_list = queue }) cur
                ready)))
      (thread_current-IsValid k v)
    ∙ assert-true _ _ (ap not c)
    ∙ distribute (is_address k.idle_thread k.current)
  where
    distribute :
        (b : Bool)
        → schedule (
            set_status
              (if b then k else record k {
                ready_list =
                    list_insert_ordered (compare_thread_priority k.thread) k.current k.ready_list;
              })
              k.current
              ready)
          ≡ (if b then schedule (set_status k k.current ready) else schedule (requeue k))
    distribute true = refl
    distribute false = refl

-- another status of the running thread
set_status-SameData : (k : Kernel) (t : ℕ) (s : Status) → SameData k (set_status k t s)
set_status-SameData k t s = record {
  thread = λ i. ground arith;
  lock = refl;
  waiter = refl;
  condition = refl;
  idle_thread = refl;
  mlfqs = refl;
  intr_context = refl;
}

requeue-SameData : (k : Kernel) → SameData k (requeue k)
unfolding requeue
requeue-SameData k = record {
  thread = λ i. ground arith;
  lock = refl;
  waiter = refl;
  condition = refl;
  idle_thread = refl;
  mlfqs = refl;
  intr_context = refl;
}

requeue_count : (k : Kernel) (i : ℕ) → count i (requeue k).ready_list ≡ runnable k i
unfolding requeue count
requeue_count k i =
    ground (arith, count-insert (compare_thread_priority k.thread) i k.current k.ready_list)

idle_runs :
    (k k' : Kernel)
    → is_address k.idle_thread k.current ≡ true
    → Runs k k' (λ j. count j k.ready_list)
    → Runs k k' (runnable k)
idle_runs k k' own runs j h = runs j h ∙ elim (Bool-cases (k.current == j)) [
  | inl e ↦ absurd (ground (arith, ap (is_address k.idle_thread) ((==_iff k.current j).0 e)))
  | inr e ↦ rw e (omega arith)
]

pub thread_yield-IsHighest :
    (k : Kernel) (i : ℕ)
    → IsValid k
    → k.intr_context ≡ false
    → k.idle_thread ≡ some i
    → Switched k (thread_yield k) (runnable k)
thread_yield-IsHighest k i v c e = elim (Bool-cases (is_address k.idle_thread k.current)) [
  | inl own ↦
      let (k', run, valid, highest, same, runs) =
        switch_IsHighest (set_status k k.current ready) (IsSuspended-set_status k ready v refl) e in
      (
        k',
        thread_yield_run k v c
            ∙ ap (λ b. if b then schedule (set_status k k.current ready) else schedule (requeue k))
                own
            ∙ run,
        valid,
        highest,
        SameData-trans k _ k' (set_status-SameData k k.current ready) same,
        idle_runs k k' own runs,
      )
  | inr other ↦
      let (k', run, valid, highest, same, runs) =
        switch_IsHighest (requeue k) (requeue-IsSuspended k v) (requeue_idle k ∙ e) in
      (
        k',
        thread_yield_run k v c
            ∙ ap (λ b. if b then schedule (set_status k k.current ready) else schedule (requeue k))
                other
            ∙ run,
        valid,
        highest,
        SameData-trans k _ k' (requeue-SameData k) same,
        λ j h. runs j (ap (λ o. is_address o j) (requeue_idle k) ∙ h) ∙ requeue_count k j,
      )
]

-- the state after thread_unblock
unfoldable pub unblocked : Kernel → ℕ → Kernel
unblocked k t =
    let queue = list_insert_ordered (compare_thread_priority k.thread) t k.ready_list in
    set_status (record k { ready_list = queue }) t ready

pub thread_unblock-unblocked :
    (k : Kernel) (t : ℕ)
    → is_blocked (k.thread t).status ≡ true
    → thread_unblock k t ≡ some (unblocked k t)
unfolding thread_unblock unblocked
thread_unblock-unblocked k t b = rw b refl

pub unblocked-IsValid :
    (k : Kernel) (t : ℕ)
    → IsValid k
    → is_blocked (k.thread t).status ≡ true
    → IsValid (unblocked k t)
unfolding unblocked count
unblocked-IsValid k t v b =
    let less = compare_thread_priority k.thread in
    record {
      current_runs = ground (arith, v.current_runs);
      alone = λ i h. ground (arith, v.alone i);
      queued = λ i. ground (arith, count-insert less i t k.ready_list, v.queued i);
      sorted = λ m. rw (compare-set_status k t ready) (
          list_insert_ordered-IsSorted less (priority-IsOrder k.thread) t k.ready_list
            (v.sorted m));
    }

head_or_tail :
    (k : Kernel) (t : ℕ) (ts : List ℕ)
    → k.ready_list ≡ t ∷ ts
    → IsSorted (compare_thread_priority k.thread) (t ∷ ts)
    → ltb_ℤ (k.thread k.current).priority (k.thread t).priority ≡ false
    → IsHighest k
unfolding count
head_or_tail k t ts e s ge i h = elim (Bool-cases (t == i)) [
  | inl own ↦
      subst (λ j. (k.thread j).priority ≤ℤ (k.thread k.current).priority) ((==_iff t i).0 own)
        (ground arith)
  | inr other ↦ ground (arith, head_highest k.thread t ts s i, ap (count i) e)
]

pub thread_super_yield-IsHighest :
    (k : Kernel) (i : ℕ)
    → IsValid k
    → k.thread_mlfqs ≡ false
    → k.intr_context ≡ false
    → k.idle_thread ≡ some i
    → Switched k (thread_super_yield k) (runnable k)
unfolding thread_super_yield thread_current count
thread_super_yield-IsHighest k i v m c e = go k.ready_list refl
  where
    go : (l : List ℕ) → k.ready_list ≡ l → Switched k (thread_super_yield k) (runnable k)
    go [] r =
        (k, ground arith, v, λ j h. ground (arith, ap (count j) r), SameData-refl k, λ j h. refl)
    go (t ∷ ts) r = elim (Bool-cases (ltb_ℤ (k.thread k.current).priority (k.thread t).priority)) [
      | inl lt ↦
          let (k', run, valid, highest, same, runs) = thread_yield-IsHighest k i v c e in
          (k', ground (arith, v.current_runs), valid, highest, same, runs)
      | inr ge ↦ (
        k,
        ground (arith, v.current_runs),
        v,
        head_or_tail k t ts r
            (subst (λ l. IsSorted (compare_thread_priority k.thread) l) r (v.sorted m)) ge,
        SameData-refl k,
        λ j h. refl,
      )
    ]
