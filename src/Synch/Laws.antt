-- ===== src/Synch/Laws.antt =====
-- threads/synch.c of prj1: after sema_up no ready thread has a greater priority than the running one.
use os_326_omega.Prelude.{
  ℕ, ◌+◌, ◌%◌, ◌^◌, ◌<◌, ◌≡◌, refl, sym, ◌∙◌, ap, subst, ◌⊎◌, inl, inr, ◌==◌, ==_iff, Bool-cases,
  if◌then◌else◌, true, false, List, [], ◌∷◌, Option, some, arith,
}
use os_326_omega.Prelude.Int.{◌≤ℤ◌}
use os_326_omega.Ordered.{list_sort}
use os_326_omega.Ordered.Merge.{IsSorted}
use os_326_omega.Prelude.Panic.{◌>>=◌}
use os_326_omega.Ordered.Sort.{Sorted, list_sort-Sorted}
use os_326_omega.Thread.{
  Kernel, Thread, Lock, Semaphore, is_blocked, compare_thread_priority, is_address,
}
use os_326_omega.Thread.Schedule.{thread_super_yield}
use os_326_omega.Thread.Invariant.{
  count, count-insert, count-sort, priority-IsOrder, head_highest, IsValid, IsHighest, SameData,
  runnable, Runs,
}
use os_326_omega.Thread.Switch.{
  thread_super_yield-IsHighest, unblocked, thread_unblock-unblocked, unblocked-IsValid,
}
use os_326_omega.Thread.Frame.{SameQueue, SameQueue-IsValid}
use os_326_omega.Synch.{
  Sema, of_thread, of_lock, of_waiter, semaphore, set_semaphore, wake, wake_first, sema_up,
}

-- What the laws of this module need besides a valid state: the priority scheduler, outside an
-- interrupt, with the idle thread known.
pub record IsPreemptive (k : Kernel) : Type 0 where
  pub priority_mode : k.thread_mlfqs ≡ false
  pub no_interrupt : k.intr_context ≡ false
  pub idle : ℕ
  pub idle_known : k.idle_thread ≡ some idle

set_semaphore-SameQueue :
    (k : Kernel) (s : Sema) (v : Semaphore) → SameQueue k (set_semaphore k s v)
set_semaphore-SameQueue k (of_thread t) v = record {
  status = λ i. ground arith;
  priority = λ i h. ground arith;
  ready_list = refl;
  current = refl;
  mlfqs = refl;
}
set_semaphore-SameQueue k (of_lock l) v = record {
  status = λ i. refl;
  priority = λ i h. refl;
  ready_list = refl;
  current = refl;
  mlfqs = refl;
}
set_semaphore-SameQueue k (of_waiter w) v = record {
  status = λ i. refl;
  priority = λ i h. refl;
  ready_list = refl;
  current = refl;
  mlfqs = refl;
}

set_semaphore-IsValid :
    (k : Kernel) (s : Sema) (v : Semaphore) → IsValid k → IsValid (set_semaphore k s v)
set_semaphore-IsValid k s v h = SameQueue-IsValid k _ (set_semaphore-SameQueue k s v) h

set_semaphore-IsPreemptive :
    (k : Kernel) (s : Sema) (v : Semaphore) → IsPreemptive k → IsPreemptive (set_semaphore k s v)
set_semaphore-IsPreemptive k (of_thread t) v h = record {
  priority_mode = h.priority_mode;
  no_interrupt = h.no_interrupt;
  idle = h.idle;
  idle_known = h.idle_known;
}
set_semaphore-IsPreemptive k (of_lock l) v h = record {
  priority_mode = h.priority_mode;
  no_interrupt = h.no_interrupt;
  idle = h.idle;
  idle_known = h.idle_known;
}
set_semaphore-IsPreemptive k (of_waiter w) v h = record {
  priority_mode = h.priority_mode;
  no_interrupt = h.no_interrupt;
  idle = h.idle;
  idle_known = h.idle_known;
}

unblocked-IsPreemptive : (k : Kernel) (t : ℕ) → IsPreemptive k → IsPreemptive (unblocked k t)
unfolding unblocked
unblocked-IsPreemptive k t h = record {
  priority_mode = h.priority_mode;
  no_interrupt = h.no_interrupt;
  idle = h.idle;
  idle_known = h.idle_known;
}

-- what a semaphore is and what it leaves alone
semaphore-set : (k : Kernel) (s : Sema) (v : Semaphore) → semaphore (set_semaphore k s v) s ≡ v
semaphore-set k (of_thread t) v = ground arith
semaphore-set k (of_lock l) v = ground arith
semaphore-set k (of_waiter w) v = ground arith

set_semaphore-priority :
    (k : Kernel) (s : Sema) (v : Semaphore) (i : ℕ)
    → ((set_semaphore k s v).thread i).priority ≡ (k.thread i).priority
set_semaphore-priority k (of_thread t) v i = ground arith
set_semaphore-priority k (of_lock l) v i = refl
set_semaphore-priority k (of_waiter w) v i = refl

set_semaphore-idle :
    (k : Kernel) (s : Sema) (v : Semaphore) → (set_semaphore k s v).idle_thread ≡ k.idle_thread
set_semaphore-idle k (of_thread t) v = refl
set_semaphore-idle k (of_lock l) v = refl
set_semaphore-idle k (of_waiter w) v = refl

semaphore-SameData : (k k' : Kernel) (s : Sema) → SameData k k' → semaphore k' s ≡ semaphore k s
semaphore-SameData k k' (of_thread t) d = ap Thread.sema (d.thread t)
semaphore-SameData k k' (of_lock l) d = ap (λ f. Lock.semaphore (f l)) d.lock
semaphore-SameData k k' (of_waiter w) d = ap (λ f. f w) d.waiter

set_semaphore-runnable :
    (k : Kernel) (s : Sema) (v : Semaphore) (i : ℕ)
    → runnable (set_semaphore k s v) i ≡ runnable k i
set_semaphore-runnable k (of_thread t) v i = refl
set_semaphore-runnable k (of_lock l) v i = refl
set_semaphore-runnable k (of_waiter w) v i = refl

unblocked-SameData : (k : Kernel) (t : ℕ) → SameData k (unblocked k t)
unfolding unblocked
unblocked-SameData k t = record {
  thread = λ i. ground arith;
  lock = refl;
  waiter = refl;
  condition = refl;
  idle_thread = refl;
  mlfqs = refl;
  intr_context = refl;
}

unblocked-runnable :
    (k : Kernel) (t i : ℕ) → runnable (unblocked k t) i ≡ runnable k i + (if t == i then 1 else 0)
unfolding unblocked count
unblocked-runnable k t i =
    ground (arith, count-insert (compare_thread_priority k.thread) i t k.ready_list)

none_lost : (k : Kernel) (t : ℕ) (ts : List ℕ) → count t [] ≡ count t (t ∷ ts) → ⊥
unfolding count
none_lost k t ts h = ground arith

first : (w : ℕ) (ws : List ℕ) → 0 < count w (w ∷ ws)
unfolding count
first w ws = ground arith

counted : (w i : ℕ) (ws : List ℕ) → count i ws + (if w == i then 1 else 0) ≡ count i (w ∷ ws)
unfolding count
counted w i ws = ground arith

-- What a semaphore operation leads to from `k`: the semaphore becomes `v`, the threads that run or are
-- ready are those that `r` counts, and no priority changes.
record Reached (k k' : Kernel) (s : Sema) (v : Semaphore) (r : ℕ → ℕ) : Type 0 where
  sema : semaphore k' s ≡ v
  runs : Runs k k' r
  priority : (i : ℕ) → (k'.thread i).priority ≡ (k.thread i).priority
  idle : k'.idle_thread ≡ k.idle_thread

-- the last part of sema_up
raise : Kernel → Sema → Option Kernel
raise k s =
    thread_super_yield
      (set_semaphore k s (record (semaphore k s) { value = ((semaphore k s).value + 1) % 2 ^ 32 }))

raise-Reached :
    (k : Kernel) (s : Sema)
    → IsValid k
    → IsPreemptive k
    → (k' : Kernel) × (raise k s ≡ some k')
      × IsValid k'
      × IsHighest k'
      × Reached k k' s
          (record (semaphore k s) { value = ((semaphore k s).value + 1) % 2 ^ 32 })
          (runnable k)
unfolding raise
raise-Reached k s v h =
    let up : Semaphore = record (semaphore k s) { value = ((semaphore k s).value + 1) % 2 ^ 32 } in
    let k1 = set_semaphore k s up in
    let h1 = set_semaphore-IsPreemptive k s up h in
    let (k', run, valid, highest, same, runs) =
      thread_super_yield-IsHighest k1 h1.idle (set_semaphore-IsValid k s up v) h1.priority_mode
        h1.no_interrupt h1.idle_known in
    (
      k',
      run,
      valid,
      highest,
      record {
        sema = semaphore-SameData k1 k' s same ∙ semaphore-set k s up;
        runs = λ i e.
            runs i (ap (λ o. is_address o i) (set_semaphore-idle k s up) ∙ e)
            ∙ set_semaphore-runnable k s up i;
        priority = λ i. ap Thread.priority (same.thread i) ∙ set_semaphore-priority k s up i;
        idle = same.idle_thread ∙ set_semaphore-idle k s up;
      },
    )

semaphore_status :
    (k : Kernel) (s : Sema) (v : Semaphore) (t : ℕ)
    → ((set_semaphore k s v).thread t).status ≡ (k.thread t).status
semaphore_status k s v t = SameQueue.status (set_semaphore-SameQueue k s v) t

-- waking the first waiter
wake-Reached :
    (k : Kernel) (s : Sema) (w : ℕ) (ws : List ℕ)
    → IsValid k
    → IsPreemptive k
    → is_blocked (k.thread w).status ≡ true
    → (k' : Kernel) × (wake k s (w ∷ ws) ≡ some k')
      × IsValid k'
      × IsPreemptive k'
      × Reached k k' s
          (record (semaphore k s) { waiters = ws })
          (λ j. runnable k j + (if w == j then 1 else 0))
wake-Reached k s w ws v h blocked =
    let rest : Semaphore = record (semaphore k s) { waiters = ws } in
    let popped = set_semaphore k s rest in
    let b : is_blocked (popped.thread w).status ≡ true =
      ap is_blocked (semaphore_status k s rest w) ∙ blocked in
    let same = unblocked-SameData popped w in
    (
      unblocked popped w,
      thread_unblock-unblocked popped w b,
      unblocked-IsValid popped w (set_semaphore-IsValid k s rest v) b,
      unblocked-IsPreemptive popped w (set_semaphore-IsPreemptive k s rest h),
      record {
        sema = semaphore-SameData popped _ s same ∙ semaphore-set k s rest;
        runs = λ i e.
            unblocked-runnable popped w i
            ∙ ap (λ n. n + (if w == i then 1 else 0)) (set_semaphore-runnable k s rest i);
        priority = λ i. ap Thread.priority (same.thread i) ∙ set_semaphore-priority k s rest i;
        idle = same.idle_thread ∙ set_semaphore-idle k s rest;
      },
    )

-- What sema_up does. Without waiters it only adds one to the value. Otherwise it also takes a waiter of
-- the greatest priority off the list, which then runs or is ready; the other waiters wait on.
pub record Upped (k k' : Kernel) (s : Sema) : Type 0 where
  pub value : (semaphore k' s).value ≡ ((semaphore k s).value + 1) % 2 ^ 32
  pub woken :
      (((semaphore k s).waiters ≡ []) × ((semaphore k' s).waiters ≡ []) × Runs k k' (runnable k))
      ⊎ ((w : ℕ) × (0 < count w (semaphore k s).waiters)
          × ((i : ℕ)
              → 0 < count i (semaphore k s).waiters
              → (k.thread i).priority ≤ℤ (k.thread w).priority)
          × ((i : ℕ)
              → count i (semaphore k' s).waiters + (if w == i then 1 else 0)
                ≡ count i (semaphore k s).waiters)
          × Runs k k' (λ i. runnable k i + (if w == i then 1 else 0)))
  pub priority : (i : ℕ) → (k'.thread i).priority ≡ (k.thread i).priority

-- the first of the sorted waiters has the greatest priority
first_highest :
    (k : Kernel) (w : ℕ) (ws : List ℕ)
    → IsSorted (compare_thread_priority k.thread) (w ∷ ws)
    → (i : ℕ) → 0 < count i (w ∷ ws)
    → (k.thread i).priority ≤ℤ (k.thread w).priority
unfolding count
first_highest k w ws s i h = elim (Bool-cases (w == i)) [
  | inl own ↦
      subst (λ j. (k.thread j).priority ≤ℤ (k.thread w).priority) ((==_iff w i).0 own) (omega arith)
  | inr other ↦ head_highest k.thread w ws s i (ground arith)
]

-- sema_up in a valid state of the priority scheduler, outside an interrupt, with the idle thread
-- known and all waiters of the semaphore blocked, does not fail. It adds one to the value, modulo
-- 2 ^ 32. Where there are waiters, one of the greatest priority is taken off their list, the others
-- stay in it, and apart from the idle thread the threads that run or are ready are those from before
-- and this one; otherwise they are those from before. No priority changes, the state is valid again,
-- and no ready thread has a greater priority than the one that runs.
pub sema_up-IsHighest :
    (k : Kernel) (s : Sema)
    → IsValid k
    → IsPreemptive k
    → ((i : ℕ) → 0 < count i (semaphore k s).waiters → is_blocked (k.thread i).status ≡ true)
    → (k' : Kernel) × (sema_up k s ≡ some k') × IsValid k' × IsHighest k' × Upped k k' s
unfolding sema_up raise
sema_up-IsHighest k s v h blocked = go (semaphore k s).waiters refl
  where
    Goal : Type 0
    Goal = (k' : Kernel) × (sema_up k s ≡ some k') × IsValid k' × IsHighest k' × Upped k k' s

    wakes :
        (t : ℕ) (ts ys : List ℕ)
        → (semaphore k s).waiters ≡ t ∷ ts
        → list_sort (compare_thread_priority k.thread) (t ∷ ts) ≡ some ys
        → Sorted (compare_thread_priority k.thread) (t ∷ ts) ys
        → Goal
    wakes t ts [] e sorted srt = absurd (none_lost k t ts (count-sort k.thread t (t ∷ ts) [] srt))
    wakes t ts (w ∷ ws) e sorted srt =
        let same : (i : ℕ) → count i (w ∷ ws) ≡ count i (semaphore k s).waiters =
          λ i. count-sort k.thread i (t ∷ ts) (w ∷ ws) srt ∙ ap (count i) (sym e) in
        let waits : 0 < count w (semaphore k s).waiters =
          subst (λ n. 0 < n) (same w) (first w ws) in
        let (k1, woken, v1, h1, r1) = wake-Reached k s w ws v h (blocked w waits) in
        let (k', run, valid, highest, r2) = raise-Reached k1 s v1 h1 in
        (
          k',
          ap (λ l. wake_first k s l >>= λ k1. raise k1 s) e
              ∙ ap (λ o. o >>= wake k s >>= λ k1. raise k1 s) sorted
              ∙ ap (λ o. o >>= λ k1. raise k1 s) woken
              ∙ run,
          valid,
          highest,
          record {
            value = ap Semaphore.value r2.sema ∙ ap (λ x. (Semaphore.value x + 1) % 2 ^ 32) r1.sema;
            woken = inr (
              w,
              waits,
              λ i c. first_highest k w ws srt.sorted i (subst (λ n. 0 < n) (sym (same i)) c),
              λ i.
                  ap (λ x. count i (Semaphore.waiters x) + (if w == i then 1 else 0))
                    (r2.sema
                      ∙ ap
                          (λ (x : Semaphore).
                            let y : Semaphore = record x { value = (x.value + 1) % 2 ^ 32 } in y)
                          r1.sema)
                  ∙ counted w i ws
                  ∙ same i,
              λ i c. r2.runs i (ap (λ o. is_address o i) r1.idle ∙ c) ∙ r1.runs i c,
            );
            priority = λ i. r2.priority i ∙ r1.priority i;
          },
        )

    go : (l : List ℕ) → (semaphore k s).waiters ≡ l → Goal
    go [] e =
        let (k', run, valid, highest, r) = raise-Reached k s v h in
        (
          k',
          ap (λ l. wake_first k s l >>= λ k1. raise k1 s) e ∙ run,
          valid,
          highest,
          record {
            value = ap Semaphore.value r.sema;
            woken = inl (e, ap Semaphore.waiters r.sema ∙ e, r.runs);
            priority = r.priority;
          },
        )
    go (t ∷ ts) e =
        let (ys, sorted, srt) =
          list_sort-Sorted (compare_thread_priority k.thread) (priority-IsOrder k.thread)
            (t ∷ ts) in
        wakes t ts ys e sorted srt
