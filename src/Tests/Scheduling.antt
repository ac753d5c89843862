-- ===== src/Tests/Scheduling.antt =====
-- The theorems on scheduling and donation in a small state: thread 0 runs and holds lock 1, for
-- which thread 2 waits; thread 1 is ready; thread 3 holds lock 0.
use os_326_omega.Prelude.{
  ℕ, ◌≡◌, ◌≢◌, refl, ◌==◌, if◌then◌else◌, true, false, List, [], ◌∷◌, Option, some, none, arith,
  ◌≤◌, ◌<◌, ◌*◌,
}
use os_326_omega.Prelude.Int.{pos}
use os_326_omega.Ordered.{
  list_sort, sort_loop, sort_pass, find_end_of_run, merge_loop, inplace_merge, is_sorted,
}
use os_326_omega.Ordered.Sort.{Sorted, list_sort-Sorted}
use os_326_omega.Thread.{
  Kernel, Thread, Status, running, ready, blocked, Semaphore, Lock, compare_thread_priority,
}
use os_326_omega.Thread.Schedule.{thread_set_priority, change_priority}
use os_326_omega.Thread.Invariant.{count, priority-IsOrder, IsValid, IsHighest, runnable, Runs}
use os_326_omega.Thread.Frame.{PrioritySet, thread_set_priority-IsHighest}
use os_326_omega.Thread.Donation.{donation_back}
use os_326_omega.Thread.Donation.Back.{donation_back-change_priority}
use os_326_omega.Thread.Mlfqs.{decay_load_avg, coefficient}
use os_326_omega.Thread.Mlfqs.Laws.{decay_load_avg-le, coefficient-lt}
use os_326_omega.Synch.{of_waiter, sema_up, lock_acquire, lock_try_acquire, lock_release}
use os_326_omega.Synch.Locks.{free_lock, lock_release-lock_acquire}
use os_326_omega.Synch.Laws.{Upped, sema_up-IsHighest}

abbrev sema0 : Semaphore
sema0 = record { value = 0; waiters = [] }

abbrev plain : Status → ℕ → Option ℕ → List ℕ → Thread
plain s p w ds = record {
  tid = 1;
  status = s;
  priority = pos p;
  sema = sema0;
  wakeup_time = 0;
  donation_list = ds;
  ori_priority = pos 31;
  wait_lock = w;
  nice = pos 0;
  recent_cpu = pos 0;
}

abbrev threads : ℕ → Thread
threads i =
    if i == 0
    then plain running 33 none (2 ∷ [])
    else if i == 1
    then plain ready 40 none []
    else if i == 2
    then plain blocked 33 (some 1) []
    else plain blocked 20 none []

abbrev locks : ℕ → Lock
locks l = record { holder = if l == 0 then some 3 else some 0; semaphore = sema0 }

abbrev kernel : Kernel
kernel = record {
  thread = threads;
  lock = locks;
  waiter = λ w. record { value = 0; waiters = if w == 0 then 2 ∷ [] else [] };
  condition = λ c. 1 ∷ [];
  ready_list = 1 ∷ [];
  all_list = 0 ∷ 1 ∷ 2 ∷ 3 ∷ [];
  sleep_list = [];
  idle_thread = some 4;
  current = 0;
  next_tid = 5;
  idle_ticks = 0;
  kernel_ticks = 0;
  thread_ticks = 0;
  calc_ticks = 0;
  ticks = 0;
  load_avg = pos 0;
  thread_mlfqs = false;
  intr_context = false;
  yield_on_return = false;
}

kernel-IsValid : IsValid kernel
unfolding count
kernel-IsValid = record {
  current_runs = refl;
  alone = λ i h. ground arith;
  queued = λ i. ground arith;
  sorted = λ m. (tt, tt);
}

one_donor : (i : ℕ) → count i (2 ∷ []) ≤ 1
unfolding count
one_donor i = ground arith

waiters_blocked : (i : ℕ) → 0 < count i (2 ∷ []) → Thread.status (threads i) ≡ blocked
unfolding count
waiters_blocked i h = ground arith

list_sort-Sorted_example :
    (ys : List ℕ) × (list_sort (compare_thread_priority threads) (3 ∷ 1 ∷ 0 ∷ 2 ∷ []) ≡ some ys)
    × Sorted (compare_thread_priority threads) (3 ∷ 1 ∷ 0 ∷ 2 ∷ []) ys
list_sort-Sorted_example =
    list_sort-Sorted (compare_thread_priority threads) (priority-IsOrder threads)
      (3 ∷ 1 ∷ 0 ∷ 2 ∷ [])

-- Threads 0 and 2 have one priority and keep their order.
sort_run :
    list_sort (compare_thread_priority threads) (3 ∷ 1 ∷ 0 ∷ 2 ∷ []) ≡ some (1 ∷ 0 ∷ 2 ∷ 3 ∷ [])
unfolding list_sort sort_loop sort_pass find_end_of_run merge_loop inplace_merge is_sorted
sort_run = refl

thread_set_priority-IsHighest_example :
    (k : Kernel) × (thread_set_priority kernel (pos 10) ≡ some k)
    × IsValid k
    × IsHighest k
    × PrioritySet kernel k (pos 10)
thread_set_priority-IsHighest_example =
    thread_set_priority-IsHighest kernel 4 (pos 10) kernel-IsValid refl refl refl

sema_up-IsHighest_example :
    (k : Kernel) × (sema_up kernel (of_waiter 0) ≡ some k)
    × IsValid k
    × IsHighest k
    × Upped kernel k (of_waiter 0)
sema_up-IsHighest_example =
    sema_up-IsHighest kernel (of_waiter 0) kernel-IsValid
      (record { priority_mode = refl; no_interrupt = refl; idle = 4; idle_known = refl })
      (λ i h. ground (arith, waiters_blocked i h))

donation_back-change_priority_example :
    (k' : Kernel) × (donation_back (change_priority kernel 0 (pos 50) (2 ∷ [])) 1 ≡ some k')
    × ((k'.thread 0).priority ≡ pos 31)
donation_back-change_priority_example =
    donation_back-change_priority kernel 1 (pos 50) kernel-IsValid one_donor refl refl 2 [] refl

decay_load_avg-le_example : (b : ℕ) × (decay_load_avg (pos 16384) 2 ≡ pos b) × (b ≤ 16384 * 3)
decay_load_avg-le_example = decay_load_avg-le 3 16384 2 (omega arith) (omega arith)

coefficient-lt_example : (c : ℕ) × (coefficient (pos 16384) ≡ pos c) × (c < 16384)
coefficient-lt_example = coefficient-lt 16384 (omega arith)

-- the same state with all locks free
abbrev free_kernel : Kernel
free_kernel = record kernel { lock = λ l. free_lock }

free_kernel-IsValid : IsValid free_kernel
free_kernel-IsValid = record {
  current_runs = kernel-IsValid.current_runs;
  alone = kernel-IsValid.alone;
  queued = kernel-IsValid.queued;
  sorted = kernel-IsValid.sorted;
}

lock_release-lock_acquire_example :
    (k1 : Kernel) × (lock_acquire free_kernel 7 ≡ some (true, k1))
    × ((k1.lock 7).holder ≡ some 0)
    × ((m : Kernel)
        → IsValid m
        → m.lock 7 ≡ k1.lock 7
        → m.current ≢ 0
        → lock_try_acquire m 7 ≡ some (false, m))
    × (k2 : Kernel) × (lock_release k1 7 ≡ some k2)
    × (k2.lock 7 ≡ free_lock)
    × IsValid k2
    × IsHighest k2
    × Runs free_kernel k2 (runnable free_kernel)
lock_release-lock_acquire_example =
    lock_release-lock_acquire free_kernel 7 free_kernel-IsValid
      (record { priority_mode = refl; no_interrupt = refl; idle = 4; idle_known = refl }) refl
