-- ===== src/Synch.antt =====
-- threads/synch.c of prj1. A call that may sleep is cut at the places where another thread may run:
-- sema_down is one round of its loop, and lock_acquire and cond_wait are their parts.
pub mod Condition
pub mod Laws
pub mod Locks
use os_326_omega.Prelude.{
  ℕ, ◌+◌, ◌-◌, ◌%◌, ◌^◌, ◌==◌, if◌then◌else◌, Bool, true, false, not, ◌&&◌, ltb, List, [], ◌∷◌,
  Option, some, none,
}
use os_326_omega.Prelude.Panic.{◌>>=◌, ◌>>◌, assert}
use os_326_omega.Ordered.{list_insert_ordered, list_sort}
use os_326_omega.Thread.{Kernel, Thread, Semaphore, update, compare_thread_priority, is_address}
use os_326_omega.Thread.Schedule.{thread_current, thread_unblock, thread_block, thread_super_yield}
use os_326_omega.Thread.Donation.{donation, donation_back}

-- Where a semaphore lies: in a thread, in a lock, or in a `semaphore_elem` or on a stack.
pub data Sema : Type 0 where
  of_thread : ℕ → Sema
  of_lock : ℕ → Sema
  of_waiter : ℕ → Sema

abbrev pub semaphore : Kernel → Sema → Semaphore
semaphore k (of_thread t) = (k.thread t).sema
semaphore k (of_lock l) = (k.lock l).semaphore
semaphore k (of_waiter w) = k.waiter w

abbrev pub set_semaphore : Kernel → Sema → Semaphore → Kernel
set_semaphore k (of_thread t) s = record k {
  thread = update k.thread t (record (k.thread t) { sema = s });
}
set_semaphore k (of_lock l) s = record k {
  lock = update k.lock l (record (k.lock l) { semaphore = s });
}
set_semaphore k (of_waiter w) s = record k { waiter = update k.waiter w s }

unfoldable pub sema_init : Kernel → Sema → ℕ → Kernel
sema_init k s v = set_semaphore k s (record { value = v; waiters = [] })

-- One round: false where the thread was put to sleep and will test again, true where it goes on.
unfoldable pub sema_down : Kernel → Sema → Option (Bool × Kernel)
sema_down k s =
    let sema = semaphore k s in
    let sleep = thread_current k >>= λ t.
    let queue = list_insert_ordered (compare_thread_priority k.thread) t sema.waiters in
    thread_block (set_semaphore k s (record sema { waiters = queue })) >>= λ k'. some (false, k') in
    let go = some (true, set_semaphore k s (record sema { value = sema.value - 1 })) in
    assert (not k.intr_context) >> (if sema.value == 0 then sleep else go)

unfoldable pub sema_try_down : Kernel → Sema → Bool × Kernel
sema_try_down k s =
    let sema = semaphore k s in
    if ltb 0 sema.value
    then (true, set_semaphore k s (record sema { value = sema.value - 1 }))
    else (false, k)

-- The first waiter of the sorted list is made ready.
abbrev pub wake : Kernel → Sema → List ℕ → Option Kernel
wake k s [] = none
wake k s (t ∷ ts) = thread_unblock (set_semaphore k s (record (semaphore k s) { waiters = ts })) t

abbrev pub wake_first : Kernel → Sema → List ℕ → Option Kernel
wake_first k s [] = some k
wake_first k s (t ∷ ts) = list_sort (compare_thread_priority k.thread) (t ∷ ts) >>= wake k s

unfoldable pub sema_up : Kernel → Sema → Option Kernel
sema_up k s = do
  k' ← wake_first k s (semaphore k s).waiters
  let sema = semaphore k' s
  thread_super_yield (set_semaphore k' s (record sema { value = (sema.value + 1) % 2 ^ 32 }))

unfoldable pub lock_init : Kernel → ℕ → Kernel
unfolding sema_init
lock_init k l =
    sema_init (record k { lock = update k.lock l (record (k.lock l) { holder = none }) })
      (of_lock l) 1

unfoldable pub lock_held_by_current_thread : Kernel → ℕ → Option Bool
lock_held_by_current_thread k l = do t ← thread_current k; some (is_address (k.lock l).holder t)

-- lock_acquire before sema_down
unfoldable pub lock_request : Kernel → ℕ → Option Kernel
unfolding lock_held_by_current_thread
lock_request k l = do
  assert (not k.intr_context)
  held ← lock_held_by_current_thread k l
  assert (not held)
  elim (k.lock l).holder [
    | none ↦ some k
    | some h ↦ if not k.thread_mlfqs then donation k l else some k
  ]

-- lock_acquire after sema_down
unfoldable pub lock_take : Kernel → ℕ → Option Kernel
lock_take k l = do
  t ← thread_current k
  some (record k { lock = update k.lock l (record (k.lock l) { holder = some t }) })

-- A lock_acquire that need not wait; false where the thread was put to sleep in sema_down.
unfoldable pub lock_acquire : Kernel → ℕ → Option (Bool × Kernel)
unfolding lock_request lock_take
lock_acquire k l = do
  k1 ← lock_request k l
  (free, k2) ← sema_down k1 (of_lock l)
  if free then (lock_take k2 l >>= λ k3. some (true, k3)) else some (false, k2)

unfoldable pub lock_try_acquire : Kernel → ℕ → Option (Bool × Kernel)
unfolding lock_held_by_current_thread sema_try_down lock_take
lock_try_acquire k l = do
  held ← lock_held_by_current_thread k l
  assert (not held)
  let (success, k') = sema_try_down k (of_lock l)
  if success then (lock_take k' l >>= λ k''. some (true, k'')) else some (false, k')

abbrev pub is_empty : List ℕ → Bool
is_empty [] = true
is_empty (x ∷ xs) = false

unfoldable pub lock_release : Kernel → ℕ → Option Kernel
unfolding lock_held_by_current_thread
lock_release k l = do
  held ← lock_held_by_current_thread k l
  assert held
  let free = record k { lock = update k.lock l (record (k.lock l) { holder = none }) }
  t ← thread_current free
  k' ←
      if not (is_empty (free.thread t).donation_list)
        && not (is_empty (free.lock l).semaphore.waiters)
        && not free.thread_mlfqs
      then donation_back free l
      else some free
  sema_up k' (of_lock l)
