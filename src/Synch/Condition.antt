-- ===== src/Synch/Condition.antt =====
-- threads/synch.c of prj1: condition variables. A waiter is the semaphore of a `semaphore_elem`.
use os_326_omega.Prelude.{
  ℕ, if◌then◌else◌, Bool, true, false, not, List, [], ◌∷◌, Option, some, none,
}
use os_326_omega.Prelude.Panic.{◌>>=◌, ◌>>◌, assert}
use os_326_omega.Prelude.Int.{ℤ, ltb_ℤ}
use os_326_omega.Ordered.{list_sort}
use os_326_omega.Thread.{Kernel, Thread, update}
use os_326_omega.Thread.Schedule.{thread_current}
use os_326_omega.Synch.{of_waiter, sema_init, sema_up, lock_held_by_current_thread, lock_release}

unfoldable pub cond_init : Kernel → ℕ → Kernel
cond_init k c = record k { condition = update k.condition c [] }

-- list_front, which asserts that the list is not empty
abbrev pub list_front : List ℕ → Option ℕ
list_front [] = none
list_front (t ∷ ts) = some t

-- Whether `priority` is above that of the first thread that waits in the semaphore `b`.
unfoldable pub compare_priority_condition_insert : Kernel → ℤ → ℕ → Option Bool
compare_priority_condition_insert k priority b = do
  t ← list_front (k.waiter b).waiters
  some (ltb_ℤ (k.thread t).priority priority)

-- list_insert_ordered with that comparison
unfoldable pub insert_waiter : Kernel → ℤ → ℕ → List ℕ → Option (List ℕ)
unfolding compare_priority_condition_insert
insert_waiter k priority w [] = some (w ∷ [])
insert_waiter k priority w (b ∷ bs) =
    let later = (insert_waiter k priority w bs >>= λ rest. some (b ∷ rest)) in
    compare_priority_condition_insert k priority b >>= λ above.
    if above then some (w ∷ b ∷ bs) else later

-- cond_wait up to lock_release: then come sema_down of the waiter and lock_acquire of the lock.
unfoldable pub cond_enqueue : Kernel → ℕ → ℕ → ℕ → Option Kernel
unfolding lock_held_by_current_thread sema_init insert_waiter thread_current
cond_enqueue k c l w = do
  assert (not k.intr_context)
  held ← lock_held_by_current_thread k l
  assert held
  let fresh = sema_init k (of_waiter w) 0
  t ← thread_current fresh
  queue ← insert_waiter fresh (fresh.thread t).priority w (fresh.condition c)
  lock_release (record fresh { condition = update fresh.condition c queue }) l

abbrev pub above_front : (ℕ → Thread) → List ℕ → List ℕ → Bool
above_front thread [] bs = false
above_front thread (t ∷ ts) [] = true
above_front thread (t ∷ ts) (s ∷ ss) = ltb_ℤ (thread s).priority (thread t).priority

unfoldable pub compare_priority_condition_sort : Kernel → ℕ → ℕ → Bool
compare_priority_condition_sort k a b =
    above_front k.thread (k.waiter a).waiters (k.waiter b).waiters

abbrev pub signal_first : Kernel → ℕ → List ℕ → Option Kernel
signal_first k c [] = none
signal_first k c (w ∷ ws) = sema_up (record k { condition = update k.condition c ws }) (of_waiter w)

unfoldable pub cond_signal : Kernel → ℕ → ℕ → Option Kernel
unfolding lock_held_by_current_thread
cond_signal k c l = do
  assert (not k.intr_context)
  held ← lock_held_by_current_thread k l
  assert held
  elim (k.condition c) [
    | [] ↦ some k
    | w ∷ ws ↦ list_sort (compare_priority_condition_sort k) (w ∷ ws) >>= signal_first k c
  ]
