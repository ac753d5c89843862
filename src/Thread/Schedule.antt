-- ===== src/Thread/Schedule.antt =====
-- threads/thread.c of prj1: the ready list and switches between threads. A function that switches
-- ends in the state in which the next thread runs; what the caller does after the switch happens
-- when it runs again. Interrupts are off inside each function.
use os_326_omega.Prelude.{ℕ, ◌==◌, if◌then◌else◌, true, not, List, [], ◌∷◌, Option, some, none}
use os_326_omega.Prelude.Panic.{◌>>=◌, ◌>>◌, assert}
use os_326_omega.Prelude.Int.{ℤ, ltb_ℤ}
use os_326_omega.Ordered.{list_insert_ordered, list_sort}
use os_326_omega.Thread.{
  Kernel, running, ready, blocked, dying, is_running, is_blocked, update, set_status, set_priority,
  compare_thread_priority, is_address,
}

-- Nothing checks `magic`: each number is a thread's address.
unfoldable pub thread_current : Kernel → Option ℕ
thread_current k = assert (is_running (k.thread k.current).status) >> some k.current

unfoldable pub thread_unblock : Kernel → ℕ → Option Kernel
thread_unblock k t = do
  assert (is_blocked (k.thread t).status)
  let queue = list_insert_ordered (compare_thread_priority k.thread) t k.ready_list
  some (set_status (record k { ready_list = queue }) t ready)

-- list_pop_front of the ready list
abbrev pub pop_ready : Kernel → List ℕ → Option (ℕ × Kernel)
pop_ready k [] = none
pop_ready k (t ∷ ts) = some (t, record k { ready_list = ts })

abbrev pub idle_next : Kernel → Option ℕ → Option (ℕ × Kernel)
idle_next k none = none
idle_next k (some t) = some (t, k)

-- The thread, and the state without it in the ready list. A null pointer for the idle thread fails
-- the ASSERT in `schedule`.
unfoldable pub next_thread_to_run : Kernel → Option (ℕ × Kernel)
next_thread_to_run k = elim k.ready_list [
  | [] ↦ idle_next k k.idle_thread
  | t ∷ ts ↦
      (if k.thread_mlfqs
        then list_sort (compare_thread_priority k.thread) (t ∷ ts)
        else some (t ∷ ts))
      >>= pop_ready k
]

-- The freeing of a dying thread's page is left out.
unfoldable pub thread_schedule_tail : Kernel → Kernel
thread_schedule_tail k = record (set_status k k.current running) { thread_ticks = 0 }

unfoldable pub schedule : Kernel → Option Kernel
unfolding thread_schedule_tail
schedule k = do
  assert (not (is_running (k.thread k.current).status))
  (next, k') ← next_thread_to_run k
  some (thread_schedule_tail (record k' { current = next }))

unfoldable pub thread_block : Kernel → Option Kernel
unfolding thread_current
thread_block k = do
  assert (not k.intr_context)
  t ← thread_current k
  schedule (set_status k t blocked)

unfoldable pub thread_yield : Kernel → Option Kernel
unfolding thread_current
thread_yield k = do
  cur ← thread_current k
  assert (not k.intr_context)
  let queue = list_insert_ordered (compare_thread_priority k.thread) cur k.ready_list
  let k' = if is_address k.idle_thread cur then k else record k { ready_list = queue }
  schedule (set_status k' cur ready)

abbrev pub list_remove : ℕ → List ℕ → List ℕ
list_remove t [] = []
list_remove t (s ∷ ts) = if s == t then ts else s ∷ list_remove t ts

unfoldable pub thread_exit : Kernel → Option Kernel
unfolding thread_current
thread_exit k = do
  assert (not k.intr_context)
  t ← thread_current k
  schedule (set_status (record k { all_list = list_remove t k.all_list }) t dying)

-- Yields, in an interrupt on its return, if the front of the ready list has a greater priority.
unfoldable pub thread_super_yield : Kernel → Option Kernel
unfolding thread_current
thread_super_yield k = elim k.ready_list [
  | [] ↦ some k
  | t ∷ ts ↦ thread_current k >>= λ cur.
      if ltb_ℤ (k.thread cur).priority (k.thread t).priority
      then (if k.intr_context then some (record k { yield_on_return = true }) else thread_yield k)
      else some k
]

-- What thread_set_priority changes of thread `t`, given its donors.
abbrev pub change_priority : Kernel → ℕ → ℤ → List ℕ → Kernel
change_priority k t p [] = set_priority k t p
change_priority k t p (d ∷ ds) =
    if ltb_ℤ (k.thread t).priority p
    then set_priority k t p
    else record k { thread = update k.thread t (record (k.thread t) { ori_priority = p }) }

unfoldable pub thread_set_priority : Kernel → ℤ → Option Kernel
unfolding thread_current
thread_set_priority k new_priority =
    let changed = thread_current k >>= λ t.
    thread_super_yield (change_priority k t new_priority (k.thread t).donation_list) in
    if k.thread_mlfqs then some k else changed
