-- ===== src/Thread/Mlfqs.antt =====
-- threads/thread.c of prj1: the multi-level feedback queue scheduler and the timer tick.
pub mod Laws
use os_326_omega.Prelude.{
  ℕ, ◌+◌, ◌%◌, ◌^◌, ◌==◌, if◌then◌else◌, leb, true, List, [], ◌∷◌, length, Option, some, none,
}
use os_326_omega.Prelude.Panic.{◌>>=◌, ◌>>◌}
use os_326_omega.Prelude.Int.{ℤ, pos, negsuc, ◌-ℤ◌, ◌*ℤ◌, ltb_ℤ}
use os_326_omega.FixedPoint.{
  int_to_fp, fp_to_int_rtn, fp_add_fp, fp_add_int, fp_time_fp, fp_time_int, fp_divideby_fp,
  fp_divideby_int,
}
use os_326_omega.Thread.{Kernel, Thread, update, is_address, pri_max, time_slice}
use os_326_omega.Thread.Schedule.{thread_current, thread_super_yield}
use os_326_omega.Thread.Donation.{sort_ready}

abbrev pub nice_max : ℤ
nice_max = pos 20

-- -20
abbrev pub nice_min : ℤ
nice_min = negsuc 19

-- PRI_MAX - recent_cpu / 4 - nice * 2, as thread_tick, thread_create and thread_set_nice compute it
unfoldable pub mlfqs_priority : ℤ → ℤ → ℤ
mlfqs_priority recent_cpu nice =
    pri_max -ℤ fp_to_int_rtn (fp_divideby_int recent_cpu (pos 4)) -ℤ nice *ℤ pos 2

unfoldable pub thread_set_nice : Kernel → ℤ → Option Kernel
unfolding thread_current mlfqs_priority
thread_set_nice k nice = do
  t ← thread_current k
  let at_most = if ltb_ℤ nice_max nice then nice_max else nice
  let clamped = if ltb_ℤ at_most nice_min then nice_min else at_most
  let p = mlfqs_priority (k.thread t).recent_cpu clamped
  thread_super_yield
      (record k { thread = update k.thread t (record (k.thread t) { nice = nice; priority = p }) })

unfoldable pub coefficient : ℤ → ℤ
coefficient load_avg =
    fp_divideby_fp (fp_time_int load_avg (pos 2))
      (fp_add_int (fp_time_int load_avg (pos 2)) (pos 1))

unfoldable pub calc_recent_cpu : ℤ → Thread → Thread
unfolding coefficient
calc_recent_cpu load_avg t = record t {
  recent_cpu = fp_add_int (fp_time_fp (coefficient load_avg) t.recent_cpu) t.nice;
}

-- load_avg after a second with that many ready threads
unfoldable pub decay_load_avg : ℤ → ℕ → ℤ
decay_load_avg load_avg ready_threads =
    fp_add_fp (fp_time_fp (fp_divideby_int (int_to_fp (pos 59)) (pos 60)) load_avg)
      (fp_time_int (fp_divideby_int (int_to_fp (pos 1)) (pos 60)) (pos ready_threads))

unfoldable pub calc_load_avg : Kernel → Option Kernel
unfolding thread_current decay_load_avg
calc_load_avg k = do
  t ← thread_current k
  let ready_threads = if is_address k.idle_thread t then 0 else length k.ready_list + 1
  some (record k { load_avg = decay_load_avg k.load_avg ready_threads })

unfoldable pub thread_get_load_avg : Kernel → ℤ
thread_get_load_avg k = fp_to_int_rtn (fp_time_int k.load_avg (pos 100))

unfoldable pub thread_get_recent_cpu : Kernel → Option ℤ
unfolding thread_current
thread_get_recent_cpu k = do
  t ← thread_current k
  some (fp_to_int_rtn (fp_time_int (k.thread t).recent_cpu (pos 100)))

-- a function on every thread of a list
unfoldable pub each_thread : (Thread → Thread) → (ℕ → Thread) → List ℕ → ℕ → Thread
each_thread f thread [] = thread
each_thread f thread (t ∷ ts) = each_thread f (update thread t (f (thread t))) ts

abbrev pub timer_freq : ℕ
timer_freq = 100

-- the statistics, and recent_cpu of the running thread
unfoldable pub tick_statistics : Kernel → ℕ → Kernel
tick_statistics k t =
    if is_address k.idle_thread t
    then record k { idle_ticks = k.idle_ticks + 1 }
    else if k.thread_mlfqs
    then record k {
      thread =
          update k.thread t
            (record (k.thread t) { recent_cpu = fp_add_int (k.thread t).recent_cpu (pos 1) });
    }
    else record k { kernel_ticks = k.kernel_ticks + 1 }

-- every fourth tick: the priorities
unfoldable pub tick_priorities : Kernel → Option Kernel
unfolding each_thread mlfqs_priority
tick_priorities k =
    let again = record k { calc_ticks = k.calc_ticks + 1 } in
    let priorities =
      each_thread (λ t. record t { priority = mlfqs_priority t.recent_cpu t.nice }) k.thread
        k.all_list in
    if leb time_slice (k.calc_ticks + 1)
    then thread_super_yield (record k { thread = priorities; calc_ticks = 0 })
    else some again

-- once a second: recent_cpu of every thread, then load_avg
unfoldable pub tick_second : Kernel → Option Kernel
unfolding each_thread calc_recent_cpu calc_load_avg
tick_second k =
    if k.ticks % timer_freq == 0
    then calc_load_avg
        (record k { thread = each_thread (calc_recent_cpu k.load_avg) k.thread k.all_list })
    else some k

-- the end of the time slice; `t` is the running thread
unfoldable pub tick_slice : Kernel → ℕ → Option Kernel
tick_slice k t =
    let k' = record k { thread_ticks = (k.thread_ticks + 1) % 2 ^ 32 } in
    let yield = λ (s : Kernel). λ (u : ℕ).
      if ltb_ℤ (s.thread t).priority (s.thread u).priority
      then some s
      else if ltb_ℤ (s.thread u).priority (s.thread t).priority
      then some s
      else some (record s { yield_on_return = true }) in
    let front = (if k.thread_mlfqs then sort_ready k' else some k') >>= λ s. elim s.ready_list [
      | [] ↦ none
      | u ∷ us ↦ yield s u
    ] in
    if leb time_slice k'.thread_ticks
    then (elim k.ready_list [ [] ↦ some (record k' { thread_ticks = 0 }) | _ ∷ _ ↦ front ])
    else some k'

unfoldable pub thread_tick : Kernel → Option Kernel
unfolding thread_current tick_statistics tick_priorities tick_second tick_slice
thread_tick k = do
  t ← thread_current k
  let counted = tick_statistics k t
  k' ← if k.thread_mlfqs then (tick_priorities counted >>= tick_second) else some counted
  tick_slice k' t
