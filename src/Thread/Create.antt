-- ===== src/Thread/Create.antt =====
-- threads/thread.c of prj1: new threads. The page that palloc_get_page returns is an argument, and
-- allocate_tid is the counter alone: the lock around it is not taken.
pub mod Laws
use os_326_omega.Prelude.{ℕ, ◌+◌, if◌then◌else◌, not, ◌&&◌, [], ◌∷◌, ◌++◌, Option, some, none}
use os_326_omega.Prelude.Panic.{◌>>=◌, ◌>>◌, assert}
use os_326_omega.Prelude.Int.{ℤ, pos, ltb_ℤ}
use os_326_omega.Thread.{
  Kernel, Thread, running, blocked, is_running, is_ready, is_blocked, update, set_priority, pri_min,
  pri_max,
}
use os_326_omega.Thread.Schedule.{thread_current, thread_unblock, thread_super_yield}
use os_326_omega.Thread.Mlfqs.{mlfqs_priority}

-- the thread that init_thread writes into a page of zeros
abbrev pub new_thread : ℤ → Thread
new_thread p = record {
  tid = 0;
  status = blocked;
  priority = p;
  sema = record { value = 0; waiters = [] };
  wakeup_time = 0;
  donation_list = [];
  ori_priority = pos 0;
  wait_lock = none;
  nice = pos 0;
  recent_cpu = pos 0;
}

unfoldable pub init_thread : Kernel → ℕ → ℤ → Option Kernel
init_thread k t p = do
  assert (not (ltb_ℤ p pri_min) && not (ltb_ℤ pri_max p))
  some (record k { thread = update k.thread t (new_thread p); all_list = k.all_list ++ t ∷ [] })

-- what a thread takes over from the running one under the feedback queue scheduler
unfoldable pub inherit : Kernel → ℕ → Option Kernel
unfolding thread_current mlfqs_priority
inherit k t = do
  cur ← thread_current k
  let nice = (k.thread cur).nice
  let recent = (k.thread cur).recent_cpu
  let heir = record (k.thread t) {
    nice = nice;
    recent_cpu = recent;
    priority = mlfqs_priority recent nice;
  }
  some (record k { thread = update k.thread t heir })

unfoldable pub allocate_tid : Kernel → ℕ → Kernel
allocate_tid k t = record k {
  thread = update k.thread t (record (k.thread t) { tid = k.next_tid });
  next_tid = k.next_tid + 1;
}

-- The identifier of the new thread, or none for TID_ERROR.
unfoldable pub thread_create : Kernel → Option ℕ → ℤ → Option (Option ℕ × Kernel)
unfolding init_thread inherit allocate_tid
thread_create k none p = some (none, k)
thread_create k (some t) p = do
  k1 ← init_thread k t p
  k2 ← if k1.thread_mlfqs then inherit k1 t else some k1
  k3 ← thread_unblock (allocate_tid k2 t) t
  k4 ← thread_super_yield k3
  some (some k2.next_tid, k4)
