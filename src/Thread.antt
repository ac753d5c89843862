-- ===== src/Thread.antt =====
-- threads/thread.h, threads/synch.h and the state of threads/thread.c and devices/timer.c of prj1. A
-- thread, a lock or a condition is named by a number that stands for its address.
pub mod Schedule
pub mod Invariant
pub mod Switch
pub mod Donation
pub mod Mlfqs
pub mod Create
pub mod Frame
use os_326_omega.Prelude.{ℕ, ◌==◌, if◌then◌else◌, Bool, true, false, List, Option}
use os_326_omega.Prelude.Int.{ℤ, pos, ltb_ℤ}

abbrev pub pri_min : ℤ
pri_min = pos 0

abbrev pub pri_default : ℤ
pri_default = pos 31

abbrev pub pri_max : ℤ
pri_max = pos 63

abbrev pub time_slice : ℕ
time_slice = 4

-- enum thread_status
pub data Status : Type 0 where
  running : Status
  ready : Status
  blocked : Status
  dying : Status

abbrev pub is_running : Status → Bool
is_running running = true
is_running ready = false
is_running blocked = false
is_running dying = false

abbrev pub is_ready : Status → Bool
is_ready running = false
is_ready ready = true
is_ready blocked = false
is_ready dying = false

abbrev pub is_blocked : Status → Bool
is_blocked running = false
is_blocked ready = false
is_blocked blocked = true
is_blocked dying = false

-- struct semaphore
pub record Semaphore : Type 0 where
  pub value : ℕ
  pub waiters : List ℕ

-- struct lock
pub record Lock : Type 0 where
  pub holder : Option ℕ
  pub semaphore : Semaphore

-- struct thread without its name, its stack, `magic` and its list elements
pub record Thread : Type 0 where
  pub tid : ℕ
  pub status : Status
  pub priority : ℤ
  pub sema : Semaphore
  pub wakeup_time : ℕ
  pub donation_list : List ℕ
  pub ori_priority : ℤ
  pub wait_lock : Option ℕ
  pub nice : ℤ
  pub recent_cpu : ℤ

-- The variables of thread.c and timer.c, the objects in memory, and what the interrupt code keeps:
-- whether an external interrupt is handled, and whether it asked to yield on return.
pub record Kernel : Type 0 where
  pub thread : ℕ → Thread
  pub lock : ℕ → Lock
  pub waiter : ℕ → Semaphore
  pub condition : ℕ → List ℕ
  pub ready_list : List ℕ
  pub all_list : List ℕ
  pub sleep_list : List ℕ
  pub idle_thread : Option ℕ
  pub current : ℕ
  pub next_tid : ℕ
  pub idle_ticks : ℕ
  pub kernel_ticks : ℕ
  pub thread_ticks : ℕ
  pub calc_ticks : ℕ
  pub ticks : ℕ
  pub load_avg : ℤ
  pub thread_mlfqs : Bool
  pub intr_context : Bool
  pub yield_on_return : Bool

-- memory with a new value at one address
abbrev pub update {ℓ} : {A : Type ℓ} → (ℕ → A) → ℕ → A → ℕ → A
update f i a j = if i == j then a else f j

abbrev pub set_status : Kernel → ℕ → Status → Kernel
set_status k t s = record k { thread = update k.thread t (record (k.thread t) { status = s }) }

abbrev pub set_priority : Kernel → ℕ → ℤ → Kernel
set_priority k t p = record k { thread = update k.thread t (record (k.thread t) { priority = p }) }

-- A greater priority comes first.
abbrev pub compare_thread_priority : (ℕ → Thread) → ℕ → ℕ → Bool
compare_thread_priority thread a b = ltb_ℤ (thread b).priority (thread a).priority

-- whether a pointer to a thread is a thread's address
abbrev pub is_address : Option ℕ → ℕ → Bool
is_address Option.none t = false
is_address (Option.some s) t = s == t
