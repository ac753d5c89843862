-- ===== src/Thread/Create/Laws.antt =====
-- threads/thread.c of prj1: a new thread runs at once if it has the greatest priority.
use os_326_omega.Prelude.{ℕ, ◌≡◌, ◌≢◌, [], ◌∷◌, ◌++◌}
use os_326_omega.Prelude.Int.{ℤ}
use os_326_omega.Thread.{Kernel, Thread, update}
use os_326_omega.Thread.Invariant.{count}
use os_326_omega.Thread.Switch.{unblocked}
use os_326_omega.Thread.Create.{new_thread, allocate_tid}

-- the state after init_thread
created : Kernel → ℕ → ℤ → Kernel
created k t p = record k {
  thread = update k.thread t (new_thread p);
  all_list = k.all_list ++ t ∷ [];
}

-- A page that belongs to no ready or running thread may become a new one.
abbrev pub IsUnused : Kernel → ℕ → Type 0
IsUnused k t = (count t k.ready_list ≡ 0) × (t ≢ k.current)

-- the new thread before it is made ready
fresh : Kernel → ℕ → ℤ → Kernel
fresh k t p = allocate_tid (created k t p) t

ready_state : Kernel → ℕ → ℤ → Kernel
ready_state k t p = unblocked (fresh k t p) t
