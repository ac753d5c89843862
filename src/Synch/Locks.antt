-- ===== src/Synch/Locks.antt =====
-- threads/synch.c of prj1: a lock that is taken and given back.
use os_326_omega.Prelude.{
  ℕ, ◌+◌, ◌-◌, ◌%◌, ◌^◌, ◌≡◌, ◌≢◌, refl, sym, ◌∙◌, ap, false, true, [], some, none, arith,
}
use os_326_omega.Thread.{Kernel, Lock, Semaphore, update, is_address}
use os_326_omega.Thread.Schedule.{thread_current, thread_super_yield}
use os_326_omega.Thread.Invariant.{IsValid, IsHighest, runnable, Runs}
use os_326_omega.Thread.Switch.{thread_super_yield-IsHighest}
use os_326_omega.Thread.Frame.{SameQueue-IsValid}
use os_326_omega.Synch.{
  sema_down, sema_up, sema_try_down, lock_held_by_current_thread, lock_acquire, lock_try_acquire,
  lock_release,
}
use os_326_omega.Synch.Laws.{IsPreemptive}

-- a lock after lock_init
abbrev pub free_lock : Lock
free_lock = record { holder = none; semaphore = record { value = 1; waiters = [] } }

abbrev set_lock : Kernel → ℕ → Lock → Kernel
set_lock k l x = record k { lock = update k.lock l x }

module _ (k : Kernel) (l : ℕ) (v : IsValid k) (h : IsPreemptive k) (e : k.lock l ≡ free_lock) where
  -- the lock taken by the running thread
  taken : Kernel
  taken =
      let down = set_lock k l (record (k.lock l) {
        semaphore = record {
          value = (k.lock l).semaphore.value - 1;
          waiters = (k.lock l).semaphore.waiters;
        };
      }) in
      set_lock down l (record (down.lock l) { holder = some k.current })

  taken_run : lock_acquire k l ≡ some (true, taken)
  unfolding lock_acquire sema_down thread_current lock_held_by_current_thread taken
  taken_run = ground (
    arith,
    v.current_runs,
    h.no_interrupt,
    ap Lock.holder e,
    ap (λ x. Semaphore.value (Lock.semaphore x)) e,
    ap (λ x. Semaphore.waiters (Lock.semaphore x)) e,
  )

  -- the lock given back, before the thread may yield
  given : Kernel
  unfolding taken
  given =
      let freed = set_lock taken l (record (taken.lock l) { holder = none }) in
      set_lock freed l (record (freed.lock l) {
        semaphore = record (Lock.semaphore (freed.lock l)) {
          value = (Semaphore.value (Lock.semaphore (freed.lock l)) + 1) % 2 ^ 32;
        };
      })

  given_run : lock_release taken l ≡ thread_super_yield given
  unfolding lock_release lock_held_by_current_thread thread_current sema_up taken given
  given_run = ground (
    arith,
    v.current_runs,
    ap Lock.holder e,
    ap (λ x. Semaphore.value (Lock.semaphore x)) e,
    ap (λ x. Semaphore.waiters (Lock.semaphore x)) e,
  )

  given_lock : given.lock l ≡ free_lock
  unfolding given taken
  given_lock = ground (arith, e)

  given-IsValid : IsValid given
  unfolding given taken
  given-IsValid =
      SameQueue-IsValid k _
        (record {
          status = λ i. refl;
          priority = λ i c. refl;
          ready_list = refl;
          current = refl;
          mlfqs = refl;
        })
        v

  given-fields :
      (given.thread_mlfqs ≡ k.thread_mlfqs)
      × (given.intr_context ≡ k.intr_context)
      × (given.idle_thread ≡ k.idle_thread)
  unfolding given taken
  given-fields = (refl, refl, refl)

  given-runnable : (i : ℕ) → runnable given i ≡ runnable k i
  unfolding given taken
  given-runnable i = refl

  -- While the lock is held, a valid state in which another thread runs.
  others_fail :
      (m : Kernel)
      → IsValid m
      → m.lock l ≡ taken.lock l
      → m.current ≢ k.current
      → lock_try_acquire m l ≡ some (false, m)
  unfolding lock_try_acquire lock_held_by_current_thread thread_current sema_try_down taken
  others_fail m w same other = ground (
    arith,
    w.current_runs,
    ap Lock.holder same,
    ap (λ x. Semaphore.value (Lock.semaphore x)) same,
    ap (λ x. Semaphore.value (Lock.semaphore x)) e,
  )

  -- lock_acquire of a free lock without waiters, in a valid state of the priority scheduler outside an
  -- interrupt and with the idle thread known, succeeds without waiting, and the running thread holds the
  -- lock. In any valid state with the lock as it then is, in which another thread runs,
  -- lock_try_acquire fails and changes nothing. lock_release by the holder does not fail and leaves the
  -- lock as it was before lock_acquire; the state is valid again, no ready thread has a greater
  -- priority than the one that runs, and apart from the idle thread the same threads run or are ready.
  pub lock_release-lock_acquire :
      (k1 : Kernel) × (lock_acquire k l ≡ some (true, k1))
      × ((k1.lock l).holder ≡ some k.current)
      × ((m : Kernel)
          → IsValid m
          → m.lock l ≡ k1.lock l
          → m.current ≢ k.current
          → lock_try_acquire m l ≡ some (false, m))
      × (k2 : Kernel) × (lock_release k1 l ≡ some k2)
      × (k2.lock l ≡ k.lock l)
      × IsValid k2
      × IsHighest k2
      × Runs k k2 (runnable k)
  unfolding taken
  lock_release-lock_acquire =
      let (fm, fc, fe) = given-fields in
      let (k2, run, valid, highest, same, runs) =
        thread_super_yield-IsHighest given h.idle given-IsValid (fm ∙ h.priority_mode)
          (fc ∙ h.no_interrupt) (fe ∙ h.idle_known) in
      (
        taken,
        taken_run,
        ground arith,
        others_fail,
        k2,
        given_run ∙ run,
        ap (λ f. f l) same.lock ∙ given_lock ∙ sym e,
        valid,
        highest,
        λ i c. runs i (ap (λ o. is_address o i) fe ∙ c) ∙ given-runnable i,
      )
