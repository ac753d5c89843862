-- ===== src/Thread/Donation/Laws.antt =====
-- threads/thread.c of prj1: what a donation does to the priorities and to the ready list.
use os_326_omega.Prelude.{ℕ, suc, ◌≡◌, ◌≢◌, ◌⊎◌, Option, some}
use os_326_omega.Prelude.Int.{ℤ}
use os_326_omega.Thread.{Kernel, Thread}

-- A lock that some thread waits for by donation has a holder.
abbrev pub AllHeld : Kernel → Type 0
AllHeld k = (t l : ℕ) → (k.thread t).wait_lock ≡ some l → (h : ℕ) × ((k.lock l).holder ≡ some h)

-- Only priorities change (and who waits or donates), and only to `p`.
pub record Raised (p : ℤ) (k k' : Kernel) : Type 0 where
  pub status : (i : ℕ) → (k'.thread i).status ≡ (k.thread i).status
  pub priority :
      (i : ℕ) → ((k'.thread i).priority ≡ (k.thread i).priority) ⊎ ((k'.thread i).priority ≡ p)
  pub ready_list : k'.ready_list ≡ k.ready_list
  pub current : k'.current ≡ k.current
  pub lock : k'.lock ≡ k.lock

-- Thread `h` waits by donation, directly or through at most `n` holders, for a lock that `i` holds, or
-- is `i`; the running thread is passed by no step.
pub data Chain (k : Kernel) : ℕ → ℕ → ℕ → Type 0 where
  here : (n h : ℕ) → Chain k n h h
  next :
      (n h l g i : ℕ)
      → h ≢ k.current
      → (k.thread h).wait_lock ≡ some l
      → (k.lock l).holder ≡ some g
      → Chain k n g i
      → Chain k (suc n) h i
