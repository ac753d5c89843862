-- ===== src/Thread/Donation.antt =====
-- threads/thread.c of prj1: priority donation. A null pointer that is followed is a page fault: `none`.
pub mod Laws
pub mod Back
use os_326_omega.Prelude.{ℕ, zero, suc, ◌+◌, if◌then◌else◌, List, [], ◌∷◌, Option, some, none}
use os_326_omega.Prelude.Panic.{◌>>=◌, ◌>>◌}
use os_326_omega.Prelude.Int.{ℤ}
use os_326_omega.Ordered.{list_sort}
use os_326_omega.Thread.{Kernel, Thread, update, set_priority, compare_thread_priority, is_address}
use os_326_omega.Thread.Schedule.{thread_current}

abbrev pub max_depth : ℕ
max_depth = 8

-- list_sort of the ready list
unfoldable pub sort_ready : Kernel → Option Kernel
sort_ready k = do
  queue ← list_sort (compare_thread_priority k.thread) k.ready_list
  some (record k { ready_list = queue })

-- The loop that passes priority `p` on from the holder `t`; at most `n` rounds.
unfoldable pub donate_chain : ℕ → Kernel → ℕ → ℤ → Option Kernel
donate_chain zero k t p = some k
donate_chain (suc n) k t p = elim (k.thread t).wait_lock [
  | none ↦ some k
  | some l ↦ (k.lock l).holder >>= λ h. donate_chain n (set_priority k h p) h p
]

-- the priority that the first donor saves
abbrev pub save_priority : Thread → List ℕ → Thread
save_priority t [] = record t { ori_priority = t.priority }
save_priority t (d ∷ ds) = t

-- What donation notes before the loop: the first donor of `h` saves its priority, the running
-- thread `t` waits for the lock and is the newest donor, and `h` has its priority.
unfoldable pub note_donation : Kernel → ℕ → ℕ → ℕ → Kernel
note_donation k l t h =
    let holder = k.thread h in
    let threads = update k.thread h (save_priority holder holder.donation_list) in
    let waiting = update threads t (record (threads t) { wait_lock = some l }) in
    let listed =
      update waiting h (record (waiting h) { donation_list = t ∷ (waiting h).donation_list }) in
    set_priority (record k { thread = listed }) h (listed t).priority

unfoldable pub donation : Kernel → ℕ → Option Kernel
unfolding thread_current note_donation
donation k l = do
  t ← thread_current k
  h ← (k.lock l).holder
  let noted = note_donation k l t h
  k' ← donate_chain (max_depth + 1) noted h (noted.thread t).priority
  sort_ready k'

-- The donors that do not wait for the lock; the others stop waiting.
unfoldable pub drop_donors : (ℕ → Thread) → ℕ → List ℕ → (ℕ → Thread) × List ℕ
drop_donors thread l [] = (thread, [])
drop_donors thread l (d ∷ ds) =
    let dropped = drop_donors (update thread d (record (thread d) { wait_lock = none })) l ds in
    let kept : (ℕ → Thread) × List ℕ =
      (let rest = drop_donors thread l ds in (rest.0, d ∷ rest.1)) in
    if is_address (thread d).wait_lock l then dropped else kept

-- the priority that remains with the donors left
abbrev pub restored : (ℕ → Thread) → Thread → List ℕ → ℤ
restored thread t [] = t.ori_priority
restored thread t (first ∷ ds) = (thread first).priority

-- The state in which thread `t` has lost the donors that wait for the lock, and its priority is restored.
unfoldable pub give_back : Kernel → ℕ → ℕ → Kernel
give_back k l t =
    let donors = drop_donors k.thread l (k.thread t).donation_list in
    let cur = donors.0 t in
    let back = record cur { donation_list = donors.1; priority = restored donors.0 cur donors.1 } in
    record k { thread = update donors.0 t back }

unfoldable pub donation_back : Kernel → ℕ → Option Kernel
unfolding thread_current give_back
donation_back k l = do t ← thread_current k; sort_ready (give_back k l t)
