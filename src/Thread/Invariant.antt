-- ===== src/Thread/Invariant.antt =====
-- threads/thread.c of prj1: what holds of the ready list and of the running thread between switches.
use os_326_omega.Prelude.{
  ℕ, ◌+◌, ◌≤◌, ◌<◌, ◌≡◌, refl, sym, ◌∙◌, ap, subst, ◌==◌, if◌then◌else◌, Bool, true, false, inl,
  inr, Bool-cases, ==_iff, List, [], ◌∷◌, arith, filter, length,
}
use os_326_omega.Prelude.Int.{◌≤ℤ◌}
use os_326_omega.Ordered.{list_insert_ordered}
use os_326_omega.Ordered.Merge.{IsOrder, IsSorted}
use os_326_omega.Ordered.Sort.{Sorted}
use os_326_omega.Thread.{
  Kernel, Thread, Status, is_ready, is_running, compare_thread_priority, is_address,
}

-- how often a thread stands in a list
unfoldable pub count : ℕ → List ℕ → ℕ
count i [] = 0
count i (x ∷ xs) = (if x == i then 1 else 0) + count i xs

count-filter : (i : ℕ) (xs : List ℕ) → count i xs ≡ length (filter (λ x. x == i) xs)
unfolding count
count-filter i [] = refl
count-filter i (x ∷ xs) = ground (arith, count-filter i xs)

pub count-insert :
    (less : ℕ → ℕ → Bool) (i a : ℕ) (xs : List ℕ)
    → count i (list_insert_ordered less a xs) ≡ count i (a ∷ xs)
unfolding count list_insert_ordered
count-insert less i a [] = refl
count-insert less i a (e ∷ xs) = ground (arith, count-insert less i a xs)

pub priority-IsOrder : (thread : ℕ → Thread) → IsOrder (compare_thread_priority thread)
priority-IsOrder thread = record { asym = λ a b h. ground arith; trans = λ a b c h k. ground arith }

pub count-sort :
    (thread : ℕ → Thread) (i : ℕ) (xs ys : List ℕ)
    → Sorted (compare_thread_priority thread) xs ys
    → count i ys ≡ count i xs
count-sort thread i xs ys s =
    count-filter i ys
    ∙ ap length (s.stable (λ x. x == i) (λ a b p q. ground arith))
    ∙ sym (count-filter i xs)

not_less :
    (thread : ℕ → Thread) (a b : ℕ)
    → compare_thread_priority thread a b ≡ false
    → (thread a).priority ≤ℤ (thread b).priority
not_less thread a b h = ground arith

-- The head of a sorted list has the greatest priority.
pub head_highest :
    (thread : ℕ → Thread) (t : ℕ) (ts : List ℕ)
    → IsSorted (compare_thread_priority thread) (t ∷ ts)
    → (i : ℕ) → 0 < count i ts
    → (thread i).priority ≤ℤ (thread t).priority
unfolding count
head_highest thread t [] h i c = absurd (omega arith)
head_highest thread t (s ∷ ts) h i c =
    let le : (thread s).priority ≤ℤ (thread t).priority = not_less thread s t h.0 in
    elim (Bool-cases (s == i)) [
      | inl e ↦ subst (λ j. (thread j).priority ≤ℤ (thread t).priority) ((==_iff s i).0 e) le
      | inr e ↦ omega (arith, head_highest thread s ts h.1 i (ground arith))
    ]

-- Between switches: the running thread is the only one with that status, a thread is in the ready
-- list at most once and only when it is ready, and the list is in order of priority (the
-- multi-level feedback queue sorts it later).
pub record IsValid (k : Kernel) : Type 0 where
  pub current_runs : is_running (k.thread k.current).status ≡ true
  pub alone : (i : ℕ) → is_running (k.thread i).status ≡ true → i ≡ k.current
  pub queued : (i : ℕ) → count i k.ready_list ≤ (if is_ready (k.thread i).status then 1 else 0)
  pub sorted : k.thread_mlfqs ≡ false → IsSorted (compare_thread_priority k.thread) k.ready_list

-- At a switch no thread runs.
pub record IsSuspended (k : Kernel) : Type 0 where
  pub idle : (i : ℕ) → is_running (k.thread i).status ≡ false
  pub queued : (i : ℕ) → count i k.ready_list ≤ (if is_ready (k.thread i).status then 1 else 0)
  pub sorted : k.thread_mlfqs ≡ false → IsSorted (compare_thread_priority k.thread) k.ready_list

-- No ready thread has a greater priority than the running one.
abbrev pub IsHighest : Kernel → Type 0
IsHighest k =
    (i : ℕ) → 0 < count i k.ready_list → (k.thread i).priority ≤ℤ (k.thread k.current).priority

-- a thread without its status
abbrev pub but_status : Thread → Thread
but_status t = record t { status = Status.ready }

-- Nothing but statuses, the ready list, the current thread and the tick counts has changed.
pub record SameData (k k' : Kernel) : Type 0 where
  pub thread : (i : ℕ) → but_status (k'.thread i) ≡ but_status (k.thread i)
  pub lock : k'.lock ≡ k.lock
  pub waiter : k'.waiter ≡ k.waiter
  pub condition : k'.condition ≡ k.condition
  pub idle_thread : k'.idle_thread ≡ k.idle_thread
  pub mlfqs : k'.thread_mlfqs ≡ k.thread_mlfqs
  pub intr_context : k'.intr_context ≡ k.intr_context

pub SameData-refl : (k : Kernel) → SameData k k
SameData-refl k = record {
  thread = λ i. refl;
  lock = refl;
  waiter = refl;
  condition = refl;
  idle_thread = refl;
  mlfqs = refl;
  intr_context = refl;
}

pub SameData-trans : (a b c : Kernel) → SameData a b → SameData b c → SameData a c
SameData-trans a b c r s = record {
  thread = λ i. s.thread i ∙ r.thread i;
  lock = s.lock ∙ r.lock;
  waiter = s.waiter ∙ r.waiter;
  condition = s.condition ∙ r.condition;
  idle_thread = s.idle_thread ∙ r.idle_thread;
  mlfqs = s.mlfqs ∙ r.mlfqs;
  intr_context = s.intr_context ∙ r.intr_context;
}

-- how often a thread runs or stands in the ready list: once or not at all in a valid state
abbrev pub runnable : Kernel → ℕ → ℕ
runnable k i = count i k.ready_list + (if k.current == i then 1 else 0)

-- The threads that run or are ready in `k'`, without the idle thread of `k`, which the ready list
-- does not hold.
abbrev pub Runs : Kernel → Kernel → (ℕ → ℕ) → Type 0
Runs k k' r = (i : ℕ) → is_address k.idle_thread i ≡ false → runnable k' i ≡ r i
