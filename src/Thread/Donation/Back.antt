-- ===== src/Thread/Donation/Back.antt =====
-- threads/thread.c of prj1: what donation_back restores.
use os_326_omega.Prelude.{
  ℕ, ◌≤◌, ◌≡◌, ◌≢◌, refl, ◌∙◌, ap, ◌⊎◌, inl, inr, ◌==◌, if◌then◌else◌, true, not, Bool-cases, List,
  [], ◌∷◌, fun_ext, some, none, arith, filter,
}
use os_326_omega.Prelude.Panic.{◌>>=◌}
use os_326_omega.Prelude.Int.{ℤ, ltb_ℤ}
use os_326_omega.Thread.{Kernel, Thread, update, is_address, set_priority}
use os_326_omega.Thread.Schedule.{change_priority}
use os_326_omega.Thread.Donation.{sort_ready, drop_donors, restored, give_back, donation_back}
use os_326_omega.Thread.Invariant.{count, IsValid}
use os_326_omega.Thread.Switch.{thread_current-IsValid}
use os_326_omega.Thread.Frame.{sort_ready-IsValid, SameQueue-IsValid, update_priority-SameQueue}

abbrev stops : (ℕ → Thread) → ℕ → ℕ → Thread
stops thread d = update thread d (record (thread d) { wait_lock = none })

drop_donors-status :
    (thread : ℕ → Thread) (l : ℕ) (ds : List ℕ) (i : ℕ)
    → ((drop_donors thread l ds).0 i).status ≡ (thread i).status
unfolding drop_donors
drop_donors-status thread l [] i = refl
drop_donors-status thread l (d ∷ ds) i =
    ground (arith, drop_donors-status (stops thread d) l ds i, drop_donors-status thread l ds i)

drop_donors-priority :
    (thread : ℕ → Thread) (l : ℕ) (ds : List ℕ) (i : ℕ)
    → ((drop_donors thread l ds).0 i).priority ≡ (thread i).priority
unfolding drop_donors
drop_donors-priority thread l [] i = refl
drop_donors-priority thread l (d ∷ ds) i =
    ground (arith, drop_donors-priority (stops thread d) l ds i, drop_donors-priority thread l ds i)

drop_donors-ori_priority :
    (thread : ℕ → Thread) (l : ℕ) (ds : List ℕ) (i : ℕ)
    → ((drop_donors thread l ds).0 i).ori_priority ≡ (thread i).ori_priority
unfolding drop_donors
drop_donors-ori_priority thread l [] i = refl
drop_donors-ori_priority thread l (d ∷ ds) i = ground (
  arith,
  drop_donors-ori_priority (stops thread d) l ds i,
  drop_donors-ori_priority thread l ds i,
)

-- The donors that wait for another lock, or for none.
abbrev pub others : (ℕ → Thread) → ℕ → List ℕ → List ℕ
others thread l ds = filter (λ d. not (is_address (thread d).wait_lock l)) ds

others-stops :
    (thread : ℕ → Thread) (l d : ℕ) (ds : List ℕ)
    → count d ds ≡ 0
    → others (stops thread d) l ds ≡ others thread l ds
unfolding count
others-stops thread l d [] h = refl
others-stops thread l d (e ∷ ds) h = elim (Bool-cases (d == e)) [
  | inl own ↦ absurd (ground arith)
  | inr other ↦ rw (other, others-stops thread l d ds (ground arith)) refl
]

drop_donors-others :
    (thread : ℕ → Thread) (l : ℕ) (ds : List ℕ)
    → ((i : ℕ) → count i ds ≤ 1)
    → (drop_donors thread l ds).1 ≡ others thread l ds
unfolding drop_donors count
drop_donors-others thread l [] h = refl
drop_donors-others thread l (d ∷ ds) h =
    let once : (i : ℕ) → count i ds ≤ 1 = λ i. ground (arith, h i) in
    elim (Bool-cases (is_address (thread d).wait_lock l)) [
      | inl e ↦ rw e (
          drop_donors-others (stops thread d) l ds once
          ∙ others-stops thread l d ds (ground (arith, h d)))
      | inr e ↦ rw e (ap (λ xs. d ∷ xs) (drop_donors-others thread l ds once))
    ]

restored-same :
    (a b : ℕ → Thread) (t u : Thread) (ds : List ℕ)
    → ((i : ℕ) → (a i).priority ≡ (b i).priority)
    → t.ori_priority ≡ u.ori_priority
    → restored a t ds ≡ restored b u ds
restored-same a b t u [] h o = o
restored-same a b t u (d ∷ ds) h o = h d

back_priority :
    (k : Kernel) (l : ℕ)
    → ((give_back k l k.current).thread k.current).priority ≡ (
        let donors = drop_donors k.thread l (k.thread k.current).donation_list in
        restored donors.0 (donors.0 k.current) donors.1)
unfolding give_back
back_priority k l = ground arith

-- the priority that `donors` leave to thread `t`: the newest donor's, or the saved one
abbrev pub Restored : (ℕ → Thread) → ℕ → List ℕ → ℤ → Type 0
Restored thread t donors p =
    ((donors ≡ []) × (p ≡ (thread t).ori_priority))
    ⊎ ((d : ℕ) × (ds : List ℕ) × (donors ≡ d ∷ ds) × (p ≡ (thread d).priority))

restored-Restored :
    (thread : ℕ → Thread) (t : ℕ) (donors : List ℕ) (p : ℤ)
    → p ≡ restored thread (thread t) donors
    → Restored thread t donors p
restored-Restored thread t [] p e = inl (refl, e)
restored-Restored thread t (d ∷ ds) p e = inr (d, ds, refl, e)

pub donation_back-Restored :
    (k : Kernel) (l : ℕ)
    → IsValid k
    → ((i : ℕ) → count i (k.thread k.current).donation_list ≤ 1)
    → (k' : Kernel) × (donation_back k l ≡ some k')
      × IsValid k'
      × ((k'.thread k.current).donation_list ≡ others k.thread l (k.thread k.current).donation_list)
      × Restored k.thread k.current
          (others k.thread l (k.thread k.current).donation_list)
          (k'.thread k.current).priority
      × ((i : ℕ) → i ≢ k.current → (k'.thread i).priority ≡ (k.thread i).priority)
unfolding donation_back give_back
donation_back-Restored k l v once =
    let t = k.current in
    let ds = (k.thread t).donation_list in
    let donors = drop_donors k.thread l ds in
    let k1 = give_back k l t in
    let kept : donors.1 ≡ others k.thread l ds = drop_donors-others k.thread l ds once in
    let (queue, sorted, valid) =
      sort_ready-IsValid k1 (ground (arith, drop_donors-status k.thread l ds t, v.current_runs))
        (λ i h. ground (arith, drop_donors-status k.thread l ds i, v.alone i))
        (λ i. ground (
          arith,
          drop_donors-status k.thread l ds i,
          drop_donors-status k.thread l ds t,
          v.queued i,
        )) in
    let same : restored donors.0 (donors.0 t) donors.1 ≡ restored k.thread (k.thread t) donors.1 =
      restored-same donors.0 k.thread (donors.0 t) (k.thread t) donors.1
        (λ i. drop_donors-priority k.thread l ds i) (drop_donors-ori_priority k.thread l ds t) in
    (
      record k1 { ready_list = queue },
      ap (λ o. o >>= λ u. sort_ready (give_back k l u)) (thread_current-IsValid k v) ∙ sorted,
      valid,
      ground (arith, kept),
      restored-Restored k.thread t (others k.thread l ds) _
          (back_priority k l ∙ same ∙ ap (λ xs. restored k.thread (k.thread t) xs) kept),
      λ i h. ground (arith, drop_donors-priority k.thread l ds i),
    )

others-set_priority :
    (k : Kernel) (t l : ℕ) (p : ℤ) (ds : List ℕ)
    → others (set_priority k t p).thread l ds ≡ others k.thread l ds
others-set_priority k t l p ds = ap (λ q. filter q ds) (fun_ext (λ d. ground arith))

-- A thread with donors, all of them waiting for one lock, whose priority change_priority sets above
-- the donated one: donation_back for that lock then does not fail and gives the thread the priority
-- that was saved before the donation, whatever the new priority is.
pub donation_back-change_priority :
    (k : Kernel) (l : ℕ) (p : ℤ)
    → IsValid k
    → ((i : ℕ) → count i (k.thread k.current).donation_list ≤ 1)
    → ltb_ℤ (k.thread k.current).priority p ≡ true
    → others k.thread l (k.thread k.current).donation_list ≡ []
    → (d : ℕ) (ds : List ℕ) → (k.thread k.current).donation_list ≡ d ∷ ds
    → (k' : Kernel) × (donation_back
          (change_priority k k.current p (k.thread k.current).donation_list)
          l
        ≡ some k')
      × ((k'.thread k.current).priority ≡ (k.thread k.current).ori_priority)
donation_back-change_priority k l p v once above all d ds e =
    let t = k.current in
    let k1 = set_priority k t p in
    let same : (k1.thread t).donation_list ≡ (k.thread t).donation_list = ground arith in
    let left : others k1.thread l (k1.thread t).donation_list ≡ [] =
      ap (others k1.thread l) same ∙ others-set_priority k t l p (k.thread t).donation_list ∙ all in
    let (k', run, valid, list, prio, rest) =
      donation_back-Restored k1 l (SameQueue-IsValid k k1 (update_priority-SameQueue k p v) v)
        (λ i. rw same (once i)) in
    (
      k',
      ap (λ xs. donation_back (change_priority k t p xs) l) e
          ∙ ap
              (λ b.
                donation_back
                  (if b then k1 else record k {
                    thread = update k.thread t (record (k.thread t) { ori_priority = p });
                  })
                  l)
              above
          ∙ run,
      elim prio [
        | inl (none_left, p') ↦ p' ∙ ori
        | inr (d', ds', some_left, p') ↦ absurd (ground (arith, left))
      ],
    )
  where
    ori :
        ((set_priority k k.current p).thread k.current).ori_priority
        ≡ (k.thread k.current).ori_priority
    ori = ground arith
