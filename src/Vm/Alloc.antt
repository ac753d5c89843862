-- ===== src/Vm/Alloc.antt =====
-- vm/frame.c of prj3: the search for a victim, and the loop of frame_alloc.
use os_326_omega.Prelude.{
  ℕ, suc, ◌<◌, ◌≡◌, refl, ◌∙◌, ap, ◌⊎◌, inl, inr, if◌then◌else◌, true, false, Bool-cases, arith,
  List, [], ◌∷◌, Option, some,
}
use os_326_omega.Bitmap.View.{view}
use os_326_omega.Palloc.{Flags}
use os_326_omega.Vm.{FrameEntry, Pte, Files, Vm, pagedir_is_accessed, pagedir_set_accessed}
use os_326_omega.Vm.Frame.{replace, evict_scan, frame_evict, alloc_loop}
use os_326_omega.Vm.Invariant.{AllEntries, IsVm}
use os_326_omega.Vm.Evict.{Replaced, replace-Replaced}
use os_326_omega.Vm.Fade.{
  Faded, with_pagedir, cleared, Faded-AllEntries, Faded-IsVm, Faded-Replaced,
}

module _ (F : Files) (owner : ℕ → ℕ) where
  open F use {State}

  -- An entry of the list is not locked, and its page was not accessed.
  abbrev pub Candidate : Vm State → List FrameEntry → Type 0
  Candidate vm [] = ⊥
  Candidate vm (fe ∷ fes) =
      (((vm.spte fe.spte).locked ≡ false)
        × (pagedir_is_accessed vm fe.thread (vm.spte fe.spte).vaddr ≡ false))
      ⊎ Candidate vm fes

  accessed_fades :
      (vm : Vm State) (d : ℕ → ℕ → Pte)
      → Faded vm.pagedir d
      → (t a : ℕ) → pagedir_is_accessed vm t a ≡ false
      → pagedir_is_accessed (with_pagedir F owner vm d) t a ≡ false
  unfolding pagedir_is_accessed
  accessed_fades vm d f t a h = ground (arith, f.table t a, f.accessed t a)

  Faded-Candidate :
      (vm : Vm State) (d : ℕ → ℕ → Pte)
      → Faded vm.pagedir d
      → (fes : List FrameEntry) → Candidate vm fes
      → Candidate (with_pagedir F owner vm d) fes
  Faded-Candidate vm d f [] c = c
  Faded-Candidate vm d f (fe ∷ fes) (inl (unlocked, idle)) =
      inl (unlocked, accessed_fades vm d f fe.thread (vm.spte fe.spte).vaddr idle)
  Faded-Candidate vm d f (fe ∷ fes) (inr c) = inr (Faded-Candidate vm d f fes c)

  module _ (flags : Flags) (user : flags.pal_user ≡ true) (no_assert : flags.pal_assert ≡ false)
      (k : ℕ) where
    -- what a search that finds a page comes to
    abbrev Searched : Vm State → Option (Option ℕ × Vm State) → Type 0
    Searched vm o =
        (g : ℕ) × (vm' : Vm State) × (p : ℕ) × (o ≡ some (some g, vm'))
        × ((vm.spte p).locked ≡ false)
        × Replaced F owner flags vm vm' p g

    evict_scan-Searched :
        (vm : Vm State) (fes : List FrameEntry)
        → IsVm F owner vm
        → AllEntries F owner vm fes
        → Candidate vm fes
        → k < vm.swap.swap_bitmap.bit_cnt
        → view vm.swap.swap_bitmap k ≡ false
        → Searched vm (evict_scan F flags vm fes)
    unfolding evict_scan
    evict_scan-Searched vm [] v all c h free = absurd c
    evict_scan-Searched vm (fe ∷ fes) v all c h free = elim (Bool-cases (vm.spte fe.spte).locked) [
      | inl locked ↦
          let (g, vm', p, e, l, s) =
            evict_scan-Searched vm fes v all.1 (later_locked c locked) h free in
          (g, vm', p, rw locked e, l, s)
      | inr unlocked ↦
          elim (Bool-cases (pagedir_is_accessed vm fe.thread (vm.spte fe.spte).vaddr)) [
            | inl accessed ↦
                let (d, x, f, off) = cleared F owner vm fe.thread (vm.spte fe.spte).vaddr in
                let (g, vm', p, e, l, s) =
                  evict_scan-Searched (with_pagedir F owner vm d) fes (Faded-IsVm F owner vm d f v)
                    (Faded-AllEntries F owner vm d f fes all.1)
                    (Faded-Candidate vm d f fes (later_accessed c accessed)) h free in
                (
                  g,
                  vm',
                  p,
                  rw (unlocked, accessed, x) e,
                  l,
                  Faded-Replaced F owner vm d f flags vm' p g s,
                )
            | inr idle ↦
                let (g, vm', e, s) =
                  replace-Replaced F owner flags vm fe k v (all.0 unlocked) user no_assert h free in
                (g, vm', fe.spte, taken unlocked idle ∙ e, unlocked, s)
          ]
    ]
      where
        later_locked : Candidate vm (fe ∷ fes) → (vm.spte fe.spte).locked ≡ true → Candidate vm fes
        later_locked (inl (unlocked, idle)) l = absurd (cc)
        later_locked (inr rest) l = rest

        later_accessed :
            Candidate vm (fe ∷ fes)
            → pagedir_is_accessed vm fe.thread (vm.spte fe.spte).vaddr ≡ true
            → Candidate vm fes
        later_accessed (inl (unlocked, idle)) a = absurd (cc)
        later_accessed (inr rest) a = rest

        taken :
            (vm.spte fe.spte).locked ≡ false
            → pagedir_is_accessed vm fe.thread (vm.spte fe.spte).vaddr ≡ false
            → evict_scan F flags vm (fe ∷ fes) ≡ replace F flags vm fe
        taken unlocked idle =
            let cleared =
              evict_scan F flags (pagedir_set_accessed vm fe.thread (vm.spte fe.spte).vaddr false)
                fes in
            ap
              (λ b.
                if b
                then evict_scan F flags vm fes
                else if pagedir_is_accessed vm fe.thread (vm.spte fe.spte).vaddr
                then cleared
                else replace F flags vm fe)
              unlocked
            ∙ ap (λ b. if b then cleared else replace F flags vm fe) idle

    -- The loop of frame_alloc, in a well formed state with a page in the frame table that is not locked
    -- and was not accessed, and with a free swap slot, for the user pool and without PAL_ASSERT, ends
    -- after one search of the frame table and has replaced a page that was not locked.
    pub alloc_loop-Replaced :
        (n : ℕ) (vm : Vm State)
        → IsVm F owner vm
        → Candidate vm vm.frame_table
        → k < vm.swap.swap_bitmap.bit_cnt
        → view vm.swap.swap_bitmap k ≡ false
        → (g : ℕ) × (vm' : Vm State) × (p : ℕ) × (alloc_loop F (suc n) flags vm ≡ some (g, vm'))
          × ((vm.spte p).locked ≡ false)
          × Replaced F owner flags vm vm' p g
    unfolding alloc_loop frame_evict
    alloc_loop-Replaced n vm v c h free =
        let (g, vm', p, e, l, s) = evict_scan-Searched vm vm.frame_table v v.entries c h free in
        (g, vm', p, rw e refl, l, s)
