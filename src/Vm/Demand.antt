-- ===== src/Vm/Demand.antt =====
-- vm/page.c of prj3: load_page, from the lock of the entry on.
use os_326_omega.Prelude.{
  ℕ, suc, ◌+◌, ◌<◌, ◌≡◌, ◌≢◌, refl, ◌∙◌, ap, subst, ◌⊎◌, inl, inr, ◌==◌, ==_iff, if◌then◌else◌,
  Bool, true, false, Bool-cases, arith, List, [], ◌∷◌, some,
}
use os_326_omega.Bitmap.View.{view}
use os_326_omega.Vm.{
  file_page, mmap_page, swap_page, is_swap, Spte, FrameEntry, Files, Vm, set_spte, pagedir_is_dirty,
  pagedir_is_accessed,
}
use os_326_omega.Vm.Page.{load_file, load_swap, load_by_type, load_page}
use os_326_omega.Vm.Invariant.{AllEntries, IsVm}
use os_326_omega.Vm.Alloc.{Candidate}
use os_326_omega.Vm.Load.{Loaded, load_file-Loaded, load_swap-Loaded}

-- The page can be read: a page of a file and the zeros behind it fill a frame, and a page of the swap
-- partition is writable.
abbrev pub Loadable : Spte → Type 0
Loadable e =
    (((e.type ≡ file_page) ⊎ (e.type ≡ mmap_page)) × (e.read_bytes + e.zero_bytes ≡ 4096))
    ⊎ ((e.type ≡ swap_page) × (e.writable ≡ true))

module _ (F : Files) (owner : ℕ → ℕ) where
  open F use {State}

  -- other locks
  module _ (vm : Vm State) (locks : ℕ → Bool)
      (more : (q : ℕ) → locks q ≡ false → (vm.spte q).locked ≡ false) where
    abbrev relocked : Vm State
    relocked = record vm { spte = λ q. record (vm.spte q) { locked = locks q } }

    relocked-AllEntries :
        (fes : List FrameEntry) → AllEntries F owner vm fes → AllEntries F owner relocked fes
    relocked-AllEntries [] all = tt
    relocked-AllEntries (fe ∷ fes) all = (
      (λ u.
          let e = all.0 (more fe.spte u) in
          record { thread = e.thread; in_memory = e.in_memory; frame = e.frame }),
      relocked-AllEntries fes all.1,
    )

    relocked-IsVm : IsVm F owner vm → IsVm F owner relocked
    unfolding pagedir_is_dirty
    relocked-IsVm v = record {
      memory = v.memory;
      swap = v.swap;
      table = v.table;
      present = v.present;
      absent = v.absent;
      in_use = v.in_use;
      frames = v.frames;
      addresses = v.addresses;
      clean = v.clean;
      slot_inside = v.slot_inside;
      slot_used = v.slot_used;
      slots = v.slots;
      inside_file = v.inside_file;
      apart = v.apart;
      keys = v.keys;
      entries = relocked-AllEntries vm.frame_table v.entries;
    }

  module _ (vm : Vm State) (p : ℕ) (v : IsVm F owner vm) (out : (vm.spte p).in_memory ≡ false) where
    with_lock : ℕ → Bool
    with_lock q = if p == q then true else (vm.spte q).locked

    with_lock-more : (q : ℕ) → with_lock q ≡ false → (vm.spte q).locked ≡ false
    unfolding with_lock
    with_lock-more q h = ground arith

    abbrev locked_vm : Vm State
    locked_vm = relocked vm with_lock with_lock-more

    locked-eq : set_spte vm p (record (vm.spte p) { locked = true }) ≡ locked_vm
    unfolding with_lock
    locked-eq = λ i. record vm { spte = λ q. at q i }
      where
        at :
            (q : ℕ)
            → (if p == q then record (vm.spte p) { locked = true } else vm.spte q)
              ≡ record (vm.spte q) { locked = if p == q then true else (vm.spte q).locked }
        at q = elim (Bool-cases (p == q)) [
          | inl own ↦ rw own (ap (λ x. record (vm.spte x) { locked = true }) ((==_iff p q).0 own))
          | inr other ↦ rw other refl
        ]

    locked-Candidate :
        (fes : List FrameEntry)
        → AllEntries F owner vm fes
        → Candidate F owner vm fes
        → Candidate F owner locked_vm fes
    unfolding with_lock pagedir_is_accessed
    locked-Candidate [] all c = c
    locked-Candidate (fe ∷ fes) all (inl (free, idle)) =
        let here = (all.0 free).in_memory in
        let ne : p ≢ fe.spte =
          λ e. let off = subst (λ x. (vm.spte x).in_memory ≡ false) e out in cc in
        inl (ground arith, idle)
    locked-Candidate (fe ∷ fes) all (inr c) = inr (locked-Candidate fes all.1 c)

    own_lock : with_lock p ≡ true
    unfolding with_lock
    own_lock = ground arith

    relocked-Loaded : (w : Vm State) → Loaded F owner locked_vm w p → Loaded F owner vm w p
    relocked-Loaded w l = record {
      well_formed = l.well_formed;
      in_memory = l.in_memory;
      bytes = l.bytes;
    }

    -- load_page of a page that is not in memory, by its own thread and where page tables can
    -- be allocated, in a well formed state with a page in the frame table that is not locked
    -- and was not accessed and a free swap slot: if it is a page of a file whose bytes and zeros make up a frame,
    -- or a writable page of the swap partition, load_page succeeds. The state is well formed
    -- again, the page is in memory, and every page has the bytes that it had in its frame,
    -- its file or its swap slot before.
    pub load_page-Loaded :
        (n place k : ℕ)
        → vm.current ≡ owner p
        → Loadable (vm.spte p)
        → Candidate F owner vm vm.frame_table
        → k < vm.swap.swap_bitmap.bit_cnt
        → view vm.swap.swap_bitmap k ≡ false
        → (w : Vm State) × (load_page F (suc n) place true vm p ≡ some (true, w))
          × Loaded F owner vm w p
    unfolding load_page
    load_page-Loaded n place k here loadable c h free =
        let v' = relocked-IsVm vm with_lock with_lock-more v in
        let c' = locked-Candidate vm.frame_table v.entries c in
        let rounds = suc n in
        let locked = set_spte vm p (record (vm.spte p) { locked = true }) in
        let from_file = load_file F rounds place true locked_vm p in
        let from_swap = load_swap F rounds place true locked_vm p in
        let start : load_page F rounds place true vm p
            ≡ load_by_type F (vm.spte p).type (load_file F rounds place true locked_vm p)
                (load_swap F rounds place true locked_vm p) locked_vm =
          ap
            (λ m.
              if m
              then some (false, locked)
              else load_by_type F (vm.spte p).type (load_file F rounds place true locked p)
                  (load_swap F rounds place true locked p) locked)
            out
          ∙ ap
              (λ l.
                load_by_type F (vm.spte p).type (load_file F rounds place true l p)
                  (load_swap F rounds place true l p) l)
              locked-eq in
        elim loadable [
          | inl (type, whole) ↦
              let file : is_swap (vm.spte p).type ≡ false = elim type [
                | inl t ↦ ap is_swap t
                | inr t ↦ ap is_swap t
              ] in
              let (w, e, l) =
                load_file-Loaded F owner n place k locked_vm p v' here out own_lock c' h free file
                  whole in
              (
                w,
                start ∙ elim type [
                  | inl t ↦ ap (λ x. load_by_type F x from_file from_swap locked_vm) t ∙ e
                  | inr t ↦ ap (λ x. load_by_type F x from_file from_swap locked_vm) t ∙ e
                ],
                relocked-Loaded w l,
              )
          | inr (type, writable) ↦
              let (w, e, l) =
                load_swap-Loaded F owner n place k locked_vm p v' here out own_lock c' h free
                  (ap is_swap type) writable in
              (
                w,
                start ∙ ap (λ x. load_by_type F x from_file from_swap locked_vm) type ∙ e,
                relocked-Loaded w l,
              )
        ]
