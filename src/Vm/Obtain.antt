-- ===== src/Vm/Obtain.antt =====
-- vm/frame.c of prj3: frame_alloc, by a free page of the pool or by the replacement of one.
use os_326_omega.Prelude.{
  ℕ, zero, suc, ◌<◌, ◌≡◌, ◌≢◌, refl, ◌∙◌, ap, subst, inl, inr, true, false, Bool-cases, arith, List,
  [], ◌∷◌, Option, some, none,
}
use os_326_omega.Bitmap.View.{view}
use os_326_omega.Palloc.{Flags, Memory, palloc_get_page}
use os_326_omega.Palloc.Laws.{IsMemory, InUse, GetOutcome, palloc_get_page-Obtained}
use os_326_omega.Vm.{FrameEntry, Files, Vm, pagedir_is_dirty}
use os_326_omega.Vm.Frame.{
  hash_find, hash_insert, insert_at, alloc_loop, frame_add_to_ft, frame_alloc,
}
use os_326_omega.Vm.Invariant.{Distinct, AllEntries, frame_of, page_byte, extent, IsVm}
use os_326_omega.Vm.Reuse.{OnlyPage-InUse}
use os_326_omega.Vm.Alloc.{Candidate, alloc_loop-Replaced}

hash_find-insert_at :
    (f place : ℕ) (fe : FrameEntry) (fes : List FrameEntry)
    → f ≢ fe.frame
    → hash_find f fes ≡ false
    → hash_find f (insert_at place fe fes) ≡ false
unfolding hash_find insert_at
hash_find-insert_at f zero fe fes ne h = ground arith
hash_find-insert_at f (suc place) fe [] ne h = ground arith
hash_find-insert_at f (suc place) fe (e ∷ fes) ne h =
    let ih = hash_find-insert_at f place fe fes ne in ground arith

insert_at-Distinct :
    (place : ℕ) (fe : FrameEntry) (fes : List FrameEntry)
    → hash_find fe.frame fes ≡ false
    → Distinct fes
    → Distinct (insert_at place fe fes)
unfolding hash_find insert_at
insert_at-Distinct zero fe fes h d = (h, d)
insert_at-Distinct (suc place) fe [] h d = (refl, tt)
insert_at-Distinct (suc place) fe (e ∷ fes) h d = (
  hash_find-insert_at e.frame place fe fes (ground arith) d.0,
  insert_at-Distinct place fe fes (ground arith) d.1,
)

hash_insert-Distinct :
    (place : ℕ) (fe : FrameEntry) (fes : List FrameEntry)
    → Distinct fes
    → Distinct (hash_insert place fe fes)
unfolding hash_insert
hash_insert-Distinct place fe fes d = elim (Bool-cases (hash_find fe.frame fes)) [
  | inl h ↦ rw h d
  | inr h ↦ rw h (insert_at-Distinct place fe fes h d)
]

module _ (F : Files) (owner : ℕ → ℕ) where
  open F use {State}

  -- another frame table with an entry of a locked page, and another memory
  module _ (vm : Vm State) (m : Memory) (ft : List FrameEntry) where
    moved-AllEntries :
        (fes : List FrameEntry)
        → AllEntries F owner vm fes
        → AllEntries F owner (record vm { memory = m; frame_table = ft }) fes
    moved-AllEntries [] all = tt
    moved-AllEntries (fe ∷ fes) all = (
      (λ u. record {
        thread = (all.0 u).thread;
        in_memory = (all.0 u).in_memory;
        frame = (all.0 u).frame;
      }),
      moved-AllEntries fes all.1,
    )

    moved-IsVm :
        IsVm F owner vm
        → IsMemory m
        → Distinct ft
        → AllEntries F owner vm ft
        → ((q : ℕ)
            → (vm.spte q).in_memory ≡ true
            → (InUse m (frame_of F owner vm q))
              × (m.page (frame_of F owner vm q) ≡ vm.memory.page (frame_of F owner vm q)))
        → IsVm F owner (record vm { memory = m; frame_table = ft })
    unfolding pagedir_is_dirty
    moved-IsVm v valid distinct all keep = record {
      memory = valid;
      swap = v.swap;
      table = v.table;
      present = v.present;
      absent = v.absent;
      in_use = λ p here. (keep p here).0;
      frames = v.frames;
      addresses = v.addresses;
      clean = λ p o here f c lt. ap (λ b. b o) (keep p here).1 ∙ v.clean p o here f c lt;
      slot_inside = v.slot_inside;
      slot_used = v.slot_used;
      slots = v.slots;
      inside_file = v.inside_file;
      apart = v.apart;
      keys = distinct;
      entries = moved-AllEntries ft all;
    }

    moved_bytes :
        ((q : ℕ)
          → (vm.spte q).in_memory ≡ true
          → (InUse m (frame_of F owner vm q))
            × (m.page (frame_of F owner vm q) ≡ vm.memory.page (frame_of F owner vm q)))
        → (q o : ℕ)
        → page_byte F owner (record vm { memory = m; frame_table = ft }) q o
          ≡ page_byte F owner vm q o
    moved_bytes keep q o = elim (Bool-cases (vm.spte q).in_memory) [
      | inl h ↦ rw h (ap (λ b. b o) (keep q h).1)
      | inr h ↦ rw h refl
    ]

  insert_at-AllEntries :
      (vm : Vm State) (place : ℕ) (fe : FrameEntry) (fes : List FrameEntry)
      → (vm.spte fe.spte).locked ≡ true
      → AllEntries F owner vm fes
      → AllEntries F owner vm (insert_at place fe fes)
  unfolding insert_at
  insert_at-AllEntries vm zero fe fes locked all = ((λ u. absurd (cc)), all)
  insert_at-AllEntries vm (suc place) fe [] locked all = ((λ u. absurd (cc)), tt)
  insert_at-AllEntries vm (suc place) fe (e ∷ fes) locked all =
      (all.0, insert_at-AllEntries vm place fe fes locked all.1)

  hash_insert-AllEntries :
      (vm : Vm State) (place : ℕ) (fe : FrameEntry) (fes : List FrameEntry)
      → (vm.spte fe.spte).locked ≡ true
      → AllEntries F owner vm fes
      → AllEntries F owner vm (hash_insert place fe fes)
  unfolding hash_insert
  hash_insert-AllEntries vm place fe fes locked all = elim (Bool-cases (hash_find fe.frame fes)) [
    | inl h ↦ rw h all
    | inr h ↦ rw h (insert_at-AllEntries vm place fe fes locked all)
  ]

  -- The outcome of frame_alloc for page `p`.
  pub record Allocated (flags : Flags) (vm vm' : Vm State) (p g : ℕ) : Type 0 where
    pub well_formed : IsVm F owner vm'
    pub own : vm'.spte p ≡ vm.spte p
    pub current : vm'.current ≡ vm.current
    pub bytes :
        (q o : ℕ) → o < extent F owner vm q → page_byte F owner vm' q o ≡ page_byte F owner vm q o
    pub taken : InUse vm'.memory g
    pub unused : (q : ℕ) → (vm'.spte q).in_memory ≡ true → frame_of F owner vm' q ≢ g
    pub zeroed : flags.pal_zero ≡ true → (o : ℕ) → vm'.memory.page g o ≡ 0

  -- a new entry for page `p`, on a state that keeps the pages of `vm`
  added-Allocated :
      (flags : Flags) (vm w : Vm State) (m : Memory) (place p g : ℕ)
      → IsVm F owner w
      → (vm.spte p).locked ≡ true
      → w.spte p ≡ vm.spte p
      → w.current ≡ vm.current
      → ((q o : ℕ) → o < extent F owner vm q → page_byte F owner w q o ≡ page_byte F owner vm q o)
      → IsMemory m
      → ((q : ℕ)
          → (w.spte q).in_memory ≡ true
          → (InUse m (frame_of F owner w q))
            × (m.page (frame_of F owner w q) ≡ w.memory.page (frame_of F owner w q)))
      → InUse m g
      → ((q : ℕ) → (w.spte q).in_memory ≡ true → frame_of F owner w q ≢ g)
      → (flags.pal_zero ≡ true → (o : ℕ) → m.page g o ≡ 0)
      → Allocated flags vm (frame_add_to_ft F place (record w { memory = m }) g p) p g
  unfolding frame_add_to_ft
  added-Allocated flags vm w m place p g v locked own current bytes valid keep taken unused zeroed =
      let fe : FrameEntry = record { frame = g; spte = p; thread = w.current } in
      let ft = hash_insert place fe w.frame_table in
      record {
        well_formed =
            moved-IsVm w m ft v valid (hash_insert-Distinct place fe w.frame_table v.keys)
              (hash_insert-AllEntries w place fe w.frame_table (ap (λ e. e.locked) own ∙ locked)
                v.entries)
              keep;
        own = own;
        current = current;
        bytes = λ q o lt. moved_bytes w m ft keep q o ∙ bytes q o lt;
        taken = taken;
        unused = unused;
        zeroed = zeroed;
      }

  from_eviction :
      (rounds place : ℕ) (flags : Flags) (vm vm' : Vm State) (p g : ℕ) (m : Memory)
      → flags.pal_user ≡ true
      → palloc_get_page vm.memory flags ≡ some (none, m)
      → m ≡ vm.memory
      → alloc_loop F rounds flags vm ≡ some (g, vm')
      → frame_alloc F rounds place flags vm p ≡ some (some g, frame_add_to_ft F place vm' g p)
  unfolding frame_alloc
  from_eviction rounds place flags vm vm' p g m user none_free same found =
      rw (none_free, same, found, user) refl

  -- frame_alloc for a locked page, in a well formed state with a page in the frame table that
  -- is not locked and was not accessed and a free swap slot, for the user pool and without PAL_ASSERT,
  -- gives a frame after one search of the frame table: the frame is handed out, no page is in it
  -- and it is full of zeros if PAL_ZERO is set. The state is well formed again, and every page
  -- still has its bytes, in memory, in its file or in a swap slot.
  pub frame_alloc-Allocated :
      (n place : ℕ) (flags : Flags) (vm : Vm State) (p k : ℕ)
      → IsVm F owner vm
      → flags.pal_user ≡ true
      → flags.pal_assert ≡ false
      → (vm.spte p).locked ≡ true
      → Candidate F owner vm vm.frame_table
      → k < vm.swap.swap_bitmap.bit_cnt
      → view vm.swap.swap_bitmap k ≡ false
      → (g : ℕ) × (vm' : Vm State) × (frame_alloc F (suc n) place flags vm p ≡ some (some g, vm'))
        × Allocated flags vm vm' p g
  unfolding frame_alloc
  frame_alloc-Allocated n place flags vm p k v user no_assert locked c h free =
      step (palloc_get_page-Obtained vm.memory flags v.memory user no_assert)
    where
      step :
          (r : Option ℕ × Memory) × (palloc_get_page vm.memory flags ≡ some r)
            × GetOutcome flags vm.memory r
          → (g : ℕ) × (vm' : Vm State) × (frame_alloc F (suc n) place flags vm p
              ≡ some (some g, vm'))
            × Allocated flags vm vm' p g
      step ((some g, m), e, o) =
          let apart = λ (q : ℕ) (here : (vm.spte q).in_memory ≡ true).
            λ (same : frame_of F owner vm q ≡ g).
              o.free (subst (InUse vm.memory) same (v.in_use q here)) in
          (
            g,
            _,
            rw (e, user) refl,
            added-Allocated flags vm vm m place p g v locked refl refl (λ q b lt. refl) o.only.valid
                (λ q here. (
                  OnlyPage-InUse vm.memory m g (frame_of F owner vm q) o.only (apart q here)
                      (v.in_use q here),
                  o.only.pages _ (apart q here),
                ))
                o.taken apart o.zeroed,
          )
      step ((none, m), e, full) =
          let (g, vm', victim, found, unlocked, r) =
            alloc_loop-Replaced F owner flags user no_assert k n vm v c h free in
          let ne : p ≢ victim =
            λ same. cc (subst (λ x. (vm.spte x).locked ≡ true) same locked, unlocked) in
          (
            g,
            _,
            from_eviction (suc n) place flags vm vm' p g m user e full.0 found,
            added-Allocated flags vm vm' vm'.memory place p g r.well_formed locked (r.others p ne)
                r.current r.bytes r.well_formed.memory
                (λ q here. (r.well_formed.in_use q here, refl)) r.taken r.unused r.zeroed,
          )
