-- ===== src/Vm/Evict.antt =====
-- vm/frame.c of prj3: a frame is taken from its page and handed out again.
use os_326_omega.Prelude.{
  ℕ, ◌+◌, ◌*◌, ◌/◌, ◌%◌, ◌≤◌, ◌<◌, ◌≡◌, ◌≢◌, refl, sym, ◌∙◌, ap, subst, ◌⊎◌, inl, inr, ◌==◌, ==_iff,
  if◌then◌else◌, ltb, true, false, ◌&&◌, Bool-cases, arith, List, [], ◌∷◌, some,
}
use os_326_omega.Bitmap.View.{view, IsValid}
use os_326_omega.Palloc.{Flags, Memory}
use os_326_omega.Palloc.Laws.{IsMemory, InUse}
use os_326_omega.Vm.{is_mmap, is_swap, Spte, FrameEntry, Files, Vm, pagedir_is_dirty}
use os_326_omega.Vm.Frame.{hash_find, hash_delete, forget, replace}
use os_326_omega.Vm.Invariant.{
  Distinct, AllEntries, pte_of, frame_of, stored_byte, page_byte, extent, IsEntry, IsVm,
}
use os_326_omega.Vm.Save.{mmap_not_swap, Saved, save_page-Saved}
use os_326_omega.Vm.Reuse.{Forgotten, forget-Forgotten, delete-Distinct, free_get-Swapped}

-- The page `p` left memory and its frame was handed out again, as `g`: every page keeps its bytes,
-- and no page is in frame `g`.
pub record Replaced (F : Files) (owner : ℕ → ℕ) (flags : Flags) (vm vm' : Vm (F.State)) (p g : ℕ)
    : Type 0 where
  pub well_formed : IsVm F owner vm'
  pub out : (vm'.spte p).in_memory ≡ false
  pub current : vm'.current ≡ vm.current
  pub others : (q : ℕ) → q ≢ p → vm'.spte q ≡ vm.spte q
  pub bytes :
      (q o : ℕ) → o < extent F owner vm q → page_byte F owner vm' q o ≡ page_byte F owner vm q o
  pub taken : InUse vm'.memory g
  pub unused : (q : ℕ) → (vm'.spte q).in_memory ≡ true → frame_of F owner vm' q ≢ g
  pub zeroed : flags.pal_zero ≡ true → (o : ℕ) → vm'.memory.page g o ≡ 0

module _ (F : Files) (owner : ℕ → ℕ) (flags : Flags) where
  open F use {State}

  stored_of : Vm State → Spte → ℕ → ℕ
  stored_of vm e o =
      if is_swap e.type
      then vm.swap.swap_block (e.swap_index * 8 + o / 512) (o % 512)
      else if ltb o e.read_bytes
      then F.byte vm.files e.file (e.offset + o)
      else 0

  -- stored_byte depends on the entry, the swap partition and the files
  stored_byte_cong :
      (a b : Vm State) (e e' : Spte) (o : ℕ)
      → a.swap ≡ b.swap
      → a.files ≡ b.files
      → e ≡ e'
      → stored_of a e o ≡ stored_of b e' o
  unfolding stored_of
  stored_byte_cong a b e e' o s f es = rw (s, f, es) refl

  -- the pieces of replace, put together
  module _ (vm vm1 gone : Vm State) (fe : FrameEntry) (m2 : Memory) (g : ℕ) (v : IsVm F owner vm)
      (here : IsEntry F owner vm fe) (saved : Saved F owner vm vm1 fe.spte)
      (forgot : Forgotten vm1 gone fe) where
    final : Vm State
    final = record gone { memory = m2 }

    other_spte : (q : ℕ) → q ≢ fe.spte → final.spte q ≡ vm.spte q
    unfolding final
    other_spte q ne = forgot.others q ne ∙ saved.others q ne

    other_pte :
        (q : ℕ) → q ≢ fe.spte → final.pagedir (owner q) (final.spte q).vaddr ≡ pte_of F owner vm q
    unfolding final
    other_pte q ne =
        ap (λ e. gone.pagedir (owner q) e.vaddr) (other_spte q ne)
        ∙ forgot.ptes (owner q) (vm.spte q).vaddr
            (λ e a. v.addresses q fe.spte ne (e ∙ here.thread) (a ∙ saved.vaddr))
        ∙ ap (λ d. d (owner q) (vm.spte q).vaddr) saved.pagedir

    victim_bytes :
        (o : ℕ)
        → o < extent F owner vm fe.spte
        → page_byte F owner final fe.spte o ≡ page_byte F owner vm fe.spte o
    unfolding final stored_of
    victim_bytes o lt =
        ap
          (λ e.
            if e.in_memory
            then m2.page (gone.pagedir (owner fe.spte) e.vaddr).frame o
            else stored_of gone e o)
          forgot.own
        ∙ stored_byte_cong gone vm1 (record (vm1.spte fe.spte) { in_memory = false })
            (record (vm1.spte fe.spte) { in_memory = false }) o forgot.swap forgot.files refl
        ∙ saved.saved o lt
        ∙ rw here.in_memory refl

    other_bytes :
        (q o : ℕ)
        → q ≢ fe.spte
        → o < 4096
        → ((vm.spte q).in_memory ≡ true
            → m2.page (frame_of F owner vm q) ≡ vm.memory.page (frame_of F owner vm q))
        → page_byte F owner final q o ≡ page_byte F owner vm q o
    unfolding final stored_of
    other_bytes q o ne lt pages = elim (Bool-cases (vm.spte q).in_memory) [
      | inl m ↦
          ap
            (λ e.
              if e.in_memory
              then m2.page (gone.pagedir (owner q) (gone.spte q).vaddr).frame o
              else stored_of gone e o)
            (other_spte q ne)
          ∙ rw m (ap (λ e. m2.page e.frame o) (other_pte q ne) ∙ ap (λ b. b o) (pages m))
      | inr n ↦
          ap
            (λ e.
              if e.in_memory
              then m2.page (gone.pagedir (owner q) (gone.spte q).vaddr).frame o
              else stored_of gone e o)
            (other_spte q ne)
          ∙ rw n (
              stored_byte_cong gone vm1 _ _ o forgot.swap forgot.files (sym (saved.others q ne))
              ∙ saved.kept q o ne lt (λ m. absurd (cc)))
    ]

    all_bytes :
        ((q : ℕ)
          → q ≢ fe.spte
          → (vm.spte q).in_memory ≡ true
          → m2.page (frame_of F owner vm q) ≡ vm.memory.page (frame_of F owner vm q))
        → (q o : ℕ) → o < extent F owner vm q
        → page_byte F owner final q o ≡ page_byte F owner vm q o
    all_bytes pages q o lt = elim (Bool-cases (q == fe.spte)) [
      | inl own ↦
          let e : fe.spte ≡ q = sym ((==_iff q fe.spte).0 own) in
          subst (λ n. page_byte F owner final n o ≡ page_byte F owner vm n o) e
            (victim_bytes o (subst (λ n. o < extent F owner vm n) (sym e) lt))
      | inr other ↦
          other_bytes q o (ground arith) (ground (arith, v.inside_file q)) (pages q (ground arith))
    ]

    -- what final has of every page
    not_victim : (q : ℕ) → (final.spte q).in_memory ≡ true → q ≢ fe.spte
    unfolding final
    not_victim q m e =
        let off =
          subst (λ n. (gone.spte n).in_memory ≡ false) (sym e) (ap (λ e. e.in_memory) forgot.own) in
        cc

    stays : (q : ℕ) → (final.spte q).in_memory ≡ true → (vm.spte q).in_memory ≡ true
    stays q m = ap (λ e. e.in_memory) (sym (other_spte q (not_victim q m))) ∙ m

    either :
        (P : Spte → Spte → Type 0)
        → P (record (vm1.spte fe.spte) { in_memory = false }) (vm.spte fe.spte)
        → ((e : Spte) → P e e)
        → (q : ℕ) → P (final.spte q) (vm.spte q)
    unfolding final
    either P own other q = elim (Bool-cases (q == fe.spte)) [
      | inl same ↦
          subst (λ n. P (gone.spte n) (vm.spte n)) (sym ((==_iff q fe.spte).0 same))
            (subst (λ e. P e (vm.spte fe.spte)) (sym forgot.own) own)
      | inr ne ↦
          subst (λ e. P e (vm.spte q)) (sym (other_spte q (ground arith))) (other (vm.spte q))
    ]

    same_vaddr : (q : ℕ) → (final.spte q).vaddr ≡ (vm.spte q).vaddr
    same_vaddr = either (λ a b. a.vaddr ≡ b.vaddr) saved.vaddr (λ e. refl)

    same_mapped : (q : ℕ) → is_mmap (final.spte q).type ≡ is_mmap (vm.spte q).type
    same_mapped = either (λ a b. is_mmap a.type ≡ is_mmap b.type) saved.mapped (λ e. refl)

    same_file :
        (q : ℕ)
        → is_swap (final.spte q).type ≡ false
        → (is_swap (vm.spte q).type ≡ false)
          × ((final.spte q).read_bytes ≡ (vm.spte q).read_bytes)
          × ((final.spte q).offset ≡ (vm.spte q).offset)
          × ((final.spte q).file ≡ (vm.spte q).file)
    same_file =
        either
          (λ a b.
            is_swap a.type ≡ false
            → (is_swap b.type ≡ false)
              × (a.read_bytes ≡ b.read_bytes)
              × (a.offset ≡ b.offset)
              × (a.file ≡ b.file))
          saved.own_file (λ e s. (s, refl, refl, refl))

    -- a swapped out page: the victim in a new slot, or another page in its old slot
    slot_of :
        (q : ℕ)
        → (final.spte q).in_memory ≡ false
        → is_swap (final.spte q).type ≡ true
        → ((final.spte q).swap_index < vm.swap.swap_bitmap.bit_cnt)
          × (view vm1.swap.swap_bitmap (final.spte q).swap_index ≡ true)
          × (((q ≡ fe.spte) × (view vm.swap.swap_bitmap (final.spte q).swap_index ≡ false))
              ⊎ ((q ≢ fe.spte)
                  × (view vm.swap.swap_bitmap (final.spte q).swap_index ≡ true)
                  × ((vm.spte q).in_memory ≡ false)
                  × (is_swap (vm.spte q).type ≡ true)
                  × ((final.spte q).swap_index ≡ (vm.spte q).swap_index)))
    unfolding final
    slot_of q n s = elim (Bool-cases (q == fe.spte)) [
      | inl same ↦
          let own : gone.spte q ≡ record (vm1.spte fe.spte) { in_memory = false } =
            ap gone.spte ((==_iff q fe.spte).0 same) ∙ forgot.own in
          let (inside, used, free) = saved.own_slot (ap (λ e. is_swap e.type) (sym own) ∙ s) in
          let index : (vm1.spte fe.spte).swap_index ≡ (gone.spte q).swap_index =
            ap (λ e. e.swap_index) (sym own) in
          (
            subst (λ i. i < vm.swap.swap_bitmap.bit_cnt) index inside,
            subst (λ i. view vm1.swap.swap_bitmap i ≡ true) index used,
            inl (
              (==_iff q fe.spte).0 same,
              subst (λ i. view vm.swap.swap_bitmap i ≡ false) index free,
            ),
          )
      | inr other ↦
          let ne : q ≢ fe.spte = ground arith in
          let old = other_spte q ne in
          let n' = ap (λ e. e.in_memory) (sym old) ∙ n in
          let s' = ap (λ e. is_swap e.type) (sym old) ∙ s in
          let index : (vm.spte q).swap_index ≡ (gone.spte q).swap_index =
            ap (λ e. e.swap_index) (sym old) in
          let used = subst (λ i. view vm.swap.swap_bitmap i ≡ true) index (v.slot_used q n' s') in
          (
            subst (λ i. i < vm.swap.swap_bitmap.bit_cnt) index (v.slot_inside q n' s'),
            saved.used _ used,
            inr (ne, used, n', s', sym index),
          )
    ]

    slots_apart :
        (p q : ℕ)
        → p ≢ q
        → (final.spte p).in_memory ≡ false
        → is_swap (final.spte p).type ≡ true
        → (final.spte q).in_memory ≡ false
        → is_swap (final.spte q).type ≡ true
        → (final.spte p).swap_index ≢ (final.spte q).swap_index
    slots_apart p q ne n s n' s' e = elim (slot_of p n s).2 [
      | inl a ↦ elim (slot_of q n' s').2 [
        | inl b ↦ ne (a.0 ∙ sym b.0)
        | inr b ↦ cc (subst (λ i. view vm.swap.swap_bitmap i ≡ false) e a.1, b.1)
      ]
      | inr a ↦ elim (slot_of q n' s').2 [
        | inl b ↦ cc (subst (λ i. view vm.swap.swap_bitmap i ≡ true) e a.1, b.1)
        | inr b ↦ v.slots p q ne a.2 a.3 b.2 b.3 (sym a.4 ∙ e ∙ b.4)
      ]
    ]

    stored_same :
        (q o : ℕ)
        → q ≢ fe.spte
        → o < 4096
        → is_swap (vm.spte q).type ≡ false
        → stored_byte F owner final q o ≡ stored_byte F owner vm q o
    unfolding final stored_of
    stored_same q o ne lt f =
        stored_byte_cong gone vm1 (gone.spte q) (vm1.spte q) o forgot.swap forgot.files
          (forgot.others q ne)
        ∙ saved.kept q o ne lt (λ m. f)

    -- the frame table
    final-IsEntry :
        (e : FrameEntry)
        → e.frame ≢ fe.frame
        → ((vm.spte e.spte).locked ≡ false → IsEntry F owner vm e)
        → (final.spte e.spte).locked ≡ false
        → IsEntry F owner final e
    final-IsEntry e apart is unlocked =
        let at = is (
          either (λ a b. a.locked ≡ false → b.locked ≡ false) (λ l. sym saved.locked ∙ l) (λ x l. l)
            e.spte unlocked) in
        let ne : e.spte ≢ fe.spte =
          λ s. apart (sym at.frame ∙ ap (frame_of F owner vm) s ∙ here.frame) in
        record {
          thread = at.thread;
          in_memory = ap (λ x. x.in_memory) (other_spte e.spte ne) ∙ at.in_memory;
          frame = ap (λ x. x.frame) (other_pte e.spte ne) ∙ at.frame;
        }

    final-AllEntries :
        (fes : List FrameEntry)
        → hash_find fe.frame fes ≡ false
        → AllEntries F owner vm fes
        → AllEntries F owner final fes
    unfolding hash_find
    final-AllEntries [] none_here all = tt
    final-AllEntries (e ∷ fes) none_here all =
        (final-IsEntry e (ground arith) all.0, final-AllEntries fes (ground arith) all.1)

    deleted-AllEntries :
        (fes : List FrameEntry)
        → Distinct fes
        → AllEntries F owner vm fes
        → AllEntries F owner final (hash_delete fe.frame fes)
    unfolding hash_delete
    deleted-AllEntries [] distinct all = tt
    deleted-AllEntries (e ∷ fes) distinct all =
        let rest = deleted-AllEntries fes distinct.1 all.1 in
        elim (Bool-cases (e.frame == fe.frame)) [
          | inl same ↦ rw same (
              final-AllEntries fes
                (subst (λ f. hash_find f fes ≡ false) ((==_iff e.frame fe.frame).0 same) distinct.0)
                all.1)
          | inr ne ↦ rw ne (final-IsEntry e (ground arith) all.0, rest)
        ]

    inside :
        (q : ℕ)
        → (is_swap (vm.spte q).type ≡ false)
          × ((final.spte q).read_bytes ≡ (vm.spte q).read_bytes)
          × ((final.spte q).offset ≡ (vm.spte q).offset)
          × ((final.spte q).file ≡ (vm.spte q).file)
        → ((final.spte q).read_bytes ≤ 4096)
          × ((final.spte q).offset + (final.spte q).read_bytes
              ≤ F.length final.files (final.spte q).file)
    unfolding final
    inside q (s, r, o, f) =
        let l : F.length gone.files (gone.spte q).file ≡ F.length vm.files (vm.spte q).file =
          ap (λ x. F.length gone.files x) f
          ∙ ap (λ x. F.length x (vm.spte q).file) forgot.files
          ∙ saved.lengths (vm.spte q).file in
        let (small, fits) = v.inside_file q s in (omega arith, omega arith)

    final-IsVm :
        IsMemory m2
        → ((q : ℕ)
            → q ≢ fe.spte
            → (vm.spte q).in_memory ≡ true
            → (InUse m2 (frame_of F owner vm q))
              × (m2.page (frame_of F owner vm q) ≡ vm.memory.page (frame_of F owner vm q)))
        → IsVm F owner final
    unfolding final pagedir_is_dirty
    final-IsVm valid keep = record {
      memory = valid;
      swap = subst (λ w. IsValid w.swap_bitmap) (sym forgot.swap) saved.swap;
      table = λ p m. ap (λ e. e.table) (other_pte p (not_victim p m)) ∙ v.table p (stays p m);
      present = λ p m. ap (λ e. e.present) (other_pte p (not_victim p m)) ∙ v.present p (stays p m);
      absent = λ p n. elim (Bool-cases (p == fe.spte)) [
        | inl same ↦
            subst (λ x. (pte_of F owner final x).table && (pte_of F owner final x).present ≡ false)
              (sym ((==_iff p fe.spte).0 same))
              (ap
                  (λ e.
                    (gone.pagedir (owner fe.spte) e.vaddr).table
                    && (gone.pagedir (owner fe.spte) e.vaddr).present)
                  forgot.own
                ∙ ap
                    (λ t.
                      (gone.pagedir t (vm1.spte fe.spte).vaddr).table
                      && (gone.pagedir t (vm1.spte fe.spte).vaddr).present)
                    (sym here.thread)
                ∙ forgot.unmapped)
        | inr other ↦
            let ne : p ≢ fe.spte = ground arith in
            ap (λ e. e.table && e.present) (other_pte p ne)
            ∙ v.absent p (ap (λ e. e.in_memory) (sym (other_spte p ne)) ∙ n)
      ];
      in_use = λ p m.
          subst (λ f. InUse m2 f) (sym (ap (λ e. e.frame) (other_pte p (not_victim p m))))
            (keep p (not_victim p m) (stays p m)).0;
      frames = λ p q ne m m'. λ e. v.frames p q ne (stays p m) (stays q m') (
          sym (ap (λ e. e.frame) (other_pte p (not_victim p m)))
          ∙ e
          ∙ ap (λ e. e.frame) (other_pte q (not_victim q m')));
      addresses = λ p q ne o. λ e. v.addresses p q ne o (sym (same_vaddr p) ∙ e ∙ same_vaddr q);
      clean = λ p o m f d lt.
          let n = not_victim p m in
          let pte = other_pte p n in
          let file = (same_file p f).0 in
          ap (λ e. m2.page e.frame o) pte
          ∙ ap (λ b. b o) (keep p n (stays p m)).1
          ∙ v.clean p o (stays p m) file (ap (λ e. e.table && e.dirty) (sym pte) ∙ d) lt
          ∙ sym (stored_same p o n lt file);
      slot_inside = λ p n s.
          subst (λ w. (gone.spte p).swap_index < w.swap_bitmap.bit_cnt) (sym forgot.swap)
            (omega (arith, (slot_of p n s).0, saved.size));
      slot_used = λ p n s.
          subst (λ w. view w.swap_bitmap (gone.spte p).swap_index ≡ true) (sym forgot.swap)
            (slot_of p n s).1;
      slots = λ p q ne n s n' s'. slots_apart p q ne n s n' s';
      inside_file = λ p f. inside p (same_file p f);
      apart = λ p q ne m f same.
          let mapped = sym (same_mapped p) ∙ m in
          let (f1, r1, o1, g1) = same_file p (mmap_not_swap _ m) in
          let (f2, r2, o2, g2) = same_file q f in
          elim (v.apart p q ne mapped f2 (sym g1 ∙ same ∙ g2)) [
            | inl before ↦ inl (omega arith)
            | inr after ↦ inr (omega arith)
          ];
      entries =
          subst (AllEntries F owner final)
            (sym (forgot.frame_table ∙ ap (hash_delete fe.frame) saved.frame_table))
            (deleted-AllEntries vm.frame_table v.keys v.entries);
      keys =
          subst Distinct (sym (forgot.frame_table ∙ ap (hash_delete fe.frame) saved.frame_table))
            (delete-Distinct fe.frame vm.frame_table v.keys);
    }

  -- The replacement of a page that is in memory, in a well formed state with a free swap slot,
  -- for the user pool and without PAL_ASSERT, does not fail and gives a frame: the page is no
  -- longer in memory, no page is in the frame, and it is full of zeros if PAL_ZERO is set. The
  -- other entries do not change, the state is well formed again, and every page, the one that
  -- left memory included, still has its bytes, in memory, in its file or in a swap slot.
  pub replace-Replaced :
      (vm : Vm State) (fe : FrameEntry) (k : ℕ)
      → IsVm F owner vm
      → IsEntry F owner vm fe
      → flags.pal_user ≡ true
      → flags.pal_assert ≡ false
      → k < vm.swap.swap_bitmap.bit_cnt
      → view vm.swap.swap_bitmap k ≡ false
      → (g : ℕ) × (vm' : Vm State) × (replace F flags vm fe ≡ some (some g, vm'))
        × Replaced F owner flags vm vm' fe.spte g
  unfolding replace final
  replace-Replaced vm fe k v here user no_assert h free =
      let (vm1, wrote, saved) = save_page-Saved F owner vm fe v here k h free in
      let gone = forget F vm1 fe in
      let forgot = forget-Forgotten F vm1 fe in
      let memory : gone.memory ≡ vm.memory = forgot.memory ∙ saved.memory in
      let in_use : InUse vm.memory fe.frame =
        subst (λ f. InUse vm.memory f) here.frame (v.in_use fe.spte here.in_memory) in
      let (m1, m2, g, freed, got, valid, taken, zeroed, kept) =
        free_get-Swapped vm.memory flags fe.frame v.memory in_use user no_assert in
      let keep = λ (q : ℕ) (ne : q ≢ fe.spte) (m : (vm.spte q).in_memory ≡ true).
        kept (frame_of F owner vm q)
          (λ e. v.frames q fe.spte ne m here.in_memory (e ∙ sym here.frame)) (v.in_use q m) in
      (
        g,
        record gone { memory = m2 },
        rw (wrote, memory, freed, got) refl,
        record {
          well_formed =
              final-IsVm vm vm1 gone fe m2 g v here saved forgot valid
                (λ q ne m. ((keep q ne m).0, (keep q ne m).1));
          current = forgot.current ∙ saved.current;
          out = ap (λ e. e.in_memory) forgot.own;
          others = other_spte vm vm1 gone fe m2 g v here saved forgot;
          bytes = all_bytes vm vm1 gone fe m2 g v here saved forgot (λ q ne m. (keep q ne m).1);
          taken = taken;
          unused = λ q m e.
              let ne = not_victim vm vm1 gone fe m2 g v here saved forgot q m in
              let was = stays vm vm1 gone fe m2 g v here saved forgot q m in
              (keep q ne was).2 (
                sym (ap (λ e. e.frame) (other_pte vm vm1 gone fe m2 g v here saved forgot q ne))
                ∙ e);
          zeroed = zeroed;
        },
      )
