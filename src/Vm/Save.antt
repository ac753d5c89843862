-- ===== src/Vm/Save.antt =====
-- vm/frame.c of prj3: a victim is saved before its frame is reused.
use os_326_omega.Prelude.{
  ℕ, ◌+◌, ◌<◌, ◌≡◌, ◌≢◌, refl, sym, ap, subst, inl, inr, ltb, true, false, ◌||◌, Bool-cases, arith,
  some,
}
use os_326_omega.Bitmap.View.{view, IsValid}
use os_326_omega.Swap.{Swap}
use os_326_omega.Swap.Laws.{Stored, swap_out-Stored}
use os_326_omega.Vm.{
  MemType, swap_page, is_mmap, is_swap, FrameEntry, Files, Vm, set_spte, pagedir_is_dirty,
}
use os_326_omega.Vm.Frame.{save_page}
use os_326_omega.Vm.Invariant.{frame_of, stored_byte, extent, IsEntry, IsVm}

pub mmap_not_swap : (t : MemType) → is_mmap t ≡ true → is_swap t ≡ false
mmap_not_swap t h = ground arith

module _ (F : Files) (owner : ℕ → ℕ) where
  open F use {State, byte, length, write_at, write_bytes, write_other, write_length}

  -- `vm'` is `vm` with page `p` written back: its file or its slot has the bytes that count, the files
  -- and slots of the other pages are as they were.
  pub record Saved (vm vm' : Vm State) (p : ℕ) : Type 0 where
    pub memory : vm'.memory ≡ vm.memory
    pub pagedir : vm'.pagedir ≡ vm.pagedir
    pub frame_table : vm'.frame_table ≡ vm.frame_table
    pub current : vm'.current ≡ vm.current
    pub others : (q : ℕ) → q ≢ p → vm'.spte q ≡ vm.spte q
    pub in_memory : (vm'.spte p).in_memory ≡ (vm.spte p).in_memory
    pub vaddr : (vm'.spte p).vaddr ≡ (vm.spte p).vaddr
    pub locked : (vm'.spte p).locked ≡ (vm.spte p).locked
    pub mapped : is_mmap (vm'.spte p).type ≡ is_mmap (vm.spte p).type
    pub extents : extent F owner vm' p ≡ extent F owner vm p
    pub saved :
        (o : ℕ)
        → o < extent F owner vm p
        → stored_byte F owner vm' p o ≡ vm.memory.page (frame_of F owner vm p) o
    pub kept :
        (q o : ℕ)
        → q ≢ p
        → o < 4096
        → ((vm.spte q).in_memory ≡ true → is_swap (vm.spte q).type ≡ false)
        → stored_byte F owner vm' q o ≡ stored_byte F owner vm q o
    pub swap : IsValid vm'.swap.swap_bitmap
    pub size : vm'.swap.swap_bitmap.bit_cnt ≡ vm.swap.swap_bitmap.bit_cnt
    pub used : (i : ℕ) → view vm.swap.swap_bitmap i ≡ true → view vm'.swap.swap_bitmap i ≡ true
    pub own_slot :
        is_swap (vm'.spte p).type ≡ true
        → ((vm'.spte p).swap_index < vm.swap.swap_bitmap.bit_cnt)
          × (view vm'.swap.swap_bitmap (vm'.spte p).swap_index ≡ true)
          × (view vm.swap.swap_bitmap (vm'.spte p).swap_index ≡ false)
    pub lengths : (f : ℕ) → length vm'.files f ≡ length vm.files f
    pub own_file :
        is_swap (vm'.spte p).type ≡ false
        → (is_swap (vm.spte p).type ≡ false)
          × ((vm'.spte p).read_bytes ≡ (vm.spte p).read_bytes)
          × ((vm'.spte p).offset ≡ (vm.spte p).offset)
          × ((vm'.spte p).file ≡ (vm.spte p).file)

  module _ (vm : Vm State) (fe : FrameEntry) (v : IsVm F owner vm)
      (here : IsEntry F owner vm fe) where
    frame_bytes :
        (o : ℕ) → vm.memory.page fe.frame o ≡ vm.memory.page (frame_of F owner vm fe.spte) o
    frame_bytes o = ap (λ f. vm.memory.page f o) (sym here.frame)

    within :
        (o : ℕ) → is_swap (vm.spte fe.spte).type ≡ false → o < extent F owner vm fe.spte → o < 4096
    within o file lt = ground (arith, v.inside_file fe.spte)

    -- nothing to write
    clean-Saved :
        pagedir_is_dirty vm fe.thread (vm.spte fe.spte).vaddr ≡ false
        → is_swap (vm.spte fe.spte).type ≡ false
        → Saved vm vm fe.spte
    clean-Saved clean file = record {
      memory = refl;
      pagedir = refl;
      frame_table = refl;
      current = refl;
      others = λ q ne. refl;
      in_memory = refl;
      vaddr = refl;
      locked = refl;
      mapped = refl;
      extents = refl;
      saved = λ o lt. sym (
          v.clean fe.spte o here.in_memory file
            (subst (λ t. pagedir_is_dirty vm t (vm.spte fe.spte).vaddr ≡ false) here.thread clean)
            (within o file lt));
      kept = λ q o ne lt h. refl;
      swap = v.swap;
      size = refl;
      used = λ i u. u;
      own_slot = λ s. absurd (cc);
      lengths = λ f. refl;
      own_file = λ s. (file, refl, refl, refl);
    }

    -- a mapped file
    file_kept :
        (q o : ℕ)
        → is_mmap (vm.spte fe.spte).type ≡ true
        → q ≢ fe.spte
        → stored_byte F owner
            (record vm {
              files =
                  write_at vm.files
                    (vm.spte fe.spte).file
                    (vm.memory.page fe.frame)
                    (vm.spte fe.spte).read_bytes
                    (vm.spte fe.spte).offset;
            })
            q
            o
          ≡ stored_byte F owner vm q o
    file_kept q o mapped ne = elim (Bool-cases (is_swap (vm.spte q).type)) [
      | inl s ↦ ground arith
      | inr file ↦ elim (Bool-cases (ltb o (vm.spte q).read_bytes)) [
        | inl lt ↦
            let same =
              write_other vm.files (vm.spte fe.spte).file (vm.memory.page fe.frame)
                (vm.spte fe.spte).read_bytes (vm.spte fe.spte).offset (vm.spte q).file
                ((vm.spte q).offset + o)
                (λ e. elim (v.apart fe.spte q (λ d. ne (sym d)) mapped file e) [
                  | inl before ↦ inl (ground arith)
                  | inr after ↦ inr (omega arith)
                ]) in
            ground arith
        | inr ge ↦ ground arith
      ]
    ]

    file-Saved :
        is_mmap (vm.spte fe.spte).type ≡ true
        → Saved vm
            (record vm {
              files =
                  write_at vm.files
                    (vm.spte fe.spte).file
                    (vm.memory.page fe.frame)
                    (vm.spte fe.spte).read_bytes
                    (vm.spte fe.spte).offset;
            })
            fe.spte
    file-Saved mapped = record {
      memory = refl;
      pagedir = refl;
      frame_table = refl;
      current = refl;
      others = λ q ne. refl;
      in_memory = refl;
      vaddr = refl;
      locked = refl;
      mapped = refl;
      extents = refl;
      saved = λ o lt.
          let file : is_swap (vm.spte fe.spte).type ≡ false = mmap_not_swap _ mapped in
          let inside : o < (vm.spte fe.spte).read_bytes = ground arith in
          ground (
            arith,
            write_bytes vm.files (vm.spte fe.spte).file (vm.memory.page fe.frame)
                (vm.spte fe.spte).read_bytes (vm.spte fe.spte).offset o,
            v.inside_file fe.spte,
            frame_bytes o,
          );
      kept = λ q o ne lt h. file_kept q o mapped ne;
      swap = v.swap;
      size = refl;
      used = λ i u. u;
      own_slot = λ s. absurd (cc (mmap_not_swap _ mapped));
      lengths = λ f. write_length vm.files _ _ _ _ f;
      own_file = λ s. (s, refl, refl, refl);
    }

    slot_kept :
        (slot : ℕ) (s' : Swap)
        → Stored vm.swap s' slot (vm.memory.page fe.frame)
        → (q o : ℕ) → q ≢ fe.spte
        → o < 4096
        → ((vm.spte q).in_memory ≡ true → is_swap (vm.spte q).type ≡ false)
        → stored_byte F owner
            (set_spte
              (record vm { swap = s' })
              fe.spte
              (record (vm.spte fe.spte) { type = swap_page; swap_index = slot }))
            q
            o
          ≡ stored_byte F owner vm q o
    slot_kept slot s' st q o ne lt h =
        ground (arith, st.others (vm.spte q).swap_index o, st.free, v.slot_used q)

    -- a slot of the swap partition
    swap-Saved :
        (slot : ℕ) (s' : Swap)
        → Stored vm.swap s' slot (vm.memory.page fe.frame)
        → is_mmap (vm.spte fe.spte).type ≡ false
        → Saved vm
            (set_spte
              (record vm { swap = s' })
              fe.spte
              (record (vm.spte fe.spte) { type = swap_page; swap_index = slot }))
            fe.spte
    swap-Saved slot s' st private = record {
      memory = refl;
      pagedir = refl;
      frame_table = refl;
      current = refl;
      others = λ q ne. ground arith;
      in_memory = ground arith;
      vaddr = ground arith;
      locked = ground arith;
      mapped = ground arith;
      extents = ground arith;
      saved = λ o lt. ground (arith, st.holds o, frame_bytes o);
      kept = λ q o ne lt h. slot_kept slot s' st q o ne lt h;
      swap = st.valid;
      size = st.size;
      used = λ i u. ground (arith, st.bits i);
      own_slot = λ s. ground (arith, st.inside, st.free, st.bits slot);
      lengths = λ f. refl;
      own_file = λ s. absurd (ground arith);
    }

    -- save_page of a victim, with a free slot where it needs one, does not fail and saves the page.
    pub save_page-Saved :
        (k : ℕ)
        → k < vm.swap.swap_bitmap.bit_cnt
        → view vm.swap.swap_bitmap k ≡ false
        → (vm' : Vm State) × (save_page F vm fe ≡ some vm') × Saved vm vm' fe.spte
    unfolding save_page
    save_page-Saved k h free =
        let e = vm.spte fe.spte in
        elim (Bool-cases (pagedir_is_dirty vm fe.thread e.vaddr || is_swap e.type)) [
          | inl must ↦ elim (Bool-cases (is_mmap e.type)) [
            | inl m ↦ (_, rw (must, m) refl, file-Saved m)
            | inr m ↦
                let ((slot, s'), out, st) =
                  swap_out-Stored vm.swap (vm.memory.page fe.frame) k v.swap h free in
                (_, rw (must, m, out) refl, swap-Saved slot s' st m)
          ]
          | inr need_not ↦ (vm, rw need_not refl, clean-Saved (ground arith) (ground arith))
        ]
