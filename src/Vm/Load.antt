-- ===== src/Vm/Load.antt =====
-- vm/page.c of prj3: load_page brings a page into memory.
use os_326_omega.Prelude.{
  ℕ, suc, ◌+◌, ◌<◌, ◌≡◌, ◌≢◌, refl, sym, ◌∙◌, ap, inl, inr, ◌==◌, if◌then◌else◌, leb, ltb, Bool,
  true, false, ◌&&◌, Bool-cases, arith, some, none,
}
use os_326_omega.Bitmap.View.{view}
use os_326_omega.Palloc.{Page, Flags}
use os_326_omega.Swap.{Swap, swap_in}
use os_326_omega.Swap.Laws.{swap_in-Loaded}
use os_326_omega.Vm.{is_swap, Pte, Files, Vm, set_spte, set_pte, pagedir_get_page, pagedir_set_page}
use os_326_omega.Vm.Frame.{frame_alloc}
use os_326_omega.Vm.Page.{
  set_page, install_page, finish_load, swap_in_user, fill_from_file, load_file, load_swap,
}
use os_326_omega.Vm.Invariant.{stored_byte, page_byte, extent, IsVm}
use os_326_omega.Vm.Alloc.{Candidate}
use os_326_omega.Vm.Obtain.{Allocated, frame_alloc-Allocated}
use os_326_omega.Vm.Fill.{Filled, Filled-bytes, Filled-IsVm}

module _ (F : Files) (owner : ℕ → ℕ) where
  open F use {State, read_at}

  abbrev new_pte : ℕ → Bool → Pte
  new_pte g writable = record {
    table = true;
    present = true;
    frame = g;
    writable = writable;
    accessed = false;
    dirty = false;
  }

  module _ (vm : Vm State) (p g : ℕ) (v : IsVm F owner vm) (out : (vm.spte p).in_memory ≡ false)
      (here : vm.current ≡ owner p) where
    install_page-absent :
        (x : Vm State) (writable : Bool)
        → x.pagedir ≡ vm.pagedir
        → x.current ≡ vm.current
        → install_page true x (vm.spte p).vaddr g writable
          ≡ some (true, set_pte x x.current (vm.spte p).vaddr (new_pte g writable))
    unfolding install_page pagedir_get_page pagedir_set_page
    install_page-absent x writable same cur =
        let absent : (x.pagedir x.current (vm.spte p).vaddr).table
              && (x.pagedir x.current (vm.spte p).vaddr).present
            ≡ false =
          ap (λ d. (d x.current (vm.spte p).vaddr).table && (d x.current (vm.spte p).vaddr).present)
            same
          ∙ ap
              (λ t.
                (vm.pagedir t (vm.spte p).vaddr).table && (vm.pagedir t (vm.spte p).vaddr).present)
              (cur ∙ here)
          ∙ v.absent p out in
        let got : pagedir_get_page x x.current (vm.spte p).vaddr ≡ none = rw absent refl in
        let set : pagedir_set_page true x x.current (vm.spte p).vaddr g writable
            ≡ some (true, set_pte x x.current (vm.spte p).vaddr (new_pte g writable)) =
          rw absent (ground arith) in
        ap
          (λ o. elim o [
            | none ↦ pagedir_set_page true x x.current (vm.spte p).vaddr g writable
            | some f ↦ some (false, x)
          ])
          got
        ∙ set

    installed : Vm State → Vm State
    installed x = set_pte x x.current (vm.spte p).vaddr (new_pte g (vm.spte p).writable)

    with_pages : (ℕ → Page) → Vm State
    with_pages pages = record vm { memory = record (vm.memory) { page = pages } }

    file_end : (ℕ → Page) → Vm State
    unfolding installed with_pages
    file_end pages =
        set_spte (installed (with_pages pages)) p (record (vm.spte p) { in_memory = true })

    -- a page of a file, whose bytes are in the frame
    finish_load-file :
        (pages : ℕ → Page)
        → ((o : ℕ) → o < 4096 → pages g o ≡ stored_byte F owner vm p o)
        → ((q : ℕ) → q ≢ g → pages q ≡ vm.memory.page q)
        → (finish_load F true (with_pages pages) p g (λ x. some x) ≡ some (true, file_end pages))
          × Filled F owner vm (file_end pages) p g
    unfolding finish_load file_end installed with_pages
    finish_load-file pages bytes others = (
      rw (install_page-absent (with_pages pages) (vm.spte p).writable refl refl) refl,
      record {
        user = refl;
        kernel = refl;
        bytes = bytes;
        pages = others;
        own = ground arith;
        others = λ q ne. ground arith;
        table = ground arith;
        present = ground arith;
        frame = ground arith;
        ptes = λ t a ne. ground arith;
        files = refl;
        frame_table = refl;
        swap = v.swap;
        size = refl;
        blocks = refl;
        bits = λ i h. refl;
      },
    )

    swapped : Page → Swap → Vm State
    unfolding installed
    swapped bytes s =
        set_page
          (set_pte (record (installed vm) { swap = s }) vm.current (vm.spte p).vaddr
            (record (new_pte g (vm.spte p).writable) { accessed = true; dirty = true }))
          g bytes

    swap_end : Page → Swap → Vm State
    unfolding swapped
    swap_end bytes s = set_spte (swapped bytes s) p (record (vm.spte p) { in_memory = true })

    swap_in_user-installed :
        (r : Page × Swap)
        → swap_in vm.swap (vm.spte p).swap_index (vm.memory.page g) ≡ some r
        → (vm.spte p).writable ≡ true
        → finish_load F true vm p g (λ x. swap_in_user F x (vm.spte p).swap_index (vm.spte p).vaddr)
          ≡ some (true, swap_end r.0 r.1)
    unfolding finish_load swap_in_user swap_end installed
    swap_in_user-installed r back writable =
        let self : vm.current == vm.current && (vm.spte p).vaddr == (vm.spte p).vaddr ≡ true =
          ground arith in
        let read : swap_in_user F (installed vm) (vm.spte p).swap_index (vm.spte p).vaddr
            ≡ some (swapped r.0 r.1) =
          rw (self, writable, back) refl in
        rw (install_page-absent vm (vm.spte p).writable refl refl) (rw read refl)

    -- a page of the swap partition
    finish_load-swap :
        is_swap (vm.spte p).type ≡ true
        → (vm.spte p).writable ≡ true
        → (w : Vm State) × (finish_load F true vm p g
              (λ x. swap_in_user F x (vm.spte p).swap_index (vm.spte p).vaddr)
            ≡ some (true, w))
          × Filled F owner vm w p g
    unfolding swap_end
    finish_load-swap s writable =
        let (r, back, bytes, block, valid, size, bits) =
          swap_in-Loaded vm.swap (vm.spte p).swap_index (vm.memory.page g) v.swap
            (v.slot_inside p out s) (v.slot_used p out s) in
        (
          swap_end r.0 r.1,
          swap_in_user-installed r back writable,
          record {
            user = refl;
            kernel = refl;
            bytes = λ o lt. ground (arith, bytes o);
            pages = λ q ne. ground arith;
            own = ground arith;
            others = λ q ne. ground arith;
            table = ground arith;
            present = ground arith;
            frame = ground arith;
            ptes = λ t a ne. ground arith;
            files = refl;
            frame_table = refl;
            swap = valid;
            size = size;
            blocks = block;
            bits = λ i h. ground (arith, bits i);
          },
        )

  -- Page `p` came into memory: the state is well formed and every page has its bytes.
  pub record Loaded (vm w : Vm State) (p : ℕ) : Type 0 where
    pub well_formed : IsVm F owner w
    pub in_memory : (w.spte p).in_memory ≡ true
    pub bytes :
        (q o : ℕ) → o < extent F owner vm q → page_byte F owner w q o ≡ page_byte F owner vm q o

  Filled-Loaded :
      (flags : Flags) (vm vm1 w : Vm State) (p g : ℕ)
      → IsVm F owner vm
      → (vm.spte p).in_memory ≡ false
      → (vm.spte p).locked ≡ true
      → Allocated F owner flags vm vm1 p g
      → Filled F owner vm1 w p g
      → Loaded vm w p
  Filled-Loaded flags vm vm1 w p g v out locked al f =
      let out1 = ap (λ e. e.in_memory) al.own ∙ out in
      let locked1 = ap (λ e. e.locked) al.own ∙ locked in
      record {
        well_formed =
            Filled-IsVm F owner vm1 w p g al.well_formed out1 locked1 al.taken al.unused f;
        in_memory = ap (λ e. e.in_memory) f.own;
        bytes = λ q o lt.
            Filled-bytes F owner vm1 w p g al.well_formed out1 locked1 al.taken al.unused f q o
              (ground (arith, v.inside_file q))
            ∙ al.bytes q o lt;
      }

  padded : Vm State → ℕ → ℕ → ℕ → Page
  padded vm p g q =
      let e = vm.spte p in
      if g == q
      then (λ o.
          if leb e.read_bytes o && ltb o (e.read_bytes + e.zero_bytes)
          then 0
          else (read_at vm.files e.file e.read_bytes e.offset (vm.memory.page g)).1 o)
      else vm.memory.page q

  fill_from_file-padded :
      (vm : Vm State) (p g : ℕ)
      → IsVm F owner vm
      → is_swap (vm.spte p).type ≡ false
      → fill_from_file F vm p g
        ≡ (true, record vm { memory = record (vm.memory) { page = padded vm p g } })
  unfolding fill_from_file padded
  fill_from_file-padded vm p g v file =
      let e = vm.spte p in
      let all : (vm.spte p).read_bytes
            == (read_at vm.files e.file e.read_bytes e.offset (vm.memory.page g)).0
          ≡ true =
        ground (
          arith,
          F.read_count vm.files e.file e.read_bytes e.offset (vm.memory.page g)
              (v.inside_file p file).1,
        ) in
      rw all refl

  padded-stored :
      (vm : Vm State) (p g o : ℕ)
      → IsVm F owner vm
      → is_swap (vm.spte p).type ≡ false
      → (vm.spte p).read_bytes + (vm.spte p).zero_bytes ≡ 4096
      → o < 4096
      → padded vm p g g o ≡ stored_byte F owner vm p o
  unfolding padded
  padded-stored vm p g o v file whole lt =
      let e = vm.spte p in
      elim (Bool-cases (ltb o (vm.spte p).read_bytes)) [
        | inl inside ↦
            let b =
              F.read_bytes vm.files e.file e.read_bytes e.offset (vm.memory.page g) o
                (v.inside_file p file).1 (ground arith) in
            ground arith
        | inr behind ↦ ground arith
      ]

  padded-other : (vm : Vm State) (p g q : ℕ) → q ≢ g → padded vm p g q ≡ vm.memory.page q
  unfolding padded
  padded-other vm p g q ne = let no : g == q ≡ false = ground arith in rw no refl

  module _ (n place k : ℕ) (vm : Vm State) (p : ℕ) (v : IsVm F owner vm)
      (here : vm.current ≡ owner p) (out : (vm.spte p).in_memory ≡ false)
      (locked : (vm.spte p).locked ≡ true) (c : Candidate F owner vm vm.frame_table)
      (h : k < vm.swap.swap_bitmap.bit_cnt) (free : view vm.swap.swap_bitmap k ≡ false) where
    file_flags : Flags
    file_flags = record {
      pal_assert = false;
      pal_zero = (vm.spte p).read_bytes == 0;
      pal_user = true;
    }

    -- the rest of load_file once it has a frame
    load_file-frame :
        (g : ℕ) (vm1 : Vm State)
        → frame_alloc F (suc n) place file_flags vm p ≡ some (some g, vm1)
        → Allocated F owner file_flags vm vm1 p g
        → is_swap (vm.spte p).type ≡ false
        → (vm.spte p).read_bytes + (vm.spte p).zero_bytes ≡ 4096
        → (w : Vm State) × (load_file F (suc n) place true vm p ≡ some (true, w)) × Loaded vm w p
    unfolding load_file file_flags with_pages
    load_file-frame g vm1 got al file whole =
        let out1 = ap (λ e. e.in_memory) al.own ∙ out in
        let here1 = al.current ∙ here in
        let file1 : is_swap (vm1.spte p).type ≡ false = ap (λ e. is_swap e.type) al.own ∙ file in
        let whole1 : (vm1.spte p).read_bytes + (vm1.spte p).zero_bytes ≡ 4096 =
          ap (λ e. e.read_bytes + e.zero_bytes) al.own ∙ whole in
        let size1 : (vm1.spte p).read_bytes ≡ (vm.spte p).read_bytes =
          ap (λ e. e.read_bytes) al.own in
        elim (Bool-cases ((vm.spte p).read_bytes == 0)) [
          | inl empty ↦
              let zero_page : (o : ℕ)
                  → o < 4096
                  → vm1.memory.page g o ≡ stored_byte F owner vm1 p o =
                λ o lt. al.zeroed empty o ∙ ground arith in
              let (e, f) =
                finish_load-file vm1 p g al.well_formed out1 here1 vm1.memory.page zero_page
                  (λ q ne. refl) in
              (_, rw got (rw empty e), Filled-Loaded file_flags vm vm1 _ p g v out locked al f)
          | inr some_bytes ↦
              let (e, f) =
                finish_load-file vm1 p g al.well_formed out1 here1 (padded vm1 p g)
                  (λ o lt. padded-stored vm1 p g o al.well_formed file1 whole1 lt)
                  (padded-other vm1 p g) in
              (
                _,
                rw got (rw (some_bytes, fill_from_file-padded vm1 p g al.well_formed file1) e),
                Filled-Loaded file_flags vm vm1 _ p g v out locked al f,
              )
        ]

    pub load_file-Loaded :
        is_swap (vm.spte p).type ≡ false
        → (vm.spte p).read_bytes + (vm.spte p).zero_bytes ≡ 4096
        → (w : Vm State) × (load_file F (suc n) place true vm p ≡ some (true, w)) × Loaded vm w p
    unfolding file_flags
    load_file-Loaded file whole =
        let (g, vm1, got, al) =
          frame_alloc-Allocated F owner n place file_flags vm p k v refl refl locked c h free in
        load_file-frame g vm1 got al file whole

    swap_flags : Flags
    swap_flags = record { pal_assert = false; pal_zero = false; pal_user = true }

    load_swap-frame :
        (g : ℕ) (vm1 : Vm State)
        → frame_alloc F (suc n) place swap_flags vm p ≡ some (some g, vm1)
        → Allocated F owner swap_flags vm vm1 p g
        → is_swap (vm.spte p).type ≡ true
        → (vm.spte p).writable ≡ true
        → (w : Vm State) × (load_swap F (suc n) place true vm p ≡ some (true, w)) × Loaded vm w p
    unfolding load_swap swap_flags
    load_swap-frame g vm1 got al s writable =
        let (w, e, f) =
          finish_load-swap vm1 p g al.well_formed (ap (λ e. e.in_memory) al.own ∙ out)
            (al.current ∙ here) (ap (λ e. is_swap e.type) al.own ∙ s)
            (ap (λ e. e.writable) al.own ∙ writable) in
        (
          w,
          rw got (
              ap (λ e. finish_load F true vm1 p g (λ x. swap_in_user F x e.swap_index e.vaddr))
                (sym al.own)
              ∙ e),
          Filled-Loaded swap_flags vm vm1 w p g v out locked al f,
        )

    pub load_swap-Loaded :
        is_swap (vm.spte p).type ≡ true
        → (vm.spte p).writable ≡ true
        → (w : Vm State) × (load_swap F (suc n) place true vm p ≡ some (true, w)) × Loaded vm w p
    unfolding swap_flags
    load_swap-Loaded s writable =
        let (g, vm1, got, al) =
          frame_alloc-Allocated F owner n place swap_flags vm p k v refl refl locked c h free in
        load_swap-frame g vm1 got al s writable
