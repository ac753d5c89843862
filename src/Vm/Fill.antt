-- ===== src/Vm/Fill.antt =====
-- vm/page.c of prj3: a page comes into a frame.
use os_326_omega.Prelude.{
  ℕ, ◌+◌, ◌*◌, ◌/◌, ◌%◌, ◌-◌, ◌≤◌, ◌<◌, ◌≡◌, ◌≢◌, refl, sym, ◌∙◌, ap, subst, inl, inr, ◌==◌, ==_iff,
  if◌then◌else◌, ltb, Bool, true, false, ◌&&◌, Bool-cases, arith, List, [], ◌∷◌,
}
use os_326_omega.Bitmap.View.{view, IsValid}
use os_326_omega.Palloc.{Pool}
use os_326_omega.Palloc.Laws.{InUse}
use os_326_omega.Vm.{is_mmap, is_swap, Spte, FrameEntry, Pte, Files, Vm, pagedir_is_dirty}
use os_326_omega.Vm.Invariant.{
  Distinct, AllEntries, pte_of, frame_of, stored_byte, page_byte, IsEntry, IsVm,
}

-- `w` is `vm` with page `p` read into frame `g` and mapped there; its swap slot may be given back.
pub record Filled (F : Files) (owner : ℕ → ℕ) (vm w : Vm (F.State)) (p g : ℕ) : Type 0 where
  pub user : w.memory.user_pool ≡ vm.memory.user_pool
  pub kernel : w.memory.kernel_pool ≡ vm.memory.kernel_pool
  pub bytes : (o : ℕ) → o < 4096 → w.memory.page g o ≡ stored_byte F owner vm p o
  pub pages : (q : ℕ) → q ≢ g → w.memory.page q ≡ vm.memory.page q
  pub own : w.spte p ≡ record (vm.spte p) { in_memory = true }
  pub others : (q : ℕ) → q ≢ p → w.spte q ≡ vm.spte q
  pub table : (w.pagedir (owner p) (vm.spte p).vaddr).table ≡ true
  pub present : (w.pagedir (owner p) (vm.spte p).vaddr).present ≡ true
  pub frame : (w.pagedir (owner p) (vm.spte p).vaddr).frame ≡ g
  pub ptes : (t a : ℕ) → ((t ≡ owner p) → a ≢ (vm.spte p).vaddr) → w.pagedir t a ≡ vm.pagedir t a
  pub files : w.files ≡ vm.files
  pub frame_table : w.frame_table ≡ vm.frame_table
  pub swap : IsValid w.swap.swap_bitmap
  pub size : w.swap.swap_bitmap.bit_cnt ≡ vm.swap.swap_bitmap.bit_cnt
  pub blocks : w.swap.swap_block ≡ vm.swap.swap_block
  pub bits :
      (i : ℕ)
      → (is_swap (vm.spte p).type ≡ true → i ≢ (vm.spte p).swap_index)
      → view w.swap.swap_bitmap i ≡ view vm.swap.swap_bitmap i

module _ (F : Files) (owner : ℕ → ℕ) (vm w : Vm (F.State)) (p g : ℕ) (v : IsVm F owner vm)
    (out : (vm.spte p).in_memory ≡ false) (locked : (vm.spte p).locked ≡ true)
    (taken : InUse vm.memory g)
    (unused : (q : ℕ) → (vm.spte q).in_memory ≡ true → frame_of F owner vm q ≢ g)
    (f : Filled F owner vm w p g) where
  cases : (P : ℕ → Type 0) → P p → ((q : ℕ) → q ≢ p → P q) → (q : ℕ) → P q
  cases P own other q = elim (Bool-cases (q == p)) [
    | inl same ↦ subst P (sym ((==_iff q p).0 same)) own
    | inr ne ↦ other q (ground arith)
  ]

  -- only in_memory of page `p` changes
  Same : Spte → Spte → Type 0
  Same a b = a ≡ record b { in_memory = a.in_memory }

  same : (q : ℕ) → Same (w.spte q) (vm.spte q)
  unfolding Same
  same =
      cases (λ q. Same (w.spte q) (vm.spte q)) (subst (λ e. Same e (vm.spte p)) (sym f.own) refl)
        (λ q ne. subst (λ e. Same e (vm.spte q)) (sym (f.others q ne)) refl)

  vaddr : (q : ℕ) → (w.spte q).vaddr ≡ (vm.spte q).vaddr
  unfolding Same
  vaddr q = ap (λ e. e.vaddr) (same q)

  type_of : (q : ℕ) → (w.spte q).type ≡ (vm.spte q).type
  unfolding Same
  type_of q = ap (λ e. e.type) (same q)

  index : (q : ℕ) → (w.spte q).swap_index ≡ (vm.spte q).swap_index
  unfolding Same
  index q = ap (λ e. e.swap_index) (same q)

  part_of_file :
      (q : ℕ)
      → ((w.spte q).read_bytes ≡ (vm.spte q).read_bytes)
        × ((w.spte q).offset ≡ (vm.spte q).offset)
        × ((w.spte q).file ≡ (vm.spte q).file)
  unfolding Same
  part_of_file q =
      (ap (λ e. e.read_bytes) (same q), ap (λ e. e.offset) (same q), ap (λ e. e.file) (same q))

  swap_type : (q : ℕ) (b : Bool) → is_swap (w.spte q).type ≡ b → is_swap (vm.spte q).type ≡ b
  swap_type q b h = ap is_swap (sym (type_of q)) ∙ h

  other_pte : (q : ℕ) → q ≢ p → pte_of F owner w q ≡ pte_of F owner vm q
  other_pte q ne =
      ap (w.pagedir (owner q)) (vaddr q)
      ∙ f.ptes (owner q) (vm.spte q).vaddr (λ e. v.addresses q p ne e)

  was : (q : ℕ) → q ≢ p → (w.spte q).in_memory ≡ true → (vm.spte q).in_memory ≡ true
  was q ne m = ap (λ e. e.in_memory) (sym (f.others q ne)) ∙ m

  away : (q : ℕ) → (w.spte q).in_memory ≡ false → (q ≢ p) × ((vm.spte q).in_memory ≡ false)
  away q n = elim (Bool-cases (q == p)) [
    | inl own ↦ absurd (
        let here =
          subst (λ x. (w.spte x).in_memory ≡ true) (sym ((==_iff q p).0 own))
            (ap (λ e. e.in_memory) f.own) in
        cc)
    | inr other ↦
        let ne : q ≢ p = ground arith in (ne, ap (λ e. e.in_memory) (sym (f.others q ne)) ∙ n)
  ]

  own_pte :
      (A : Type 0) (get : Pte → A)
      → get (pte_of F owner w p) ≡ get (w.pagedir (owner p) (vm.spte p).vaddr)
  own_pte A get = ap (λ a. get (w.pagedir (owner p) a)) (vaddr p)

  own_frame : frame_of F owner w p ≡ g
  own_frame = own_pte ℕ (λ e. e.frame) ∙ f.frame

  stored_of : Vm (F.State) → Spte → ℕ → ℕ
  stored_of x e o =
      if is_swap e.type
      then x.swap.swap_block (e.swap_index * 8 + o / 512) (o % 512)
      else if ltb o e.read_bytes
      then F.byte x.files e.file (e.offset + o)
      else 0

  stored_same : (q o : ℕ) → stored_byte F owner w q o ≡ stored_byte F owner vm q o
  unfolding stored_of Same
  stored_same q o =
      ap (λ e. stored_of w e o) (same q)
      ∙ ap
          (λ b.
            if is_swap (vm.spte q).type
            then b ((vm.spte q).swap_index * 8 + o / 512) (o % 512)
            else if ltb o (vm.spte q).read_bytes
            then F.byte w.files (vm.spte q).file ((vm.spte q).offset + o)
            else 0)
          f.blocks
      ∙ ap
          (λ s.
            if is_swap (vm.spte q).type
            then vm.swap.swap_block ((vm.spte q).swap_index * 8 + o / 512) (o % 512)
            else if ltb o (vm.spte q).read_bytes
            then F.byte s (vm.spte q).file ((vm.spte q).offset + o)
            else 0)
          f.files

  pub Filled-bytes : (q o : ℕ) → o < 4096 → page_byte F owner w q o ≡ page_byte F owner vm q o
  Filled-bytes q o lt =
      cases (λ x. page_byte F owner w x o ≡ page_byte F owner vm x o)
        (ap (λ m. if m then w.memory.page (frame_of F owner w p) o else stored_byte F owner w p o)
            (ap (λ e. e.in_memory) f.own)
          ∙ ap (λ x. w.memory.page x o) own_frame
          ∙ f.bytes o lt
          ∙ ap
              (λ m.
                if m then vm.memory.page (frame_of F owner vm p) o else stored_byte F owner vm p o)
              (sym out))
        other_bytes q
    where
      other_bytes : (x : ℕ) → x ≢ p → page_byte F owner w x o ≡ page_byte F owner vm x o
      other_bytes x ne =
          ap (λ m. if m then w.memory.page (frame_of F owner w x) o else stored_byte F owner w x o)
            (ap (λ e. e.in_memory) (f.others x ne))
          ∙ elim (Bool-cases (vm.spte x).in_memory) [
            | inl here ↦ rw here (
                ap (λ e. w.memory.page e.frame o) (other_pte x ne)
                ∙ ap (λ b. b o) (f.pages (frame_of F owner vm x) (unused x here)))
            | inr n ↦ rw n (stored_same x o)
          ]

  Filled-IsEntry :
      (e : FrameEntry)
      → ((vm.spte e.spte).locked ≡ false → IsEntry F owner vm e)
      → (w.spte e.spte).locked ≡ false
      → IsEntry F owner w e
  unfolding Same
  Filled-IsEntry e is unlocked =
      let free = ap (λ x. x.locked) (sym (same e.spte)) ∙ unlocked in
      let ne : e.spte ≢ p =
        λ s. let l = subst (λ x. (vm.spte x).locked ≡ true) (sym s) locked in cc in
      let at = is free in
      record {
        thread = at.thread;
        in_memory = ap (λ x. x.in_memory) (f.others e.spte ne) ∙ at.in_memory;
        frame = ap (λ x. x.frame) (other_pte e.spte ne) ∙ at.frame;
      }

  Filled-AllEntries : (fes : List FrameEntry) → AllEntries F owner vm fes → AllEntries F owner w fes
  Filled-AllEntries [] all = tt
  Filled-AllEntries (e ∷ fes) all = (Filled-IsEntry e all.0, Filled-AllEntries fes all.1)

  slot_same :
      (q : ℕ)
      → (w.spte q).in_memory ≡ false
      → is_swap (w.spte q).type ≡ true
      → view w.swap.swap_bitmap (w.spte q).swap_index
        ≡ view vm.swap.swap_bitmap (vm.spte q).swap_index
  slot_same q n s =
      let (ne, n') = away q n in
      ap (view w.swap.swap_bitmap) (index q)
      ∙ f.bits (vm.spte q).swap_index (λ sp. v.slots q p ne n' (swap_type q true s) out sp)

  frames_apart :
      (q r : ℕ)
      → q ≢ r
      → (w.spte q).in_memory ≡ true
      → (w.spte r).in_memory ≡ true
      → frame_of F owner w q ≢ frame_of F owner w r
  frames_apart q r ne m m' e = elim (Bool-cases (q == p)) [
    | inl own ↦
        let q_p = (==_iff q p).0 own in
        let nr : r ≢ p = λ r_p. ne (q_p ∙ sym r_p) in
        unused r (was r nr m') (
          ap (λ x. x.frame) (sym (other_pte r nr))
          ∙ sym e
          ∙ ap (frame_of F owner w) q_p
          ∙ own_frame)
    | inr other ↦
        let nq : q ≢ p = ground arith in
        elim (Bool-cases (r == p)) [
          | inl own ↦ unused q (was q nq m) (
              ap (λ x. x.frame) (sym (other_pte q nq))
              ∙ e
              ∙ ap (frame_of F owner w) ((==_iff r p).0 own)
              ∙ own_frame)
          | inr other' ↦
              let nr : r ≢ p = ground arith in
              v.frames q r ne (was q nq m) (was r nr m')
                (ap (λ x. x.frame) (sym (other_pte q nq)) ∙ e ∙ ap (λ x. x.frame) (other_pte r nr))
        ]
  ]

  abbrev Held : Pool → ℕ → Type 0
  Held pool x =
      (pool.base ≤ x)
      × (x < pool.base + pool.used_map.bit_cnt)
      × (view pool.used_map (x - pool.base) ≡ true)

  pub Filled-IsVm : IsVm F owner w
  unfolding pagedir_is_dirty
  Filled-IsVm = record {
    memory = record {
      kernel = subst (λ k. IsValid k.used_map) (sym f.kernel) v.memory.kernel;
      user = subst (λ u. IsValid u.used_map) (sym f.user) v.memory.user;
      apart =
          subst (λ k. k.base + k.used_map.bit_cnt ≤ w.memory.user_pool.base) (sym f.kernel)
            (subst
              (λ u. vm.memory.kernel_pool.base + vm.memory.kernel_pool.used_map.bit_cnt ≤ u.base)
              (sym f.user) v.memory.apart);
    };
    swap = f.swap;
    table =
        cases (λ q. (w.spte q).in_memory ≡ true → (pte_of F owner w q).table ≡ true)
          (λ m. own_pte Bool (λ e. e.table) ∙ f.table)
          (λ q ne m. ap (λ e. e.table) (other_pte q ne) ∙ v.table q (was q ne m));
    present =
        cases (λ q. (w.spte q).in_memory ≡ true → (pte_of F owner w q).present ≡ true)
          (λ m. own_pte Bool (λ e. e.present) ∙ f.present)
          (λ q ne m. ap (λ e. e.present) (other_pte q ne) ∙ v.present q (was q ne m));
    absent = λ q n.
        let (ne, n') = away q n in ap (λ e. e.table && e.present) (other_pte q ne) ∙ v.absent q n';
    in_use = λ q m.
        subst (λ u. Held u (frame_of F owner w q)) (sym f.user)
          (cases
            (λ x. (w.spte x).in_memory ≡ true → Held vm.memory.user_pool (frame_of F owner w x))
            (λ m. subst (Held vm.memory.user_pool) (sym own_frame) taken)
            (λ x ne m.
              subst (Held vm.memory.user_pool) (sym (ap (λ e. e.frame) (other_pte x ne)))
                (v.in_use x (was x ne m)))
            q m);
    frames = frames_apart;
    addresses = λ q r ne o e. v.addresses q r ne o (sym (vaddr q) ∙ e ∙ vaddr r);
    clean = λ q o m fi d lt.
        cases
          (λ x.
            (w.spte x).in_memory ≡ true
            → is_swap (w.spte x).type ≡ false
            → ((pte_of F owner w x).table && (pte_of F owner w x).dirty ≡ false)
            → w.memory.page (frame_of F owner w x) o ≡ stored_byte F owner w x o)
          (λ m fi d. ap (λ x. w.memory.page x o) own_frame ∙ f.bytes o lt ∙ sym (stored_same p o))
          (λ x ne m fi d.
            ap (λ e. w.memory.page e.frame o) (other_pte x ne)
            ∙ ap (λ b. b o) (f.pages (frame_of F owner vm x) (unused x (was x ne m)))
            ∙ v.clean x o (was x ne m) (swap_type x false fi)
                (ap (λ e. e.table && e.dirty) (sym (other_pte x ne)) ∙ d) lt
            ∙ sym (stored_same x o))
          q m fi d;
    slot_inside =
        λ q n s. omega (arith, v.slot_inside q (away q n).1 (swap_type q true s), f.size, index q);
    slot_used = λ q n s. slot_same q n s ∙ v.slot_used q (away q n).1 (swap_type q true s);
    slots = λ q r ne n s n' s' e.
        v.slots q r ne (away q n).1 (swap_type q true s) (away r n').1 (swap_type r true s')
          (sym (index q) ∙ e ∙ index r);
    inside_file = λ q fi.
        let (r, o, fl) = part_of_file q in
        let l : F.length w.files (w.spte q).file ≡ F.length vm.files (vm.spte q).file =
          ap (F.length w.files) fl ∙ ap (λ x. F.length x (vm.spte q).file) f.files in
        let (small, fits) = v.inside_file q (swap_type q false fi) in (omega arith, omega arith);
    apart = λ q r ne m fi e.
        let (r1, o1, f1) = part_of_file q in
        let (r2, o2, f2) = part_of_file r in
        elim (v.apart q r ne (ap is_mmap (sym (type_of q)) ∙ m) (swap_type r false fi)
          (sym f1 ∙ e ∙ f2)) [ inl before ↦ inl (omega arith) | inr after ↦ inr (omega arith) ];
    keys = subst Distinct (sym f.frame_table) v.keys;
    entries =
        subst (AllEntries F owner w) (sym f.frame_table)
          (Filled-AllEntries vm.frame_table v.entries);
  }
