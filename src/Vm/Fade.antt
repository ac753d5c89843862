-- ===== src/Vm/Fade.antt =====
-- vm/frame.c of prj3: the accessed bits that a search for a victim clears.
use os_326_omega.Prelude.{
  ℕ, ◌≡◌, refl, sym, ◌∙◌, ap, subst, inl, inr, if◌then◌else◌, false, Bool-cases, arith, List, [],
  ◌∷◌,
}
use os_326_omega.Palloc.{Flags}
use os_326_omega.Palloc.Laws.{InUse}
use os_326_omega.Vm.{
  FrameEntry, Pte, Files, Vm, set_pte, pagedir_is_accessed, pagedir_set_accessed, pagedir_is_dirty,
}
use os_326_omega.Vm.Invariant.{AllEntries, stored_byte, page_byte, IsEntry, IsVm}
use os_326_omega.Vm.Evict.{Replaced}

-- Two page tables that differ in accessed bits, of which the second has no more.
pub record Faded (d d' : ℕ → ℕ → Pte) : Type 0 where
  pub table : (t a : ℕ) → (d' t a).table ≡ (d t a).table
  pub present : (t a : ℕ) → (d' t a).present ≡ (d t a).present
  pub frame : (t a : ℕ) → (d' t a).frame ≡ (d t a).frame
  pub dirty : (t a : ℕ) → (d' t a).dirty ≡ (d t a).dirty
  pub accessed : (t a : ℕ) → (d t a).accessed ≡ false → (d' t a).accessed ≡ false

pub Faded-refl : (d : ℕ → ℕ → Pte) → Faded d d
Faded-refl d = record {
  table = λ t a. refl;
  present = λ t a. refl;
  frame = λ t a. refl;
  dirty = λ t a. refl;
  accessed = λ t a h. h;
}

pub Faded-trans : (a b c : ℕ → ℕ → Pte) → Faded a b → Faded b c → Faded a c
Faded-trans a b c f g = record {
  table = λ t v. g.table t v ∙ f.table t v;
  present = λ t v. g.present t v ∙ f.present t v;
  frame = λ t v. g.frame t v ∙ f.frame t v;
  dirty = λ t v. g.dirty t v ∙ f.dirty t v;
  accessed = λ t v h. g.accessed t v (f.accessed t v h);
}

module _ (F : Files) (owner : ℕ → ℕ) where
  open F use {State}

  abbrev pub with_pagedir : Vm State → (ℕ → ℕ → Pte) → Vm State
  with_pagedir vm d = record vm { pagedir = d }

  abbrev pub Cleared : Vm State → ℕ → ℕ → Type 0
  Cleared vm t a =
      (d : ℕ → ℕ → Pte) × (pagedir_set_accessed vm t a false ≡ with_pagedir vm d)
      × Faded (vm.pagedir) d
      × (pagedir_is_accessed (with_pagedir vm d) t a ≡ false)

  pub cleared : (vm : Vm State) (t a : ℕ) → Cleared vm t a
  unfolding pagedir_set_accessed pagedir_is_accessed
  cleared vm t a = elim (Bool-cases (vm.pagedir t a).table) [
    | inl h ↦ (
      (set_pte vm t a (record (vm.pagedir t a) { accessed = false })).pagedir,
      rw h refl,
      record {
        table = λ x y. ground arith;
        present = λ x y. ground arith;
        frame = λ x y. ground arith;
        dirty = λ x y. ground arith;
        accessed = λ x y u. ground arith;
      },
      ground arith,
    )
    | inr h ↦ (vm.pagedir, rw h refl, Faded-refl _, ground arith)
  ]

  module _ (vm : Vm State) (d : ℕ → ℕ → Pte) (faded : Faded vm.pagedir d) where
    Faded-IsEntry :
        (fe : FrameEntry) → IsEntry F owner vm fe → IsEntry F owner (with_pagedir vm d) fe
    Faded-IsEntry fe e = record {
      thread = e.thread;
      in_memory = e.in_memory;
      frame = faded.frame _ _ ∙ e.frame;
    }

    pub Faded-AllEntries :
        (fes : List FrameEntry)
        → AllEntries F owner vm fes
        → AllEntries F owner (with_pagedir vm d) fes
    Faded-AllEntries [] all = tt
    Faded-AllEntries (fe ∷ fes) all =
        ((λ u. Faded-IsEntry fe (all.0 u)), Faded-AllEntries fes all.1)

    Faded-bytes : (q o : ℕ) → page_byte F owner (with_pagedir vm d) q o ≡ page_byte F owner vm q o
    Faded-bytes q o =
        ap (λ f. if (vm.spte q).in_memory then vm.memory.page f o else stored_byte F owner vm q o)
          (faded.frame _ _)

    pub Faded-IsVm : IsVm F owner vm → IsVm F owner (with_pagedir vm d)
    unfolding pagedir_is_dirty
    Faded-IsVm v = record {
      memory = v.memory;
      swap = v.swap;
      table = λ p m. faded.table _ _ ∙ v.table p m;
      present = λ p m. faded.present _ _ ∙ v.present p m;
      absent = λ p n.
          rw (faded.table (owner p) (vm.spte p).vaddr, faded.present (owner p) (vm.spte p).vaddr)
            (v.absent p n);
      in_use = λ p m. subst (InUse vm.memory) (sym (faded.frame _ _)) (v.in_use p m);
      frames = λ p q ne m m' e. v.frames p q ne m m' (sym (faded.frame _ _) ∙ e ∙ faded.frame _ _);
      addresses = v.addresses;
      clean = λ p o m f c lt.
          ap (λ f. vm.memory.page f o) (faded.frame _ _)
          ∙ v.clean p o m f
              (rw
                (
                  sym (faded.table (owner p) (vm.spte p).vaddr),
                  sym (faded.dirty (owner p) (vm.spte p).vaddr),
                )
                c)
              lt;
      slot_inside = v.slot_inside;
      slot_used = v.slot_used;
      slots = v.slots;
      inside_file = v.inside_file;
      apart = v.apart;
      keys = v.keys;
      entries = Faded-AllEntries vm.frame_table v.entries;
    }

    pub Faded-Replaced :
        (flags : Flags) (vm' : Vm State) (p g : ℕ)
        → Replaced F owner flags (with_pagedir vm d) vm' p g
        → Replaced F owner flags vm vm' p g
    Faded-Replaced flags vm' p g r = record {
      well_formed = r.well_formed;
      out = r.out;
      current = r.current;
      others = r.others;
      bytes = λ q o lt. r.bytes q o lt ∙ Faded-bytes q o;
      taken = r.taken;
      unused = r.unused;
      zeroed = r.zeroed;
    }
