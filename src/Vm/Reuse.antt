-- ===== src/Vm/Reuse.antt =====
-- vm/frame.c of prj3: a page is forgotten and its frame reused.
use os_326_omega.Prelude.{
  ℕ, ◌-◌, ◌≡◌, ◌≢◌, refl, ◌∙◌, subst, inl, inr, ◌==◌, true, false, ◌&&◌, Bool-cases, arith, List,
  [], ◌∷◌, Option, some, none,
}
use os_326_omega.Palloc.{Flags, Memory, palloc_get_page, palloc_free_page}
use os_326_omega.Palloc.Laws.{
  IsMemory, InUse, OnlyPage, GetOutcome, palloc_get_page-Obtained, palloc_free_page-OnlyPage,
}
use os_326_omega.Vm.{FrameEntry, Files, Vm, pagedir_clear_page}
use os_326_omega.Vm.Frame.{hash_find, hash_delete, forget}
use os_326_omega.Vm.Invariant.{Distinct}

-- What forget does with the entry `fe`.
pub record Forgotten {S : Type 0} (vm gone : Vm S) (fe : FrameEntry) : Type 0 where
  pub memory : gone.memory ≡ vm.memory
  pub swap : gone.swap ≡ vm.swap
  pub files : gone.files ≡ vm.files
  pub current : gone.current ≡ vm.current
  pub own : gone.spte fe.spte ≡ record (vm.spte fe.spte) { in_memory = false }
  pub others : (q : ℕ) → q ≢ fe.spte → gone.spte q ≡ vm.spte q
  pub ptes :
      (t a : ℕ)
      → ((t ≡ fe.thread) → a ≢ (vm.spte fe.spte).vaddr)
      → gone.pagedir t a ≡ vm.pagedir t a
  pub unmapped :
      (gone.pagedir fe.thread (vm.spte fe.spte).vaddr).table
        && (gone.pagedir fe.thread (vm.spte fe.spte).vaddr).present
      ≡ false
  pub frame_table : gone.frame_table ≡ hash_delete fe.frame vm.frame_table

module _ (F : Files) where
  open F use {State}

  pub forget-Forgotten : (vm : Vm State) (fe : FrameEntry) → Forgotten vm (forget F vm fe) fe
  unfolding forget pagedir_clear_page
  forget-Forgotten vm fe =
      let pte = vm.pagedir fe.thread (vm.spte fe.spte).vaddr in
      let Goal : Vm State → Type 0 = λ gone. Forgotten vm gone fe in
      elim (Bool-cases (
        (vm.pagedir fe.thread (vm.spte fe.spte).vaddr).table
        && (vm.pagedir fe.thread (vm.spte fe.spte).vaddr).present)) [
          | inl mapped ↦ record {
            memory = ground arith;
            swap = ground arith;
            files = ground arith;
            current = ground arith;
            own = ground arith;
            others = λ q ne. ground arith;
            ptes = λ t a ne. ground arith;
            unmapped = ground arith;
            frame_table = ground arith;
          }
          | inr not_mapped ↦ record {
            memory = ground arith;
            swap = ground arith;
            files = ground arith;
            current = ground arith;
            own = ground arith;
            others = λ q ne. ground arith;
            ptes = λ t a ne. ground arith;
            unmapped = ground arith;
            frame_table = ground arith;
          }
        ]

hash_find-delete :
    (f g : ℕ) (fes : List FrameEntry)
    → hash_find f fes ≡ false
    → hash_find f (hash_delete g fes) ≡ false
unfolding hash_find hash_delete
hash_find-delete f g [] h = refl
hash_find-delete f g (e ∷ fes) h = let ih = hash_find-delete f g fes in ground arith

pub delete-Distinct : (f : ℕ) (fes : List FrameEntry) → Distinct fes → Distinct (hash_delete f fes)
unfolding hash_delete
delete-Distinct f [] d = tt
delete-Distinct f (e ∷ fes) d =
    let rest = delete-Distinct f fes d.1 in
    elim (Bool-cases (e.frame == f)) [
      | inl same ↦ rw same d.1
      | inr ne ↦ rw ne (hash_find-delete e.frame f fes d.0, rest)
    ]

pub OnlyPage-InUse : (m m' : Memory) (f q : ℕ) → OnlyPage m m' f → q ≢ f → InUse m q → InUse m' q
OnlyPage-InUse m m' f q only ne u =
    ground (arith, only.base, only.size, only.bits (q - m.user_pool.base))

-- a freed page and a new one
abbrev pub Swapped : (flags : Flags) (m : Memory) (f : ℕ) → Type 0
Swapped flags m f =
    (m1 : Memory) × (m2 : Memory) × (g : ℕ) × (palloc_free_page m (some f) ≡ some m1)
    × (palloc_get_page m1 flags ≡ some (some g, m2))
    × IsMemory m2
    × InUse m2 g
    × ((flags.pal_zero ≡ true) → (o : ℕ) → m2.page g o ≡ 0)
    × ((q : ℕ) → q ≢ f → InUse m q → (InUse m2 q) × (m2.page q ≡ m.page q) × (q ≢ g))

pub free_get-Swapped :
    (m : Memory) (flags : Flags) (f : ℕ)
    → IsMemory m
    → InUse m f
    → flags.pal_user ≡ true
    → flags.pal_assert ≡ false
    → Swapped flags m f
free_get-Swapped m flags f v u user no_assert = with_free (palloc_free_page-OnlyPage m f v u)
  where
    with_free :
        (m1 : Memory) × (palloc_free_page m (some f) ≡ some m1) × OnlyPage m m1 f × (¬ (InUse m1 f))
        → Swapped flags m f
    with_free (m1, freed, only, free) =
        with_page (palloc_get_page-Obtained m1 flags only.valid user no_assert)
      where
        with_page :
            (r : Option ℕ × Memory) × (palloc_get_page m1 flags ≡ some r) × GetOutcome flags m1 r
            → Swapped flags m f
        with_page ((none, m2), got, full) =
            absurd
              (free (full.1 f (omega (arith, only.base)) (omega (arith, only.base, only.size))))
        with_page ((some g, m2), got, o) = (
          m1,
          m2,
          g,
          freed,
          got,
          o.only.valid,
          o.taken,
          o.zeroed,
          λ q ne used.
              let used1 = OnlyPage-InUse m m1 f q only ne used in
              let apart : q ≢ g = λ e. o.free (subst (λ n. InUse m1 n) e used1) in
              (
                OnlyPage-InUse m1 m2 g q o.only apart used1,
                o.only.pages q apart ∙ only.pages q ne,
                apart,
              ),
        )
