-- ===== src/Palloc/Laws.antt =====
-- threads/palloc.c of prj3: single pages of the user pool.
use os_326_omega.Prelude.{
  ℕ, ◌+◌, ◌-◌, ◌≤◌, ◌<◌, ◌≡◌, ◌≢◌, refl, sym, inl, inr, true, false, arith, Option, some, none,
  Bool-cases, subst,
}
use os_326_omega.Bitmap.{Bitmap, bitmap_scan_and_flip}
use os_326_omega.Bitmap.View.{view, IsValid}
use os_326_omega.Bitmap.Multiple.{Run, bitmap_set_multiple-Sets, bitmap_all-Run}
use os_326_omega.Bitmap.Scan.{Flipped, bitmap_scan_and_flip_lem}
use os_326_omega.Palloc.{
  Page, Flags, Memory, memset, palloc_get_multiple, palloc_get_page, page_from_pool, free_in_pool,
  palloc_free_multiple, palloc_free_page,
}

-- The pools are well formed, and the user pool lies behind the kernel pool.
pub record IsMemory (m : Memory) : Type 0 where
  pub kernel : IsValid m.kernel_pool.used_map
  pub user : IsValid m.user_pool.used_map
  pub apart : m.kernel_pool.base + m.kernel_pool.used_map.bit_cnt ≤ m.user_pool.base

-- Page `f` of the user pool is handed out.
abbrev pub InUse : Memory → ℕ → Type 0
InUse m f =
    (m.user_pool.base ≤ f)
    × (f < m.user_pool.base + m.user_pool.used_map.bit_cnt)
    × (view m.user_pool.used_map (f - m.user_pool.base) ≡ true)

-- Only page `f` changes, in its bit and its bytes.
pub record OnlyPage (m m' : Memory) (f : ℕ) : Type 0 where
  pub valid : IsMemory m'
  pub base : m'.user_pool.base ≡ m.user_pool.base
  pub size : m'.user_pool.used_map.bit_cnt ≡ m.user_pool.used_map.bit_cnt
  pub bits :
      (i : ℕ)
      → m.user_pool.base + i ≢ f
      → view m'.user_pool.used_map i ≡ view m.user_pool.used_map i
  pub pages : (q : ℕ) → q ≢ f → m'.page q ≡ m.page q

-- What palloc_get_page for the user pool gives.
pub record Obtained (flags : Flags) (m m' : Memory) (f : ℕ) : Type 0 where
  pub only : OnlyPage m m' f
  pub free : ¬ (InUse m f)
  pub taken : InUse m' f
  pub zeroed : flags.pal_zero ≡ true → (o : ℕ) → m'.page f o ≡ 0

abbrev pub GetOutcome : Flags → Memory → Option ℕ × Memory → Type 0
GetOutcome flags m (none, m') =
    (m' ≡ m)
    × ((f : ℕ)
        → m.user_pool.base ≤ f
        → f < m.user_pool.base + m.user_pool.used_map.bit_cnt
        → InUse m f)
GetOutcome flags m (some f, m') = Obtained flags m m' f

-- palloc_get_page from a well formed user pool, without PAL_ASSERT, does not panic: it hands out
-- a page that was free, full of zeros if PAL_ZERO is set, and changes no other page, or every
-- page of the pool is in use and nothing changes.
pub palloc_get_page-Obtained :
    (m : Memory) (flags : Flags)
    → IsMemory m
    → flags.pal_user ≡ true
    → flags.pal_assert ≡ false
    → (r : Option ℕ × Memory) × (palloc_get_page m flags ≡ some r) × GetOutcome flags m r
unfolding palloc_get_page palloc_get_multiple
palloc_get_page-Obtained m flags v u a =
    step (bitmap_scan_and_flip_lem m.user_pool.used_map 0 1 false v.user (omega arith))
  where
    Goal : Type 0
    Goal = (r : Option ℕ × Memory) × (palloc_get_page m flags ≡ some r) × GetOutcome flags m r

    step :
        (r : ℕ × Bitmap) × (bitmap_scan_and_flip m.user_pool.used_map 0 1 false ≡ some r)
          × Flipped m.user_pool.used_map 0 1 false r.0 r.1
        → Goal
    step ((i, b), e, inl (f, s, ne)) =
        let found = m.user_pool.base + i in
        let only : (page : ℕ → Page)
            → ((q : ℕ) → q ≢ found → page q ≡ m.page q)
            → OnlyPage m
                (record m { user_pool = record (m.user_pool) { used_map = b }; page = page })
                found =
          λ page same. record {
            valid = record { kernel = v.kernel; user = s.valid; apart = v.apart };
            base = refl;
            size = s.size;
            bits = λ j ne'. ground (arith, s.bits j);
            pages = same;
          } in
        let index : found - m.user_pool.base ≡ i = omega arith in
        let free : ¬ (InUse m found) = λ h. cc (
          subst (λ n. view m.user_pool.used_map n ≡ true) index h.2,
          f.run i (omega arith) (omega arith),
        ) in
        let taken : InUse (record m { user_pool = record (m.user_pool) { used_map = b } }) found = (
          omega arith,
          omega (arith, f.fits, s.size),
          subst (λ n. view b n ≡ true) (sym index) (ground (arith, s.bits i)),
        ) in
        elim (Bool-cases flags.pal_zero) [
          | inl z ↦ (
            (
              some found,
              record m {
                user_pool = record (m.user_pool) { used_map = b };
                page = memset m.page found 1 0;
              },
            ),
            rw (u, e, z) (ground arith),
            record {
              only = only (memset m.page found 1 0) (λ q ne'. ground arith);
              free = free;
              taken = taken;
              zeroed = λ h o. ground arith;
            },
          )
          | inr z ↦ (
            (some found, record m { user_pool = record (m.user_pool) { used_map = b } }),
            rw (u, e, z) (ground arith),
            record {
              only = only m.page (λ q ne'. refl);
              free = free;
              taken = taken;
              zeroed = λ h o. absurd (cc);
            },
          )
        ]
    step ((i, b), e, inr (err, missing, same)) = (
      (none, record m { user_pool = record (m.user_pool) { used_map = b } }),
      rw (u, e, err, a) refl,
      (rw same refl, λ f lo hi. (lo, hi, all_used (f - m.user_pool.base) (omega arith))),
    )
      where
        all_used : (j : ℕ) → j < m.user_pool.used_map.bit_cnt → view m.user_pool.used_map j ≡ true
        all_used j h = elim (Bool-cases (view m.user_pool.used_map j)) [
          | inl used ↦ used
          | inr free ↦ absurd (
              missing j (omega arith) (omega arith) (λ k lo hi.
                subst (λ n. view m.user_pool.used_map n ≡ false) (let e : j ≡ k = omega arith in e)
                  free))
        ]

-- palloc_free_page of a page of the user pool that is handed out does not panic; the page is free
-- afterwards and no other page changes.
pub palloc_free_page-OnlyPage :
    (m : Memory) (f : ℕ)
    → IsMemory m
    → InUse m f
    → (m' : Memory) × (palloc_free_page m (some f) ≡ some m') × OnlyPage m m' f × (¬ (InUse m' f))
unfolding palloc_free_page palloc_free_multiple page_from_pool free_in_pool
palloc_free_page-OnlyPage m f v u =
    let pool = m.user_pool in
    let i = f - pool.base in
    let run : Run pool.used_map i 1 true =
      λ k lo hi. subst (λ n. view pool.used_map n ≡ true) (let e : i ≡ k = omega arith in e) u.2 in
    let not_kernel : page_from_pool m.kernel_pool f ≡ false = ground (arith, v.apart) in
    let in_user : page_from_pool m.user_pool f ≡ true = ground arith in
    let all = bitmap_all-Run pool.used_map i 1 v.user (omega arith) run in
    let (b, e, s) = bitmap_set_multiple-Sets pool.used_map i 1 false v.user (omega arith) in
    (
      record m { user_pool = record pool { used_map = b }; page = memset m.page f 1 0xcc },
      rw (not_kernel, in_user) (rw (all, e) refl),
      record {
        valid = record { kernel = v.kernel; user = s.valid; apart = v.apart };
        base = refl;
        size = s.size;
        bits = λ j ne. ground (arith, s.bits j);
        pages = λ q ne. ground arith;
      },
      λ w. ground (arith, s.bits i),
    )
