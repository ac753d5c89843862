-- ===== src/Bitmap/Multiple.antt =====
-- Setting and counting ranges of bits (bitmap_set_multiple, bitmap_set_all, bitmap_count,
-- bitmap_contains of lib/kernel/bitmap.c).
use os_326_omega.Prelude.{
  ℕ, zero, suc, ◌+◌, ◌≤◌, ◌<◌, ◌≡◌, refl, ◌∙◌, inl, inr, Bool, true, false, not, beq, ◌&&◌, arith,
  if◌then◌else◌, ap, ltb, leb, some, Bool-cases,
}
use os_326_omega.Bitmap.{
  Bitmap, bitmap_set, set_loop, bitmap_set_multiple, bitmap_set_all, count_loop, bitmap_count,
  contains_loop, bitmap_contains, bitmap_all, bitmap_mark, bitmap_reset,
}
use os_326_omega.Bitmap.View.{
  view, IsValid, view-mark, view-reset, mark-IsValid, reset-IsValid, test-view,
}

-- j lies in the range of cnt indices from start on
abbrev pub inside : ℕ → ℕ → ℕ → Bool
inside start cnt j = leb start j && ltb j (start + cnt)

-- `b'` is `b` with the range set to `value`.
pub record Sets (b : Bitmap) (start cnt : ℕ) (value : Bool) (b' : Bitmap) : Type 0 where
  pub size : b'.bit_cnt ≡ b.bit_cnt
  pub valid : IsValid b'
  pub bits : (j : ℕ) → view b' j ≡ (if inside start cnt j then value else view b j)

set-Sets :
    (b : Bitmap) (i : ℕ) (value : Bool)
    → IsValid b
    → i < b.bit_cnt
    → (b' : Bitmap) × (bitmap_set b i value ≡ some b') × Sets b i 1 value b'
unfolding bitmap_set bitmap_mark bitmap_reset
set-Sets b i true v h = (
  bitmap_mark b i,
  ground arith,
  record {
    size = refl;
    valid = mark-IsValid b i v h;
    bits = λ j. ground (arith, view-mark b i v h j);
  },
)
set-Sets b i false v h = (
  bitmap_reset b i,
  ground arith,
  record {
    size = refl;
    valid = reset-IsValid b i v h;
    bits = λ j. ground (arith, view-reset b i v h j);
  },
)

set_loop-Sets :
    (n : ℕ) (b : Bitmap) (i : ℕ) (value : Bool)
    → IsValid b
    → i + n ≤ b.bit_cnt
    → (b' : Bitmap) × (set_loop n b i value ≡ some b') × Sets b i n value b'
unfolding set_loop
set_loop-Sets zero b i value v h =
    (b, refl, record { size = refl; valid = v; bits = λ j. ground arith })
set_loop-Sets (suc n) b i value v h =
    let (b', e, s) = set-Sets b i value v (omega arith) in
    let (c, e', s') = set_loop-Sets n b' (i + 1) value s.valid (omega (arith, s.size)) in
    (
      c,
      rw e e',
      record {
        size = s'.size ∙ s.size;
        valid = s'.valid;
        bits = λ j. ground (arith, s.bits j, s'.bits j);
      },
    )

-- A range inside the bitmap is set without a panic, the bits outside keep their values, and the
-- bitmap stays valid.
pub bitmap_set_multiple-Sets :
    (b : Bitmap) (start cnt : ℕ) (value : Bool)
    → IsValid b
    → start + cnt ≤ b.bit_cnt
    → (b' : Bitmap) × (bitmap_set_multiple b start cnt value ≡ some b') × Sets b start cnt value b'
unfolding bitmap_set_multiple
bitmap_set_multiple-Sets b start cnt value v h =
    let (b', e, s) = set_loop-Sets cnt b start value v h in (b', ground (arith, v.small), s)

pub bitmap_set_all-Sets :
    (b : Bitmap) (value : Bool)
    → IsValid b
    → (b' : Bitmap) × (bitmap_set_all b value ≡ some b') × Sets b 0 b.bit_cnt value b'
unfolding bitmap_set_all
bitmap_set_all-Sets b value v = bitmap_set_multiple-Sets b 0 b.bit_cnt value v (omega arith)

-- how many of the n bits from i on have the value
unfoldable pub count_view : Bitmap → ℕ → ℕ → Bool → ℕ
count_view b zero i value = 0
count_view b (suc n) i value =
    (if beq (view b i) value then 1 else 0) + count_view b n (i + 1) value

count_loop-view :
    (n : ℕ) (b : Bitmap) (i : ℕ) (value : Bool) (acc : ℕ)
    → IsValid b
    → i + n ≤ b.bit_cnt
    → count_loop n b i value acc ≡ some (acc + count_view b n i value)
unfolding count_loop count_view
count_loop-view zero b i value acc v h = ap some (omega arith)
count_loop-view (suc n) b i value acc v h =
    rw (test-view b i v (omega arith))
      (count_loop-view n b (i + 1) value _ v (omega arith) ∙ ap some (ground arith))

-- bitmap_count counts the bits of its range that have the value.
pub bitmap_count-view :
    (b : Bitmap) (start cnt : ℕ) (value : Bool)
    → IsValid b
    → start + cnt ≤ b.bit_cnt
    → bitmap_count b start cnt value ≡ some (count_view b cnt start value)
unfolding bitmap_count
bitmap_count-view b start cnt value v h =
    ground (arith, v.small, count_loop-view cnt b start value 0 v h)

-- all n bits from i on have the value
abbrev pub Run : Bitmap → ℕ → ℕ → Bool → Type 0
Run b i n value = (k : ℕ) → i ≤ k → k < i + n → view b k ≡ value

-- What a search of a range finds: a bit with the value, or that there is none.
unfoldable pub Found : Bitmap → ℕ → ℕ → Bool → Bool → Type 0
Found b i n value true = (k : ℕ) × (i ≤ k) × (k < i + n) × (view b k ≡ value)
Found b i n value false = Run b i n (not value)

contains_loop-Found :
    (n : ℕ) (b : Bitmap) (i : ℕ) (value : Bool)
    → IsValid b
    → i + n ≤ b.bit_cnt
    → (r : Bool) × (contains_loop n b i value ≡ some r) × Found b i n value r
unfolding contains_loop Found
contains_loop-Found zero b i value v h = (false, refl, λ k p q. absurd (omega arith))
contains_loop-Found (suc n) b i value v h = elim (Bool-cases (beq (view b i) value)) [
  | inl e ↦ (true, ground (arith, test-view b i v), (i, omega arith, omega arith, ground arith))
  | inr e ↦ step e (contains_loop-Found n b (i + 1) value v (omega arith))
]
  where
    step :
        beq (view b i) value ≡ false
        → (r : Bool) × (contains_loop n b (i + 1) value ≡ some r) × Found b (i + 1) n value r
        → (r : Bool) × (contains_loop (suc n) b i value ≡ some r) × Found b i (suc n) value r
    step e (true, p, (k, lo, hi, q)) =
        (true, ground (arith, test-view b i v), (k, omega arith, omega arith, q))
    step e (false, p, all) =
        (false, ground (arith, test-view b i v), λ k lo hi. ground (arith, all k))

-- bitmap_contains finds a bit with the value in its range, or there is none.
pub bitmap_contains-Found :
    (b : Bitmap) (start cnt : ℕ) (value : Bool)
    → IsValid b
    → start + cnt ≤ b.bit_cnt
    → (r : Bool) × (bitmap_contains b start cnt value ≡ some r) × Found b start cnt value r
unfolding bitmap_contains
bitmap_contains-Found b start cnt value v h =
    let (r, e, f) = contains_loop-Found cnt b start value v h in (r, ground (arith, v.small), f)

-- bitmap_all of a range whose bits are all set
pub bitmap_all-Run :
    (b : Bitmap) (start cnt : ℕ)
    → IsValid b
    → start + cnt ≤ b.bit_cnt
    → Run b start cnt true
    → bitmap_all b start cnt ≡ some true
unfolding bitmap_all Found
bitmap_all-Run b start cnt v h run = step (bitmap_contains-Found b start cnt false v h)
  where
    step :
        (r : Bool) × (bitmap_contains b start cnt false ≡ some r) × Found b start cnt false r
        → bitmap_all b start cnt ≡ some true
    step (true, e, f) = absurd (free_bit f)
      where
        free_bit : ¬ (Found b start cnt false true)
        free_bit (k, lo, hi, free) = ground (arith, run k lo hi)
    step (false, e, f) = rw e refl
