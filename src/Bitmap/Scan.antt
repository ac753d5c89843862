-- ===== src/Bitmap/Scan.antt =====
-- bitmap_contains, bitmap_scan and bitmap_scan_and_flip of lib/kernel/bitmap.c.
use os_326_omega.Prelude.{
  ℕ, zero, suc, ◌+◌, ◌-◌, ◌≤◌, ◌<◌, ◌≡◌, refl, ◌∙◌, ◌≢◌, ◌⊎◌, inl, inr, Bool, true, false, not,
  arith, leb, some, Bool-cases, leb→le, subst, ℕ_discrete,
}
use mathlib.Core.Bool.{not-not}
use os_326_omega.Bitmap.{
  Bitmap, bitmap_contains, bitmap_error, scan_loop, bitmap_scan, bitmap_scan_and_flip,
}
use os_326_omega.Bitmap.View.{IsValid}
use os_326_omega.Bitmap.Multiple.{Run, Found, bitmap_contains-Found, Sets, bitmap_set_multiple-Sets}

-- `r` starts the first run of cnt bits with the value, at or after start.
pub record First (b : Bitmap) (start cnt : ℕ) (value : Bool) (r : ℕ) : Type 0 where
  pub after : start ≤ r
  pub fits : r + cnt ≤ b.bit_cnt
  pub run : Run b r cnt value
  pub first : (j : ℕ) → start ≤ j → j < r → ¬ (Run b j cnt value)

-- There is no run of cnt bits with the value at or after start.
abbrev pub NoRun : Bitmap → ℕ → ℕ → Bool → Type 0
NoRun b start cnt value = (j : ℕ) → start ≤ j → j + cnt ≤ b.bit_cnt → ¬ (Run b j cnt value)

-- the specification of bitmap_scan
abbrev pub Scanned : Bitmap → ℕ → ℕ → Bool → ℕ → Type 0
Scanned b start cnt value r =
    First b start cnt value r ⊎ ((r ≡ bitmap_error) × NoRun b start cnt value)

not-Run : (b : Bitmap) (i n : ℕ) (value : Bool) → Found b i n (not value) true → ¬ (Run b i n value)
unfolding Found
not-Run b i n value (k, lo, hi, e) run = ground (arith, run k lo hi)

Run-of_not-Found :
    (b : Bitmap) (i n : ℕ) (value : Bool) → Found b i n (not value) false → Run b i n value
unfolding Found
Run-of_not-Found b i n value f k lo hi = f k lo hi ∙ not-not value

-- one more start that is no run
Scanned-step :
    (b : Bitmap) (i cnt : ℕ) (value : Bool) (r : ℕ)
    → ¬ (Run b i cnt value)
    → Scanned b (i + 1) cnt value r
    → Scanned b i cnt value r
Scanned-step b i cnt value r fails (inl f) = inl (record {
  after = omega (arith, f.after);
  fits = f.fits;
  run = f.run;
  first = λ j p q. elim (ℕ_discrete i j) [
    | yes e ↦ subst (λ k. ¬ (Run b k cnt value)) e fails
    | no ne ↦ f.first j (omega arith) q
  ];
})
Scanned-step b i cnt value r fails (inr (e, none_left)) = inr (
  e,
  λ j p q. elim (ℕ_discrete i j) [
    | yes same ↦ subst (λ k. ¬ (Run b k cnt value)) same fails
    | no ne ↦ none_left j (omega arith) q
  ],
)

scan_loop-Scanned :
    (n : ℕ) (b : Bitmap) (i cnt : ℕ) (value : Bool)
    → IsValid b
    → (b.bit_cnt + 1 - cnt ≤ i + n) × ((n ≡ 0) ⊎ (i + n + cnt ≡ b.bit_cnt + 1))
    → (r : ℕ) × (scan_loop n b i cnt value ≡ some r) × Scanned b i cnt value r
unfolding scan_loop
scan_loop-Scanned zero b i cnt value v h =
    (bitmap_error, refl, inr (refl, λ j p q. absurd (omega arith)))
scan_loop-Scanned (suc n) b i cnt value v h =
    step (bitmap_contains-Found b i cnt (not value) v (omega arith))
      (scan_loop-Scanned n b (i + 1) cnt value v (omega arith))
  where
    step :
        (r : Bool) × (bitmap_contains b i cnt (not value) ≡ some r) × Found b i cnt (not value) r
        → (r : ℕ) × (scan_loop n b (i + 1) cnt value ≡ some r) × Scanned b (i + 1) cnt value r
        → (r : ℕ) × (scan_loop (suc n) b i cnt value ≡ some r) × Scanned b i cnt value r
    step (false, e, f) rest = (
      i,
      rw e refl,
      inl (record {
        after = omega arith;
        fits = omega arith;
        run = Run-of_not-Found b i cnt value f;
        first = λ j p q. absurd (omega arith);
      }),
    )
    step (true, e, f) (r, e', s) =
        (r, rw e e', Scanned-step b i cnt value r (not-Run b i cnt value f) s)

-- bitmap_scan returns the start of the first run, or BITMAP_ERROR if there is none.
pub bitmap_scan-Scanned :
    (b : Bitmap) (start cnt : ℕ) (value : Bool)
    → IsValid b
    → start ≤ b.bit_cnt
    → (r : ℕ) × (bitmap_scan b start cnt value ≡ some r) × Scanned b start cnt value r
unfolding bitmap_scan
bitmap_scan-Scanned b start cnt value v h = elim (Bool-cases (leb cnt b.bit_cnt)) [
  | inl fits ↦
      let (r, e, s) =
        scan_loop-Scanned (b.bit_cnt - cnt + 1 - start) b start cnt value v
          (omega (arith, leb→le cnt b.bit_cnt fits)) in
      (r, ground (arith), s)
  | inr big ↦ (bitmap_error, ground arith, inr (refl, λ j p q. absurd (ground arith)))
]

-- What bitmap_scan_and_flip has done: it flips the run that it finds and nothing else, or finds
-- none and changes nothing.
abbrev pub Flipped : Bitmap → ℕ → ℕ → Bool → ℕ → Bitmap → Type 0
Flipped b start cnt value r b' =
    (First b start cnt value r × Sets b r cnt (not value) b' × (r ≢ bitmap_error))
    ⊎ ((r ≡ bitmap_error) × NoRun b start cnt value × (b' ≡ b))

-- bitmap_scan_and_flip flips exactly the first run of cnt bits with the value at or after start;
-- where there is none it returns BITMAP_ERROR and leaves the bitmap as it is.
pub bitmap_scan_and_flip_lem :
    (b : Bitmap) (start cnt : ℕ) (value : Bool)
    → IsValid b
    → start ≤ b.bit_cnt
    → (r : ℕ × Bitmap) × (bitmap_scan_and_flip b start cnt value ≡ some r)
      × Flipped b start cnt value r.0 r.1
unfolding bitmap_scan_and_flip
bitmap_scan_and_flip_lem b start cnt value v h = step (bitmap_scan-Scanned b start cnt value v h)
  where
    step :
        (r : ℕ) × (bitmap_scan b start cnt value ≡ some r) × Scanned b start cnt value r
        → (r : ℕ × Bitmap) × (bitmap_scan_and_flip b start cnt value ≡ some r)
          × Flipped b start cnt value r.0 r.1
    step (r, e, inl f) =
        let (b', e', s) = bitmap_set_multiple-Sets b r cnt (not value) v f.fits in
        ((r, b'), ground (arith, v.small, f.fits), inl (f, s, omega (arith, v.small, f.fits)))
    step (r, e, inr (err, missing)) = ((r, b), ground arith, inr (err, missing, refl))
