-- ===== src/Bits.antt =====
-- The bits of a machine word, and what the word operations of lib/kernel/bitmap.c do to them.
use Prim.Native.Nat.{digits, bit_and-bitwise, bit_or-bitwise, bit_xor-bitwise, differ}
use native.Mathlib.Nat.{pow-suc, one-le-pow}
use os_326_omega.Prelude.{
  ℕ, zero, suc, ◌+◌, ◌-◌, ◌*◌, ◌/◌, ◌%◌, ◌^◌, ◌≤◌, ◌<◌, min, max, bit_and, bit_or, bit_xor, ◌≡◌,
  refl, Bool, false, not, xor, ◌&&◌, ◌||◌, arith, ◌==◌, if◌then◌else◌, ap,
}

-- bit k of w
unfoldable pub bit : ℕ → ℕ → Bool
bit w zero = w % 2 == 1
bit w (suc k) = bit (w / 2) k

-- One digit at a time, for any operation `f` on digits.
module _ (z : ℕ → ℕ) (f : ℕ → ℕ → ℕ) (run_out : (b : ℕ) → z b ≡ z (b / 2) * 2 + f 0 (b % 2)) where
  -- `a` rounds are enough, whatever more are given: by recursion on a bound of them all.
  enough_rounds : (bound n : ℕ) (a b : ℕ) → n ≤ bound → a ≤ n → digits z f n a b ≡ digits z f a a b
  enough_rounds bound zero zero b small fits = refl
  enough_rounds bound (suc n) zero b small fits = refl
  enough_rounds bound zero (suc a) b small fits = elim fits [ ]
  enough_rounds zero (suc n) (suc a) b small fits = elim small [ ]
  enough_rounds (suc bound) (suc n) (suc a) b small fits = omega (
    arith,
    enough_rounds bound n (suc a / 2) (b / 2) (omega arith) (omega arith),
    enough_rounds bound a (suc a / 2) (b / 2) (omega arith) (omega arith),
  )

  lowest_digit :
      (a b : ℕ) → digits z f a a b ≡ digits z f (a / 2) (a / 2) (b / 2) * 2 + f (a % 2) (b % 2)
  lowest_digit zero b = run_out b
  lowest_digit (suc a) b =
      omega (arith, enough_rounds a a (suc a / 2) (b / 2) (omega arith) (omega arith))

halve_and : (a b : ℕ) → bit_and a b ≡ bit_and (a / 2) (b / 2) * 2 + min (a % 2) (b % 2)
halve_and a b = omega (
  arith,
  bit_and-bitwise a b,
  bit_and-bitwise (a / 2) (b / 2),
  lowest_digit (λ _. 0) min (λ b. omega arith) a b,
)

halve_or : (a b : ℕ) → bit_or a b ≡ bit_or (a / 2) (b / 2) * 2 + max (a % 2) (b % 2)
halve_or a b = omega (
  arith,
  bit_or-bitwise a b,
  bit_or-bitwise (a / 2) (b / 2),
  lowest_digit (λ b. b) max (λ b. omega arith) a b,
)

halve_xor : (a b : ℕ) → bit_xor a b ≡ bit_xor (a / 2) (b / 2) * 2 + differ (a % 2) (b % 2)
halve_xor a b = omega (
  arith,
  bit_xor-bitwise a b,
  bit_xor-bitwise (a / 2) (b / 2),
  lowest_digit (λ b. b) differ (λ b. omega arith) a b,
)

pub bit-or : (a b k : ℕ) → bit (bit_or a b) k ≡ (bit a k || bit b k)
unfolding bit
bit-or a b zero = ground (arith, halve_or a b)
bit-or a b (suc k) = rw (ap (λ w. bit w k) half) (bit-or (a / 2) (b / 2) k)
  where
    half : bit_or a b / 2 ≡ bit_or (a / 2) (b / 2)
    half = omega (arith, halve_or a b)

pub bit-and : (a b k : ℕ) → bit (bit_and a b) k ≡ (bit a k && bit b k)
unfolding bit
bit-and a b zero = ground (arith, halve_and a b)
bit-and a b (suc k) = rw (ap (λ w. bit w k) half) (bit-and (a / 2) (b / 2) k)
  where
    half : bit_and a b / 2 ≡ bit_and (a / 2) (b / 2)
    half = omega (arith, halve_and a b)

differ_digits : (a b : ℕ) → a < 2 → b < 2 → differ a b ≡ (a + b) % 2
differ_digits zero b p q = omega arith
differ_digits (suc zero) zero p q = refl
differ_digits (suc zero) (suc zero) p q = refl
differ_digits (suc zero) (suc (suc b)) p q = absurd (omega arith)
differ_digits (suc (suc a)) b p q = absurd (omega arith)

xor_step : (a b : ℕ) → bit_xor a b ≡ bit_xor (a / 2) (b / 2) * 2 + (a % 2 + b % 2) % 2
xor_step a b =
    omega (arith, halve_xor a b, differ_digits (a % 2) (b % 2) (omega arith) (omega arith))

pub bit-xor : (a b k : ℕ) → bit (bit_xor a b) k ≡ xor (bit a k) (bit b k)
unfolding bit xor
bit-xor a b zero = ground (arith, xor_step a b)
bit-xor a b (suc k) = rw (ap (λ w. bit w k) half) (bit-xor (a / 2) (b / 2) k)
  where
    half : bit_xor a b / 2 ≡ bit_xor (a / 2) (b / 2)
    half = omega (arith, xor_step a b)

pub bit-zero : (k : ℕ) → bit 0 k ≡ false
unfolding bit
bit-zero zero = refl
bit-zero (suc k) = bit-zero k

pub bit-pow : (j k : ℕ) → bit (2 ^ j) k ≡ (j == k)
unfolding bit
bit-pow zero zero = refl
bit-pow zero (suc k) = ground (arith, bit-zero k)
bit-pow (suc j) zero = ground (arith, pow-suc 2 j)
bit-pow (suc j) (suc k) = rw (ap (λ w. bit w k) half) (ground (arith, bit-pow j k))
  where
    half : 2 ^ suc j / 2 ≡ 2 ^ j
    half = omega (arith, pow-suc 2 j)

-- the complement in a word of n bits
pub bit-complement : (n x k : ℕ) → x < 2 ^ n → k < n → bit (2 ^ n - 1 - x) k ≡ not (bit x k)
unfolding bit
bit-complement zero x k p q = absurd (omega arith)
bit-complement (suc n) x zero p q = ground (arith, pow-suc 2 n)
bit-complement (suc n) x (suc k) p q =
    rw (ap (λ w. bit w k) half)
      (bit-complement n (x / 2) k (omega (arith, pow-suc 2 n)) (omega arith))
  where
    half : (2 ^ suc n - 1 - x) / 2 ≡ 2 ^ n - 1 - x / 2
    half = omega (arith, pow-suc 2 n)

bit_and-zero_fuel : (n w : ℕ) → w ≤ n → bit_and w 0 ≡ 0
bit_and-zero_fuel n zero h = refl
bit_and-zero_fuel zero (suc w) h = absurd (omega arith)
bit_and-zero_fuel (suc n) (suc w) h =
    omega (arith, halve_and (suc w) 0, bit_and-zero_fuel n (suc w / 2) (omega arith))

bit_and-zero : (w : ℕ) → bit_and w 0 ≡ 0
bit_and-zero w = bit_and-zero_fuel w w (omega arith)

-- masking one bit
pub and-pow : (w k : ℕ) → bit_and w (2 ^ k) ≡ (if bit w k then 2 ^ k else 0)
unfolding bit
and-pow w zero = ground (arith, halve_and w 1, bit_and-zero (w / 2))
and-pow w (suc k) = ground (arith, pow-suc 2 k, halve_and w (2 ^ suc k), step, and-pow (w / 2) k)
  where
    step : 2 ^ suc k / 2 ≡ 2 ^ k
    step = omega (arith, pow-suc 2 k)

-- Two words below 2 ^ n with the same bits are equal.
pub eq_of_bits : (n a b : ℕ) → a < 2 ^ n → b < 2 ^ n → ((k : ℕ) → k < n → bit a k ≡ bit b k) → a ≡ b
unfolding bit
eq_of_bits zero a b p q h = omega arith
eq_of_bits (suc n) a b p q h = ground (
  arith,
  pow-suc 2 n,
  h 0 (omega arith),
  eq_of_bits n (a / 2) (b / 2) (omega (arith, pow-suc 2 n)) (omega (arith, pow-suc 2 n))
      (λ k r. h (suc k) (omega arith)),
)

-- a word operation that keeps the digits below 2 ^ n keeps the word below it
pub bit_or-lt : (n a b : ℕ) → a < 2 ^ n → b < 2 ^ n → bit_or a b < 2 ^ n
bit_or-lt zero a b p q =
    let a0 : a ≡ 0 = omega arith in let b0 : b ≡ 0 = omega arith in rw (a0, b0) (omega arith)
bit_or-lt (suc n) a b p q = omega (
  arith,
  halve_or a b,
  pow-suc 2 n,
  bit_or-lt n (a / 2) (b / 2) (omega (arith, pow-suc 2 n)) (omega (arith, pow-suc 2 n)),
)

pub bit_xor-lt : (n a b : ℕ) → a < 2 ^ n → b < 2 ^ n → bit_xor a b < 2 ^ n
bit_xor-lt zero a b p q =
    let a0 : a ≡ 0 = omega arith in let b0 : b ≡ 0 = omega arith in rw (a0, b0) (omega arith)
bit_xor-lt (suc n) a b p q = omega (
  arith,
  xor_step a b,
  pow-suc 2 n,
  bit_xor-lt n (a / 2) (b / 2) (omega (arith, pow-suc 2 n)) (omega (arith, pow-suc 2 n)),
)

zero-bit_and : (b : ℕ) → bit_and 0 b ≡ 0
zero-bit_and b = bit_and-bitwise 0 b

pub bit_and-lt : (n a b : ℕ) → a < 2 ^ n → bit_and a b < 2 ^ n
bit_and-lt zero a b p = let a0 : a ≡ 0 = omega arith in rw (a0, zero-bit_and b) (omega arith)
bit_and-lt (suc n) a b p =
    omega
      (arith, halve_and a b, pow-suc 2 n, bit_and-lt n (a / 2) (b / 2) (omega (arith, pow-suc 2 n)))

pub pow-lt-pow : (k n : ℕ) → k < n → 2 ^ k < 2 ^ n
pow-lt-pow k zero h = absurd (omega arith)
pow-lt-pow zero (suc n) h = omega (arith, pow-suc 2 n, pow_pos n)
  where
    pow_pos : (n : ℕ) → 0 < 2 ^ n
    pow_pos n = one-le-pow n 2 (omega arith)
pow-lt-pow (suc k) (suc n) h = omega (arith, pow-suc 2 k, pow-suc 2 n, pow-lt-pow k n (omega arith))
