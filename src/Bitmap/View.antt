-- ===== src/Bitmap/View.antt =====
-- A bitmap of lib/kernel/bitmap.c as an array of truth values.
use native.Mathlib.Nat.{one-le-pow}
use os_326_omega.Prelude.{
  ℕ, ◌+◌, ◌-◌, ◌*◌, ◌/◌, ◌%◌, ◌^◌, ◌≤◌, ◌<◌, bit_and, bit_or, bit_xor, ◌≡◌, Bool, true, false, not,
  xor, arith, ◌==◌, if◌then◌else◌, some, length, get_or, get_or-set, length-set,
}
use os_326_omega.Bits.{
  bit, bit-or, bit-and, bit-xor, bit-pow, bit-complement, bit_or-lt, bit_and-lt, bit_xor-lt,
  and-pow, pow-lt-pow,
}
use os_326_omega.Bitmap.{
  Bitmap, elem_idx, bit_mask, bitmap_mark, bitmap_reset, bitmap_flip, bitmap_test, update,
}

-- what bit number i holds
abbrev pub view : Bitmap → ℕ → Bool
view b i = bit (get_or b.bits (i / 32) 0) (i % 32)

-- The elements hold the bits, each is a 32-bit word, and the count does not wrap when it is
-- rounded up.
pub record IsValid (b : Bitmap) : Type 0 where
  pub small : b.bit_cnt + 31 < 2 ^ 32
  pub room : b.bit_cnt ≤ length b.bits * 32
  pub words : (i : ℕ) → get_or b.bits i 0 < 2 ^ 32

mask-lt : (i : ℕ) → bit_mask i < 2 ^ 32
unfolding bit_mask
mask-lt i = pow-lt-pow (i % 32) 32 (omega arith)

module _ (b : Bitmap) (i : ℕ) (v : IsValid b) (h : i < b.bit_cnt) where
  pub view-mark : (j : ℕ) → view (bitmap_mark b i) j ≡ (if i == j then true else view b j)
  unfolding bitmap_mark elem_idx bit_mask
  view-mark j =
      let w : ℕ = get_or b.bits (i / 32) 0 in
      ground (
        arith,
        v.room,
        get_or-set b.bits (i / 32) (j / 32) (bit_or w (2 ^ (i % 32))) 0,
        bit-or w (2 ^ (i % 32)) (j % 32),
        bit-pow (i % 32) (j % 32),
      )

  pub view-flip : (j : ℕ) → view (bitmap_flip b i) j ≡ (if i == j then not (view b j) else view b j)
  unfolding bitmap_flip elem_idx bit_mask xor
  view-flip j =
      let w : ℕ = get_or b.bits (i / 32) 0 in
      ground (
        arith,
        v.room,
        get_or-set b.bits (i / 32) (j / 32) (bit_xor w (2 ^ (i % 32))) 0,
        bit-xor w (2 ^ (i % 32)) (j % 32),
        bit-pow (i % 32) (j % 32),
      )

  pub view-reset : (j : ℕ) → view (bitmap_reset b i) j ≡ (if i == j then false else view b j)
  unfolding bitmap_reset elem_idx bit_mask
  view-reset j =
      let w : ℕ = get_or b.bits (i / 32) 0 in
      ground (
        arith,
        v.room,
        get_or-set b.bits (i / 32) (j / 32) (bit_and w (2 ^ 32 - 1 - 2 ^ (i % 32))) 0,
        bit-and w (2 ^ 32 - 1 - 2 ^ (i % 32)) (j % 32),
        bit-pow (i % 32) (j % 32),
        bit-complement 32 (2 ^ (i % 32)) (j % 32),
        mask-lt i,
      )

  update-IsValid :
      (f : ℕ → ℕ) → ((w : ℕ) → w < 2 ^ 32 → f w < 2 ^ 32) → IsValid (update b (i / 32) f)
  update-IsValid f keeps = record {
    small = v.small;
    room = omega (arith, v.room, length-set b.bits (i / 32) (f (get_or b.bits (i / 32) 0)));
    words = λ k. ground (
      arith,
      v.words k,
      v.room,
      keeps (get_or b.bits (i / 32) 0) (v.words (i / 32)),
      get_or-set b.bits (i / 32) k (f (get_or b.bits (i / 32) 0)) 0,
    );
  }

  pub mark-IsValid : IsValid (bitmap_mark b i)
  unfolding bitmap_mark elem_idx
  mark-IsValid = update-IsValid _ (λ w p. bit_or-lt 32 w (bit_mask i) p (mask-lt i))

  pub reset-IsValid : IsValid (bitmap_reset b i)
  unfolding bitmap_reset elem_idx
  reset-IsValid = update-IsValid _ (λ w p. bit_and-lt 32 w (2 ^ 32 - 1 - bit_mask i) p)

  pub flip-IsValid : IsValid (bitmap_flip b i)
  unfolding bitmap_flip elem_idx
  flip-IsValid = update-IsValid _ (λ w p. bit_xor-lt 32 w (bit_mask i) p (mask-lt i))

  pub test-view : bitmap_test b i ≡ some (view b i)
  unfolding bitmap_test elem_idx bit_mask
  test-view =
      let w : ℕ = get_or b.bits (i / 32) 0 in
      ground (arith, and-pow w (i % 32), one-le-pow (i % 32) 2)
