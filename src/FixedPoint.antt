-- ===== src/FixedPoint.antt =====
-- threads/fixed-point.h of prj1: 17.14 fixed-point numbers, on which the MLFQS scheduler computes
-- priorities. An `int` is an integer here: the functions are modelled for arguments at which no
-- intermediate or final value leaves its C type, since C leaves that overflow undefined.
use os_326_omega.Prelude.{ℕ, suc, ◌+◌, ◌*◌, ◌/◌, ◌≤◌, ◌≡◌, sym, arith, if◌then◌else◌}
use native.Mathlib.Nat.{mul_assoc}
use os_326_omega.Prelude.Int.{ℤ, pos, negsuc, sub_ℕ, ◌+ℤ◌, ◌-ℤ◌, ◌*ℤ◌, ◌≤ℤ◌, ltb_ℤ}

-- F, 1 << 14
abbrev pub fp_one : ℕ
fp_one = 16384

-- C's division, which rounds toward zero
unfoldable pub quot : ℤ → ℤ → ℤ
quot (pos a) (pos b) = pos (a / b)
quot (pos a) (negsuc b) = sub_ℕ 0 (a / suc b)
quot (negsuc a) (pos b) = sub_ℕ 0 (suc a / b)
quot (negsuc a) (negsuc b) = pos (suc a / suc b)

unfoldable pub int_to_fp : ℤ → ℤ
int_to_fp n = n *ℤ pos fp_one

unfoldable pub fp_to_int_rtz : ℤ → ℤ
fp_to_int_rtz x = quot x (pos fp_one)

unfoldable pub fp_to_int_rtn : ℤ → ℤ
fp_to_int_rtn x =
    if ltb_ℤ x (pos 0)
    then quot (x -ℤ pos (fp_one / 2)) (pos fp_one)
    else quot (x +ℤ pos (fp_one / 2)) (pos fp_one)

unfoldable pub fp_add_fp : ℤ → ℤ → ℤ
fp_add_fp x y = x +ℤ y

unfoldable pub fp_minus_fp : ℤ → ℤ → ℤ
fp_minus_fp x y = x -ℤ y

unfoldable pub fp_add_int : ℤ → ℤ → ℤ
fp_add_int x n = x +ℤ n *ℤ pos fp_one

unfoldable pub fp_minus_int : ℤ → ℤ → ℤ
fp_minus_int x n = x -ℤ n *ℤ pos fp_one

unfoldable pub fp_time_fp : ℤ → ℤ → ℤ
fp_time_fp x y = quot (x *ℤ y) (pos fp_one)

unfoldable pub fp_time_int : ℤ → ℤ → ℤ
fp_time_int x n = x *ℤ n

unfoldable pub fp_divideby_fp : ℤ → ℤ → ℤ
fp_divideby_fp x y = quot (x *ℤ pos fp_one) y

unfoldable pub fp_divideby_int : ℤ → ℤ → ℤ
fp_divideby_int x n = quot x n

rtn-pos : (a : ℕ) → fp_to_int_rtn (pos a) ≡ pos ((a + 8192) / 16384)
unfolding fp_to_int_rtn quot ◌+ℤ◌
rtn-pos a = ground arith

near : (a : ℕ) → ((a + 8192) / 16384 * 16384 ≤ a + 8192) × (a ≤ (a + 8192) / 16384 * 16384 + 8192)
near a = (omega arith, omega arith)

-- Rounding to nearest takes the fixed-point number of an integer back to the integer.
pub fp_to_int_rtn-int_to_fp : (n : ℤ) → fp_to_int_rtn (int_to_fp n) ≡ n
unfolding fp_to_int_rtn int_to_fp quot ◌+ℤ◌ ◌*ℤ◌ ◌-ℤ◌
fp_to_int_rtn-int_to_fp (pos a) = ground arith
fp_to_int_rtn-int_to_fp (negsuc a) = ground arith

time_aux : (a b : ℕ) → a * (b * 16384) / 16384 ≡ a * b
time_aux a b =
    let e : a * (b * 16384) ≡ a * b * 16384 = sym (mul_assoc a b 16384) in rw e (omega arith)

rtn-neg : (a : ℕ) → fp_to_int_rtn (negsuc a) ≡ sub_ℕ 0 ((suc a + 8192) / 16384)
unfolding fp_to_int_rtn quot ◌-ℤ◌
rtn-neg a = ground arith

scaled_pos : (k : ℕ) → int_to_fp (pos k) ≡ pos (k * 16384)
unfolding int_to_fp ◌*ℤ◌
scaled_pos k = ground arith

scaled_neg : (k : ℕ) → int_to_fp (sub_ℕ 0 k) ≡ sub_ℕ 0 (k * 16384)
unfolding int_to_fp ◌*ℤ◌
scaled_neg k = ground arith

-- Rounding to nearest, where adding or taking off F / 2 does not overflow an int, is within half of one
-- of the value: the integer's fixed-point number does not overflow an int, and it is at most 8192
-- (F / 2) above and at most 8192 below the number that is rounded.
pub fp_to_int_rtn-near :
    (x : ℤ)
    → negsuc 2147475455 ≤ℤ x
    → x ≤ℤ pos 2147475455
    → (negsuc 2147483647 ≤ℤ int_to_fp (fp_to_int_rtn x))
      × (int_to_fp (fp_to_int_rtn x) ≤ℤ pos 2147483647)
      × (int_to_fp (fp_to_int_rtn x) ≤ℤ x +ℤ pos 8192)
      × (x ≤ℤ int_to_fp (fp_to_int_rtn x) +ℤ pos 8192)
unfolding ◌+ℤ◌
fp_to_int_rtn-near (pos a) low high =
    rw (rtn-pos a, scaled_pos ((a + 8192) / 16384)) (ground (arith, near a))
fp_to_int_rtn-near (negsuc a) low high =
    rw (rtn-neg a, scaled_neg ((suc a + 8192) / 16384)) (ground (arith, near (suc a)))

-- Multiplying by the fixed-point number of an integer is multiplying by the integer.
pub fp_time_fp-int_to_fp : (x n : ℤ) → fp_time_fp x (int_to_fp n) ≡ fp_time_int x n
unfolding int_to_fp fp_time_int fp_time_fp quot ◌*ℤ◌
fp_time_fp-int_to_fp (pos a) (pos b) = ground (arith, time_aux a b)
fp_time_fp-int_to_fp (pos a) (negsuc b) = ground (arith, time_aux a (suc b))
fp_time_fp-int_to_fp (negsuc a) (pos b) = ground (arith, time_aux (suc a) b)
fp_time_fp-int_to_fp (negsuc a) (negsuc b) = ground (arith, time_aux (suc a) (suc b))

-- An integer that is converted to fixed point, with another added and taken off again, comes back by
-- rounding toward zero.
pub fp_to_int_rtz-int_to_fp :
    (n m : ℤ) → fp_to_int_rtz (fp_minus_int (fp_add_int (int_to_fp n) m) m) ≡ n
unfolding fp_to_int_rtz int_to_fp fp_add_int fp_minus_int quot ◌+ℤ◌ ◌-ℤ◌ ◌*ℤ◌
fp_to_int_rtz-int_to_fp (pos a) (pos b) = ground arith
fp_to_int_rtz-int_to_fp (pos a) (negsuc b) = ground arith
fp_to_int_rtz-int_to_fp (negsuc a) (pos b) = ground arith
fp_to_int_rtz-int_to_fp (negsuc a) (negsuc b) = ground arith
