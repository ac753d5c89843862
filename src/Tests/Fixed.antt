-- ===== src/Tests/Fixed.antt =====
-- The theorems on fixed-point numbers at -1.5 and at integers.
use os_326_omega.Prelude.{◌≡◌, refl, arith}
use os_326_omega.Prelude.Int.{pos, negsuc, ◌≤ℤ◌, ◌+ℤ◌, ◌-ℤ◌, ◌*ℤ◌}
use os_326_omega.FixedPoint.{
  int_to_fp, fp_to_int_rtz, fp_to_int_rtn, fp_divideby_fp, quot, fp_to_int_rtn-near,
}

-- Halves are rounded away from zero: -1.5 is rounded to -2 and toward zero to -1.
round_run : fp_to_int_rtn (negsuc 24575) ≡ negsuc 1
unfolding fp_to_int_rtn quot ◌-ℤ◌
round_run = refl

truncate_run : fp_to_int_rtz (negsuc 24575) ≡ negsuc 0
unfolding fp_to_int_rtz quot
truncate_run = refl

-- 1 / 2 as a fixed-point number
half_run : fp_divideby_fp (pos 16384) (pos 32768) ≡ pos 8192
unfolding fp_divideby_fp quot ◌*ℤ◌
half_run = refl

fp_to_int_rtn-near_example :
    (negsuc 2147483647 ≤ℤ int_to_fp (fp_to_int_rtn (negsuc 24575)))
    × (int_to_fp (fp_to_int_rtn (negsuc 24575)) ≤ℤ pos 2147483647)
    × (int_to_fp (fp_to_int_rtn (negsuc 24575)) ≤ℤ negsuc 24575 +ℤ pos 8192)
    × (negsuc 24575 ≤ℤ int_to_fp (fp_to_int_rtn (negsuc 24575)) +ℤ pos 8192)
fp_to_int_rtn-near_example = fp_to_int_rtn-near (negsuc 24575) (omega arith) (omega arith)
