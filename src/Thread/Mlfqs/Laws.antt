-- ===== src/Thread/Mlfqs/Laws.antt =====
-- threads/thread.c of prj1: bounds on the load average and on the decay of recent_cpu.
use os_326_omega.Prelude.{ℕ, ◌+◌, ◌*◌, ◌/◌, ◌^◌, ◌≤◌, ◌<◌, ◌≡◌, arith}
use native.Mathlib.Nat.{div-lt_iff_lt-mul}
use os_326_omega.Prelude.Int.{pos, ◌+ℤ◌, ◌*ℤ◌}
use os_326_omega.FixedPoint.{
  int_to_fp, fp_add_fp, fp_add_int, fp_time_fp, fp_time_int, fp_divideby_fp, fp_divideby_int, quot,
}
use os_326_omega.Thread.Mlfqs.{coefficient, decay_load_avg}

decay_run : (a n : ℕ) → decay_load_avg (pos a) n ≡ pos (16110 * a / 16384 + 273 * n)
unfolding decay_load_avg int_to_fp fp_add_fp fp_time_fp fp_time_int fp_divideby_int quot ◌+ℤ◌ ◌*ℤ◌
decay_run a n = ground arith

-- Where the load average lies between 0 and `bound` and at most `bound` threads are ready or running,
-- the load average of the next second lies there too.
pub decay_load_avg-le :
    (bound a ready : ℕ)
    → a ≤ 16384 * bound
    → ready ≤ bound
    → (b : ℕ) × (decay_load_avg (pos a) ready ≡ pos b) × (b ≤ 16384 * bound)
decay_load_avg-le bound a ready h k = (_, decay_run a ready, omega arith)

doubled : (a : ℕ) → fp_time_int (pos a) (pos 2) ≡ pos (2 * a)
unfolding fp_time_int ◌*ℤ◌
doubled a = ground arith

one_more : (x : ℕ) → fp_add_int (pos x) (pos 1) ≡ pos (x + 16384)
unfolding fp_add_int ◌+ℤ◌ ◌*ℤ◌
one_more x = ground arith

quotient_run : (x y : ℕ) → fp_divideby_fp (pos x) (pos y) ≡ pos (x * 16384 / y)
unfolding fp_divideby_fp quot ◌*ℤ◌
quotient_run x y = ground arith

coefficient_run : (a : ℕ) → coefficient (pos a) ≡ pos (2 * a * 16384 / (2 * a + 16384))
unfolding coefficient
coefficient_run a = rw (doubled a, one_more (2 * a)) (quotient_run (2 * a) (2 * a + 16384))

-- The factor by which recent_cpu decays is at least 0 and below 1 for a load average that is not
-- negative and so small that neither twice the load average nor that plus one overflows an int.
pub coefficient-lt :
    (a : ℕ) → 2 * a + 16384 < 2 ^ 31 → (c : ℕ) × (coefficient (pos a) ≡ pos c) × (c < 16384)
coefficient-lt a h = (_, coefficient_run a, (div-lt_iff_lt-mul (omega arith)).1 (omega arith))
