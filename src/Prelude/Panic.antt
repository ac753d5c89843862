-- ===== src/Prelude/Panic.antt =====
-- `none` is a kernel panic: a failed ASSERT or a call of PANIC (lib/debug.h, lib/kernel/debug.c).
use mathlib.Core.Path.{◌≡◌, refl, ap}
use mathlib.Core.Bool.{Bool, true, false}
use mathlib.Core.Option.{Option, none, some}
use native.Mathlib.Omega.{arith}

infixl 5 ◌>>=◌ ◌>>◌
abbrev pub ◌>>=◌ {ℓ κ} : {A : Type ℓ} {B : Type κ} → Option A → (A → Option B) → Option B
none >>= f = none
some a >>= f = f a

abbrev pub ◌>>◌ {ℓ} : {B : Type ℓ} → Option (Unit {0}) → Option B → Option B
m >> k = m >>= λ _. k

-- ASSERT (b)
abbrev pub assert : Bool → Option (Unit {0})
assert true = some tt
assert false = none

-- An ASSERT that holds changes nothing.
pub assert-true {ℓ} : {B : Type ℓ} (b : Bool) (k : Option B) → b ≡ true → (assert b >> k) ≡ k
assert-true b k h = ap (λ c. assert c >> k) h

-- what is known of a run that ends without a panic
pub >>=-eq-some {ℓ κ} :
    {A : Type ℓ} {B : Type κ} (m : Option A) (f : A → Option B) {b : B}
    → (m >>= f) ≡ some b
    → (a : A) × (m ≡ some a) × (f a ≡ some b)
>>=-eq-some none f h = absurd (ground arith)
>>=-eq-some (some a) f h = (a, refl, h)
