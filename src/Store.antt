-- ===== src/Store.antt =====
-- What filesys/inode.c needs of the free map and the file system device: the calls
-- free_map_allocate (1, &p), free_map_release (p, 1), block_read and block_write.
use os_326_omega.Prelude.{ℕ, suc, ◌≤◌, ◌≡◌, Bool, true, ◌==◌, if◌then◌else◌, Option, some}
use os_326_omega.Sector.{Sector}

pub record Store : Type 1 where
  pub State : Type 0
  -- the free map is well formed, and as many sectors as the number says can be allocated
  pub IsOk : State → ℕ → Type 0
  -- whether check_sector of devices/block.c lets a sector pass
  pub fits : ℕ → Bool
  -- free_map_allocate (1, &p): what p holds afterwards (before it, the argument), and the new state.
  -- The callers do not look at the result.
  pub allocate : State → ℕ → Option (ℕ × State)
  pub release : State → ℕ → Option State
  pub read : State → ℕ → Sector
  pub write : State → ℕ → Sector → State
  pub allocate-IsOk :
      (s : State) (p n : ℕ)
      → IsOk s (suc n)
      → (r : ℕ × State) × (allocate s p ≡ some r) × (fits r.0 ≡ true) × IsOk r.1 n
  pub write-IsOk : (s : State) (p : ℕ) (x : Sector) (n : ℕ) → IsOk s n → IsOk (write s p x) n
  pub IsOk-le : (s : State) (n m : ℕ) → m ≤ n → IsOk s n → IsOk s m
  pub read-write :
      (s : State) (p q : ℕ) (x : Sector) → read (write s p x) q ≡ (if p == q then x else read s q)
  pub read-allocate :
      (s s' : State) (p p' q : ℕ) → allocate s p ≡ some (p', s') → read s' q ≡ read s q
  pub read-release : (s s' : State) (p q : ℕ) → release s p ≡ some s' → read s' q ≡ read s q
