-- ===== src/Device.antt =====
-- The free map of filesys/free-map.c and the sectors of the file system device, as the store that
-- filesys/inode.c works on. The sectors of the free map file itself are not part of this state.
use native.Mathlib.Nat.{le_trans}
use os_326_omega.Prelude.{
  ℕ, zero, suc, ◌+◌, ◌≤◌, ◌<◌, ◌≡◌, refl, sym, ◌∙◌, subst, ◌⊎◌, inl, inr, Bool, true, false, arith,
  ◌==◌, if◌then◌else◌, ltb, lt→ltb, List, Option, some, Bool-cases,
}
use os_326_omega.Prelude.Panic.{◌>>=◌}
use os_326_omega.Sector.{Sector}
use os_326_omega.Store.{Store}
use os_326_omega.Bitmap.{Bitmap}
use os_326_omega.Bitmap.View.{view, IsValid}
use os_326_omega.Bitmap.Multiple.{inside}
use os_326_omega.FreeMap.{FreeMap, Writer, free_map_allocate, free_map_release}
use os_326_omega.FreeMap.Laws.{Outcome, free_map_allocate_lem}

pub record Device : Type 0 where
  pub free_map : FreeMap
  pub sectors : ℕ → Sector

-- block_write
abbrev pub write : Device → ℕ → Sector → Device
write d p x = record d { sectors = λ q. if p == q then x else d.sectors q }

-- the free sectors below `n`
unfoldable pub free_cnt : Bitmap → ℕ → ℕ
free_cnt b zero = 0
free_cnt b (suc n) = (if view b n then 0 else 1) + free_cnt b n

free_cnt-take :
    (b b' : Bitmap) (p n : ℕ)
    → ((j : ℕ) → view b' j ≡ (if inside p 1 j then true else view b j))
    → free_cnt b n ≤ free_cnt b' n + (if ltb p n then 1 else 0)
unfolding free_cnt
free_cnt-take b b' p zero h = omega arith
free_cnt-take b b' p (suc n) h = ground (arith, h n, free_cnt-take b b' p n h)

free_cnt-some : (b : Bitmap) (n : ℕ) → 0 < free_cnt b n → (j : ℕ) × (j < n) × (view b j ≡ false)
unfolding free_cnt
free_cnt-some b zero h = absurd (omega arith)
free_cnt-some b (suc n) h = elim (Bool-cases (view b n)) [
  | inl used ↦ let (j, lt, free) = free_cnt-some b n (ground arith) in (j, omega arith, free)
  | inr free ↦ (n, omega arith, free)
]

module _ (w : Writer) where
  -- free_map_allocate (1, &p)
  unfoldable pub allocate : Device → ℕ → Option (ℕ × Device)
  allocate d p = do
    (success, p', m) ← free_map_allocate w d.free_map 1 p
    some (p', record d { free_map = m })

  unfoldable pub release : Device → ℕ → Option Device
  release d p = free_map_release d.free_map p 1 >>= λ m. some (record d { free_map = m })

  -- The free map fits the device of `size` sectors, at least `n` sectors are free, and if the free map
  -- file is open, writes to it are complete.
  pub record HasRoom (size : ℕ) (d : Device) (n : ℕ) : Type 0 where
    pub valid : IsValid d.free_map.map
    pub same_size : d.free_map.map.bit_cnt ≡ size
    pub room : n ≤ free_cnt d.free_map.map size
    pub complete :
        (d.free_map.opened ≡ false) ⊎ ((bits : List ℕ) (bytes : ℕ) → w bits bytes ≡ bytes)

  -- Where a sector is free, free_map_allocate (1, &p) gives a sector of the device.
  pub allocate-HasRoom :
      (size : ℕ) (d : Device) (p n : ℕ)
      → HasRoom size d (suc n)
      → (r : ℕ × Device) × (allocate d p ≡ some r) × (ltb r.0 size ≡ true) × HasRoom size r.1 n
  unfolding allocate
  allocate-HasRoom size d p n h =
      let ((success, p', m), e, o) = free_map_allocate_lem w d.free_map 1 p h.valid in
      outcome success p' m e o
    where
      Goal : Type 0
      Goal = (r : ℕ × Device) × (allocate d p ≡ some r) × (ltb r.0 size ≡ true) × HasRoom size r.1 n

      outcome :
          (success : Bool) (p' : ℕ) (m : FreeMap)
          → free_map_allocate w d.free_map 1 p ≡ some (success, p', m)
          → Outcome w d.free_map 1 p (success, p', m)
          → Goal
      outcome success p' m e (inl (good, taken, saved)) = (
        (p', record d { free_map = m }),
        rw e refl,
        lt→ltb _ _ (omega (arith, taken.first.fits, h.same_size)),
        record {
          valid = taken.sets.valid;
          same_size = taken.sets.size ∙ h.same_size;
          room = ground (arith, h.room, free_cnt-take d.free_map.map m.map p' size taken.sets.bits);
          complete =
              subst (λ o. (o ≡ false) ⊎ ((bits : List ℕ) (bytes : ℕ) → w bits bytes ≡ bytes))
                (sym taken.same_file) h.complete;
        },
      )
      outcome success p' m e (inr (bad, same, unchanged, inl missing)) =
          let (j, lt, free) = free_cnt-some d.free_map.map size (omega (arith, h.room)) in
          absurd (
            missing j (omega arith) (omega (arith, h.same_size)) (λ k lo hi.
              let at : j ≡ k = omega arith in subst (λ k. view d.free_map.map k ≡ false) at free))
      outcome success p' m e (inr (bad, same, unchanged, inr (q, b, f, s, opened, wrong))) =
          elim h.complete [
            | inl closed ↦ absurd (ground arith)
            | inr all ↦ absurd (wrong (all _ _))
          ]

  pub sectors-allocate :
      (d d' : Device) (p p' q : ℕ) → allocate d p ≡ some (p', d') → d'.sectors q ≡ d.sectors q
  unfolding allocate
  sectors-allocate d d' p p' q e = ground arith

  pub sectors-release :
      (d d' : Device) (p q : ℕ) → release d p ≡ some d' → d'.sectors q ≡ d.sectors q
  unfolding release
  sectors-release d d' p q e = ground arith

  -- a device of `size` sectors
  abbrev pub device_store : ℕ → Store
  device_store size = record {
    State = Device;
    IsOk = HasRoom size;
    fits = λ p. ltb p size;
    allocate = allocate;
    release = release;
    read = λ d p. d.sectors p;
    write = write;
    allocate-IsOk = allocate-HasRoom size;
    write-IsOk = λ d p x n h. record {
      valid = h.valid;
      same_size = h.same_size;
      room = h.room;
      complete = h.complete;
    };
    IsOk-le = λ d n m le h. record {
      valid = h.valid;
      same_size = h.same_size;
      room = le_trans le h.room;
      complete = h.complete;
    };
    read-write = λ d p q x. refl;
    read-allocate = sectors-allocate;
    read-release = sectors-release;
  }
