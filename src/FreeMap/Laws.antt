-- ===== src/FreeMap/Laws.antt =====
-- What free_map_allocate and free_map_release of filesys/free-map.c do to the free map.
use os_326_omega.Prelude.{
  ℕ, ◌+◌, ◌≤◌, ◌<◌, ◌≡◌, ◌≢◌, refl, ◌∙◌, ◌⊎◌, inl, inr, Bool, true, false, not, ◌&&◌, arith, some,
  none, Bool-cases,
}
use os_326_omega.Bitmap.{
  Bitmap, byte_cnt, bitmap_scan_and_flip, bitmap_write, bitmap_all, bitmap_contains,
}
use os_326_omega.Bitmap.View.{view, IsValid}
use os_326_omega.Bitmap.Multiple.{
  Run, Found, bitmap_contains-Found, Sets, bitmap_set_multiple-Sets, bitmap_all-Run,
}
use os_326_omega.Bitmap.Scan.{First, NoRun, Flipped, bitmap_scan_and_flip_lem}
use os_326_omega.FreeMap.{FreeMap, Writer, free_map_allocate, free_map_release}

-- the outcome of a successful allocation: the first run of free sectors, now in use
pub record Taken (m : FreeMap) (cnt sector : ℕ) (m' : FreeMap) : Type 0 where
  pub first : First m.map 0 cnt false sector
  pub sets : Sets m.map sector cnt true m'.map
  pub same_file : m'.opened ≡ m.opened

-- the same free sectors
pub record Unchanged (m m' : FreeMap) : Type 0 where
  pub valid : IsValid m'.map
  pub size : m'.map.bit_cnt ≡ m.map.bit_cnt
  pub bits : (j : ℕ) → view m'.map j ≡ view m.map j
  pub same_file : m'.opened ≡ m.opened

-- The bits of the free map file are written in full where the file is open: `w` writes as many bytes
-- as bitmap_write asks for.
abbrev pub Saves : Writer → FreeMap → Bitmap → Type 0
Saves w m b = (m.opened ≡ false) ⊎ (w b.bits (byte_cnt b.bit_cnt) ≡ byte_cnt b.bit_cnt)

abbrev pub Outcome : Writer → FreeMap → ℕ → ℕ → Bool × ℕ × FreeMap → Type 0
Outcome w m cnt sectorp r =
    ((r.0 ≡ true) × Taken m cnt r.1 r.2 × Saves w m r.2.map)
    ⊎ ((r.0 ≡ false)
        × (r.1 ≡ sectorp)
        × Unchanged m r.2
        × (NoRun m.map 0 cnt false
            ⊎ ((sector : ℕ) × (b : Bitmap) × First m.map 0 cnt false sector
                × Sets m.map sector cnt true b
                × (m.opened ≡ true)
                × (w b.bits (byte_cnt b.bit_cnt) ≢ byte_cnt b.bit_cnt))))

module _ (w : Writer) (m : FreeMap) (cnt sectorp : ℕ) (v : IsValid m.map) where
  short :
      (b : Bitmap)
      → (m.opened && not (bitmap_write b w)) ≡ true
      → w b.bits (byte_cnt b.bit_cnt) ≢ byte_cnt b.bit_cnt
  unfolding bitmap_write
  short b h e = ground arith

  saved : (b : Bitmap) → (m.opened && not (bitmap_write b w)) ≡ false → Saves w m b
  unfolding bitmap_write
  saved b h = elim (Bool-cases m.opened) [
    | inl opened ↦ inr (ground arith)
    | inr closed ↦ inl closed
  ]

  undo :
      (sector : ℕ) (b b' : Bitmap)
      → First m.map 0 cnt false sector
      → Sets m.map sector cnt true b
      → Sets b sector cnt false b'
      → Unchanged m (record m { map = b' })
  undo sector b b' f s s' = record {
    valid = s'.valid;
    size = s'.size ∙ s.size;
    bits = λ j. ground (arith, s.bits j, s'.bits j, f.run j);
    same_file = refl;
  }

  -- free_map_allocate does not panic. Either it takes the first run of cnt free sectors, which are then
  -- in use and nothing else has changed, and the new map is written in full if the free map file is
  -- open; or it fails, leaves *SECTORP alone and the same sectors free, and then there is no such run, or
  -- the file is open and the map with that run taken is not written in full.
  pub free_map_allocate_lem :
      (r : Bool × ℕ × FreeMap) × (free_map_allocate w m cnt sectorp ≡ some r)
      × Outcome w m cnt sectorp r
  unfolding free_map_allocate
  free_map_allocate_lem = step (bitmap_scan_and_flip_lem m.map 0 cnt false v (omega arith))
    where
      Goal : Type 0
      Goal =
          (r : Bool × ℕ × FreeMap) × (free_map_allocate w m cnt sectorp ≡ some r)
          × Outcome w m cnt sectorp r

      step :
          (r : ℕ × Bitmap) × (bitmap_scan_and_flip m.map 0 cnt false ≡ some r)
            × Flipped m.map 0 cnt false r.0 r.1
          → Goal
      step ((sector, b), e, inl (f, s, ne)) =
          elim (Bool-cases (m.opened && not (bitmap_write b w))) [
            | inl bad ↦
                let (b', e', s') =
                  bitmap_set_multiple-Sets b sector cnt false s.valid
                    (omega (arith, s.size, f.fits)) in
                (
                  (false, sectorp, record m { map = b' }),
                  ground arith,
                  inr (
                    refl,
                    refl,
                    undo sector b b' f s s',
                    inr (sector, b, f, s, ground arith, short b bad),
                  ),
                )
            | inr good ↦ (
              (true, sector, record m { map = b }),
              ground arith,
              inl (refl, record { first = f; sets = s; same_file = refl }, saved b good),
            )
          ]
      step ((sector, b), e, inr (err, missing, same)) = (
        (false, sectorp, m),
        ground arith,
        inr (
          refl,
          refl,
          record { valid = v; size = refl; bits = λ j. refl; same_file = refl },
          inl missing,
        ),
      )

-- free_map_release of sectors that are all in use makes exactly them free.
pub free_map_release_lem :
    (m : FreeMap) (sector cnt : ℕ)
    → IsValid m.map
    → sector + cnt ≤ m.map.bit_cnt
    → Run m.map sector cnt true
    → (m' : FreeMap) × (free_map_release m sector cnt ≡ some m')
      × Sets m.map sector cnt false m'.map
unfolding free_map_release
free_map_release_lem m sector cnt v h run =
    let (b, e, s) = bitmap_set_multiple-Sets m.map sector cnt false v h in
    (record m { map = b }, ground (arith, bitmap_all-Run m.map sector cnt v h run), s)

-- free_map_release of a range with a free sector is a panic.
pub free_map_release-free :
    (m : FreeMap) (sector cnt k : ℕ)
    → IsValid m.map
    → sector + cnt ≤ m.map.bit_cnt
    → sector ≤ k
    → k < sector + cnt
    → view m.map k ≡ false
    → free_map_release m sector cnt ≡ none
unfolding free_map_release bitmap_all Found
free_map_release-free m sector cnt k v h lo hi free =
    step (bitmap_contains-Found m.map sector cnt false v h)
  where
    step :
        (r : Bool) × (bitmap_contains m.map sector cnt false ≡ some r)
          × Found m.map sector cnt false r
        → free_map_release m sector cnt ≡ none
    step (true, e, f) = rw e refl
    step (false, e, f) = ground (arith, f k lo hi)
