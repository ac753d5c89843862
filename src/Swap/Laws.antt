-- ===== src/Swap/Laws.antt =====
-- vm/swap.c of prj3: what is swapped out comes back.
use os_326_omega.Prelude.{
  ℕ, zero, suc, ◌+◌, ◌*◌, ◌/◌, ◌%◌, ◌-◌, ◌<◌, ◌≡◌, ◌≢◌, refl, ◌∙◌, inl, inr, true, false, not, ◌&&◌,
  ◌==◌, if◌then◌else◌, leb, ltb, arith, some, ap, Bool-cases, subst, ==_iff,
}
use os_326_omega.Sector.{Sector}
use os_326_omega.Bitmap.{Bitmap, bitmap_scan_and_flip, bitmap_flip}
use os_326_omega.Bitmap.View.{view, IsValid, view-flip, flip-IsValid, test-view}
use os_326_omega.Bitmap.Scan.{Flipped, bitmap_scan_and_flip_lem}
use os_326_omega.Palloc.{Page}
use os_326_omega.Swap.{Swap, write_sectors, swap_out, read_sectors, swap_in}

-- byte o of the page in a slot
abbrev pub slot_byte : Swap → ℕ → ℕ → ℕ
slot_byte s slot o = s.swap_block (slot * 8 + o / 512) (o % 512)

write_sectors-at :
    (n i : ℕ) (block : ℕ → Sector) (slot : ℕ) (frame : Page) (q o : ℕ)
    → write_sectors n i block slot frame q o ≡ (
        if leb (slot * 8 + i) q && ltb q (slot * 8 + i + n)
        then frame ((q - slot * 8) * 512 + o)
        else block q o)
unfolding write_sectors
write_sectors-at zero i block slot frame q o = ground arith
write_sectors-at (suc n) i block slot frame q o =
    let ih =
      write_sectors-at n (i + 1)
        (λ p. if p == slot * 8 + i then (λ a. frame (i * 512 + a)) else block p) slot frame q o in
    elim (Bool-cases (q == slot * 8 + i)) [
      | inl here ↦ let e : q - slot * 8 ≡ i = ground arith in ih ∙ rw e (ground arith)
      | inr other ↦ ih ∙ ground arith
    ]

read_sectors-at :
    (n i : ℕ) (block : ℕ → Sector) (slot : ℕ) (frame : Page) (o : ℕ)
    → read_sectors n i block slot frame o ≡ (
        if leb (i * 512) o && ltb o ((i + n) * 512)
        then block (slot * 8 + o / 512) (o % 512)
        else frame o)
unfolding read_sectors
read_sectors-at zero i block slot frame o = ground arith
read_sectors-at (suc n) i block slot frame o =
    let ih =
      read_sectors-at n (i + 1) block slot
        (λ a.
          if leb (i * 512) a && ltb a (i * 512 + 512)
          then block (slot * 8 + i) (a - i * 512)
          else frame a)
        o in
    elim (Bool-cases (leb (i * 512) o && ltb o (i * 512 + 512))) [
      | inl here ↦
          let e : o / 512 ≡ i = ground arith in
          let m : o % 512 ≡ o - i * 512 = ground arith in ih ∙ rw (e, m) (ground arith)
      | inr other ↦ ih ∙ ground arith
    ]

-- What swap_out leaves: a slot that was free, with the page in it; the other slots are as they were.
pub record Stored (s s' : Swap) (slot : ℕ) (frame : Page) : Type 0 where
  pub valid : IsValid s'.swap_bitmap
  pub size : s'.swap_bitmap.bit_cnt ≡ s.swap_bitmap.bit_cnt
  pub inside : slot < s.swap_bitmap.bit_cnt
  pub free : view s.swap_bitmap slot ≡ false
  pub bits : (i : ℕ) → view s'.swap_bitmap i ≡ (if slot == i then true else view s.swap_bitmap i)
  pub holds : (o : ℕ) → o < 4096 → slot_byte s' slot o ≡ frame o
  pub others : (i o : ℕ) → i ≢ slot → o < 4096 → slot_byte s' i o ≡ slot_byte s i o

write_page-at :
    (block : ℕ → Sector) (slot : ℕ) (frame : Page) (i o : ℕ)
    → o < 4096
    → write_sectors 8 0 block slot frame (i * 8 + o / 512) (o % 512)
      ≡ (if slot == i then frame o else block (i * 8 + o / 512) (o % 512))
write_page-at block slot frame i o h =
    write_sectors-at 8 0 block slot frame (i * 8 + o / 512) (o % 512)
    ∙ elim (Bool-cases (slot == i)) [
      | inl own ↦
          let e : (i * 8 + o / 512 - slot * 8) * 512 + o % 512 ≡ o = ground arith in
          rw e (ground arith)
      | inr other ↦ ground arith
    ]

-- swap_out of a page, where the partition has a free slot, does not panic: it writes the page to a
-- free slot, which is in use from then on, and changes no other slot.
pub swap_out-Stored :
    (s : Swap) (frame : Page) (k : ℕ)
    → IsValid s.swap_bitmap
    → k < s.swap_bitmap.bit_cnt
    → view s.swap_bitmap k ≡ false
    → (r : ℕ × Swap) × (swap_out s frame ≡ some r) × Stored s r.1 r.0 frame
unfolding swap_out
swap_out-Stored s frame k v h free =
    step (bitmap_scan_and_flip_lem s.swap_bitmap 0 1 false v (omega arith))
  where
    step :
        (r : ℕ × Bitmap) × (bitmap_scan_and_flip s.swap_bitmap 0 1 false ≡ some r)
          × Flipped s.swap_bitmap 0 1 false r.0 r.1
        → (r : ℕ × Swap) × (swap_out s frame ≡ some r) × Stored s r.1 r.0 frame
    step ((i, b), e, inl (f, sets, ne)) = (
      (i, record { swap_bitmap = b; swap_block = write_sectors 8 0 s.swap_block i frame }),
      rw e (ground arith),
      record {
        valid = sets.valid;
        size = sets.size;
        inside = omega (arith, f.fits);
        free = f.run i (omega arith) (omega arith);
        bits = λ j. ground (arith, sets.bits j);
        holds = λ o lt. write_page-at s.swap_block i frame i o lt ∙ ground arith;
        others = λ j o ne' lt. write_page-at s.swap_block i frame j o lt ∙ ground arith;
      },
    )
    step ((i, b), e, inr (err, missing, same)) = absurd (
        missing k (omega arith) (omega arith) (λ j lo hi.
          subst (λ n. view s.swap_bitmap n ≡ false) (let e : k ≡ j = omega arith in e) free))

-- swap_in of a slot in use does not panic: every byte of the page is that of the slot, the slot is
-- free from then on, and no other slot changes.
pub swap_in-Loaded :
    (s : Swap) (slot : ℕ) (frame : Page)
    → IsValid s.swap_bitmap
    → slot < s.swap_bitmap.bit_cnt
    → view s.swap_bitmap slot ≡ true
    → (r : Page × Swap) × (swap_in s slot frame ≡ some r)
      × ((o : ℕ) → o < 4096 → r.0 o ≡ slot_byte s slot o)
      × (r.1.swap_block ≡ s.swap_block)
      × IsValid r.1.swap_bitmap
      × (r.1.swap_bitmap.bit_cnt ≡ s.swap_bitmap.bit_cnt)
      × ((i : ℕ) → view r.1.swap_bitmap i ≡ (if slot == i then false else view s.swap_bitmap i))
unfolding swap_in bitmap_flip
swap_in-Loaded s slot frame v h used = (
  _,
  rw (test-view s.swap_bitmap slot v h, used) refl,
  (λ o lt. read_sectors-at 8 0 s.swap_block slot frame o ∙ ground arith),
  refl,
  flip-IsValid s.swap_bitmap slot v h,
  refl,
  (λ i. view-flip s.swap_bitmap slot v h i ∙ cleared i),
)
  where
    cleared :
        (i : ℕ)
        → (if slot == i then not (view s.swap_bitmap i) else view s.swap_bitmap i)
          ≡ (if slot == i then false else view s.swap_bitmap i)
    cleared i = elim (Bool-cases (slot == i)) [
      | inl own ↦
          let here : view s.swap_bitmap i ≡ true =
            subst (λ n. view s.swap_bitmap n ≡ true) ((==_iff slot i).0 own) used in
          rw own (ap not here)
      | inr other ↦ rw other refl
    ]

-- A page that is swapped out, where the partition has a free slot, comes back: swap_in of the
-- slot that swap_out returned gives every byte of the page, whatever the frame held before, and
-- the same slots are free as at first.
pub swap_in-swap_out :
    (s : Swap) (frame buffer : Page) (k : ℕ)
    → IsValid s.swap_bitmap
    → k < s.swap_bitmap.bit_cnt
    → view s.swap_bitmap k ≡ false
    → (slot : ℕ) × (s' : Swap) × (swap_out s frame ≡ some (slot, s'))
      × (r : Page × Swap) × (swap_in s' slot buffer ≡ some r)
      × ((o : ℕ) → o < 4096 → r.0 o ≡ frame o)
      × ((i : ℕ) → view r.1.swap_bitmap i ≡ view s.swap_bitmap i)
swap_in-swap_out s frame buffer k v h free =
    let ((slot, s'), out, stored) = swap_out-Stored s frame k v h free in
    let (r, back, bytes, block, valid, size, bits) =
      swap_in-Loaded s' slot buffer stored.valid (omega (arith, stored.inside, stored.size))
        (ground (arith, stored.bits slot)) in
    (
      slot,
      s',
      out,
      r,
      back,
      (λ o lt. bytes o lt ∙ stored.holds o lt),
      (λ i. ground (arith, bits i, stored.bits i, stored.free)),
    )
