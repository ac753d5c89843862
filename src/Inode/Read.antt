-- ===== src/Inode/Read.antt =====
-- inode_read_at of filesys/inode.c (prj4), over the buffer cache of filesys/cache.c. byte_to_sector reads
-- the pointer blocks from the device in each round, past the cache; malloc does not fail (`fresh` is the
-- block that it returns). The buffer is the list of the bytes copied.
use os_326_omega.Prelude.{
  ℕ, zero, suc, ◌+◌, ◌-◌, ◌*◌, ◌/◌, ◌%◌, ◌≤◌, ◌<◌, min, ◌≡◌, refl, sym, ◌∙◌, ◌⊎◌, inl, inr, false,
  ◌||◌, arith, ◌==◌, if◌then◌else◌, ap, ltb, leb, List, Option, some, none, get_elem?, Bool-cases,
  [], ◌∷◌, ◌++◌,
}
use os_326_omega.Prelude.Panic.{◌>>=◌}
use os_326_omega.Sector.{Sector, words_of}
use os_326_omega.Cache.{Block, Cache, cache_get}
use os_326_omega.Cache.View.{content}
use os_326_omega.Cache.Get.{IsCache, cache_get-Got}
use os_326_omega.Inode.{Inode, byte_to_sector}

-- memcpy of n bytes from offset o of a sector
unfoldable pub slice : Sector → ℕ → ℕ → List ℕ
slice x o zero = []
slice x o (suc n) = x o ∷ slice x (o + 1) n

-- bytes to copy out of the sector: the least of the size, what is left of the file and of the sector
unfoldable pub chunk_size : ℕ → ℕ → ℕ → ℕ
chunk_size len size offset =
    let inode_left = len - offset in
    let sector_left = 512 - offset % 512 in
    let min_left = if ltb inode_left sector_left then inode_left else sector_left in
    if ltb size min_left then size else min_left

slice-add : (x : Sector) (o a b : ℕ) → slice x o (a + b) ≡ slice x o a ++ slice x (o + a) b
unfolding slice
slice-add x o zero b =
    let e : 0 + b ≡ b = omega arith in let f : o + 0 ≡ o = omega arith in rw (e, f) refl
slice-add x o (suc a) b =
    let e : suc a + b ≡ suc (a + b) = omega arith in
    let f : o + suc a ≡ o + 1 + a = omega arith in
    rw (e, f) (ap (λ l. x o ∷ l) (slice-add x (o + 1) a b))

slice-eq :
    (x y : Sector) (o p n : ℕ)
    → ((k : ℕ) → k < n → x (o + k) ≡ y (p + k))
    → slice x o n ≡ slice y p n
unfolding slice
slice-eq x y o p zero h = refl
slice-eq x y o p (suc n) h =
    let first : x o ≡ y p = ground (arith, h 0) in
    let rest = slice-eq x y (o + 1) (p + 1) n (λ k lt. ground (arith, h (k + 1))) in
    rw (first, rest) refl

chunk_size-le : (len size offset : ℕ) → chunk_size len size offset ≤ min size (len - offset)
unfolding chunk_size
chunk_size-le len size offset = ground arith

chunk_size-zero :
    (len size offset : ℕ) → chunk_size len size offset ≡ 0 → min size (len - offset) ≡ 0
unfolding chunk_size
chunk_size-zero len size offset h = ground arith

-- The pointer blocks that byte_to_sector reads for a file hold the same on the disk `d` as in `v`.
pub record Settled (i : Inode) (d v : ℕ → Sector) : Type 0 where
  pub indirect :
      (k : ℕ) → k < 9 → 2048 + k * 65536 < i.read_length → d (i.ptr (k + 4)) ≡ v (i.ptr (k + 4))
  pub double : 591872 < i.read_length → d (i.ptr 13) ≡ v (i.ptr 13)
  pub inner :
      (k : ℕ)
      → 591872 + k * 65536 < i.read_length
      → d (words_of (v (i.ptr 13)) k) ≡ v (words_of (v (i.ptr 13)) k)

Settled-byte_to_sector :
    (i : Inode) (d v : ℕ → Sector) (pos : ℕ)
    → Settled i d v
    → byte_to_sector d i i.read_length pos ≡ byte_to_sector v i i.read_length pos
unfolding byte_to_sector
Settled-byte_to_sector i d v pos s = elim (Bool-cases (ltb pos i.read_length)) [
  | inr beyond ↦ rw beyond refl
  | inl inside ↦ elim (Bool-cases (ltb pos 2048)) [
    | inl direct ↦ rw (inside, direct) refl
    | inr past ↦ elim (Bool-cases (ltb pos 591872)) [
      | inl single ↦
          let same = s.indirect ((pos - 2048) / 65536) (ground arith) (ground arith) in
          rw (inside, past, single) (ap (λ x. words_of x ((pos - 2048) % 65536 / 512)) same)
      | inr far ↦
          let outer = s.double (ground arith) in
          let same = s.inner ((pos - 591872) / 65536) (ground arith) in
          rw (inside, past, far)
            (ap
                (λ x.
                  words_of (d (words_of x ((pos - 591872) / 65536))) ((pos - 591872) % 65536 / 512))
                outer
              ∙ ap (λ x. words_of x ((pos - 591872) % 65536 / 512)) same)
    ]
  ]
]

-- byte_to_sector is constant on each sector of a file.
by_sector :
    (v : ℕ → Sector) (i : Inode) (len a b : ℕ)
    → a < len
    → b < len
    → a / 512 ≡ b / 512
    → byte_to_sector v i len a ≡ byte_to_sector v i len b
unfolding byte_to_sector
by_sector v i len a b ha hb e = ground arith

module _ (fresh : Block) (inode : Inode) where
  -- the `while` loop, on fuel
  read_loop : ℕ → Cache → ℕ → ℕ → Option (List ℕ × Cache)
  read_loop zero c size offset = none
  read_loop (suc fuel) c size offset =
      let n = chunk_size inode.read_length size offset in
      if size == 0 || n == 0 then some ([], c) else (do
        let sector = byte_to_sector c.disk inode inode.read_length offset
        (i, c') ← cache_get (some fresh) c sector false
        b ← get_elem? c'.blocks i
        (rest, c'') ← read_loop fuel c' (size - n) (offset + n)
        some (slice b.contents (offset % 512) n ++ rest, c''))

  -- The bytes that are read and the cache afterwards.
  unfoldable pub inode_read_at : Cache → ℕ → ℕ → Option (List ℕ × Cache)
  unfolding read_loop
  inode_read_at c size offset =
      if leb inode.read_length offset then some ([], c) else read_loop (size + 1) c size offset

  -- what a reader of the sectors `v` sees at a position of the file
  abbrev pub file_byte : (ℕ → Sector) → ℕ → ℕ
  file_byte v pos = v (byte_to_sector v inode inode.read_length pos) (pos % 512)

  -- what a read of `n` bytes leaves
  pub record Reads (v : ℕ → Sector) (offset n : ℕ) (r : List ℕ × Cache) : Type 0 where
    pub bytes : r.0 ≡ slice (file_byte v) offset n
    pub valid : IsCache r.1
    pub same : (q : ℕ) → content r.1.blocks r.1.disk q ≡ v q
    pub settled : Settled inode r.1.disk v

  module _ (v : ℕ → Sector) where
    -- What cache_get writes to the disk is what a reader saw.
    still-Settled :
        (d d' : ℕ → Sector)
        → Settled inode d v
        → ((q : ℕ) → (d' q ≡ d q) ⊎ (d' q ≡ v q))
        → Settled inode d' v
    still-Settled d d' s w =
        let keep : (q : ℕ) → d q ≡ v q → d' q ≡ v q =
          λ q e. elim (w q) [ inl same ↦ same ∙ e | inr seen ↦ seen ] in
        record {
          indirect = λ k h l. keep _ (s.indirect k h l);
          double = λ l. keep _ (s.double l);
          inner = λ k l. keep _ (s.inner k l);
        }

    chunk-file_byte :
        (size offset : ℕ)
        → offset < inode.read_length
        → slice
            (v (byte_to_sector v inode inode.read_length offset))
            (offset % 512)
            (chunk_size inode.read_length size offset)
          ≡ slice (file_byte v) offset (chunk_size inode.read_length size offset)
    unfolding chunk_size
    chunk-file_byte size offset h =
        let len = inode.read_length in
        slice-eq (v (byte_to_sector v inode len offset)) (file_byte v) (offset % 512) offset _
          λ k lt.
            let fits : (offset % 512 + k < 512) × (offset + k < len) = ground arith in
            let s = by_sector v inode len (offset + k) offset fits.1 h (omega (arith, fits.0)) in
            let m : (offset + k) % 512 ≡ offset % 512 + k = omega (arith, fits.0) in rw (s, m) refl

    read_loop-Reads :
        (fuel : ℕ) (c : Cache) (size offset : ℕ)
        → size < fuel
        → offset ≤ inode.read_length
        → IsCache c
        → ((q : ℕ) → content c.blocks c.disk q ≡ v q)
        → Settled inode c.disk v
        → (r : List ℕ × Cache) × (read_loop fuel c size offset ≡ some r)
          × Reads v offset (min size (inode.read_length - offset)) r
    unfolding read_loop slice
    read_loop-Reads zero c size offset f h k same st = elim f [ ]
    read_loop-Reads (suc fuel) c size offset f h k same st =
        let len = inode.read_length in
        let n : ℕ = chunk_size len size offset in
        let le : n ≤ min size (len - offset) = chunk_size-le len size offset in
        elim (Bool-cases (size == 0 || n == 0)) [
          | inl stop ↦
              let z : min size (len - offset) ≡ 0 =
                ground (arith, chunk_size-zero len size offset) in
              (
                ([], c),
                ground arith,
                record { bytes = rw z refl; valid = k; same = same; settled = st },
              )
          | inr more ↦
              let pos : 0 < n = ground arith in
              let sector = byte_to_sector c.disk inode len offset in
              let ((i, c'), e, got) = cache_get-Got fresh c sector false k in
              let st' = still-Settled c.disk c'.disk st (λ q. elim (got.written q) [
                | inl kept ↦ inl kept
                | inr seen ↦ inr (seen ∙ same q)
              ]) in
              let ((rest, c''), e', r) =
                read_loop-Reads fuel c' (size - n) (offset + n) (omega arith) (omega arith)
                  got.valid (λ q. got.same q ∙ same q) st' in
              let x : got.block.contents ≡ v (byte_to_sector v inode len offset) =
                got.holds ∙ same sector ∙ ap v (Settled-byte_to_sector inode c.disk v offset st) in
              let split : min size (len - offset) ≡ n + min (size - n) (len - (offset + n)) =
                omega arith in
              (
                (slice got.block.contents (offset % 512) n ++ rest, c''),
                ground (arith, got.at),
                record {
                  bytes =
                      ap (λ y. slice y (offset % 512) n ++ rest) x
                      ∙ ap (λ l. l ++ rest) (chunk-file_byte size offset (omega arith))
                      ∙ ap (λ l. slice (file_byte v) offset n ++ l) r.bytes
                      ∙ sym (slice-add (file_byte v) offset n _)
                      ∙ ap (slice (file_byte v) offset) (sym split);
                  valid = r.valid;
                  same = r.same;
                  settled = r.settled;
                },
              )
        ]

    -- inode_read_at over a coherent cache, where the pointer blocks of the file hold on the disk what
    -- a reader of the cache sees in them, ends and copies the bytes of the file from the offset on, as
    -- many as are asked for and lie below read_length: none from the end on. What a reader sees of the
    -- sectors stays the same, also where the reads evict dirty blocks.
    pub inode_read_at-Reads :
        (c : Cache) (size offset : ℕ)
        → IsCache c
        → ((q : ℕ) → content c.blocks c.disk q ≡ v q)
        → Settled inode c.disk v
        → (r : List ℕ × Cache) × (inode_read_at c size offset ≡ some r)
          × Reads v offset (min size (inode.read_length - offset)) r
    unfolding inode_read_at slice
    inode_read_at-Reads c size offset k same st = elim (Bool-cases (leb inode.read_length offset)) [
      | inl beyond ↦
          let z : min size (inode.read_length - offset) ≡ 0 = ground arith in
          (
            ([], c),
            ground arith,
            record { bytes = rw z refl; valid = k; same = same; settled = st },
          )
      | inr inside ↦
          let (r, e, reads) =
            read_loop-Reads (size + 1) c size offset (omega arith) (ground arith) k same st in
          (r, ground arith, reads)
    ]
