-- ===== src/Sector.antt =====
-- The 512 bytes of a disk sector, and the little-endian 32-bit words in them. C code reads and writes
-- a sector as an array of bytes (file data), as `struct indirect_block` or as `struct inode_disk`
-- (filesys/inode.c of prj4).
use os_326_omega.Prelude.{ℕ, zero, suc, ◌+◌, ◌*◌, ◌/◌, ◌%◌, ◌^◌, ◌<◌, ◌≡◌, refl, arith, subst}

abbrev pub block_sector_size : ℕ
block_sector_size = 512

-- Byte number o, for o < 512.
abbrev pub Sector : Type 0
Sector = ℕ → ℕ

-- Word number i, for i < 128.
abbrev pub Words : Type 0
Words = ℕ → ℕ

unfoldable pub words_of : Sector → Words
words_of s i = s (4 * i) + 256 * s (4 * i + 1) + 65536 * s (4 * i + 2) + 16777216 * s (4 * i + 3)

-- byte k of a word
unfoldable pub byte_of : ℕ → ℕ → ℕ
byte_of w zero = w % 256
byte_of w (suc k) = byte_of (w / 256) k

unfoldable pub of_words : Words → Sector
unfolding byte_of
of_words p o = byte_of (p (o / 4)) (o % 4)

-- a static array of zeros
abbrev pub zeros : Sector
zeros o = 0

of_words-at : (p : Words) (i k : ℕ) → k < 4 → of_words p (4 * i + k) ≡ byte_of (p i) k
unfolding of_words
of_words-at p i k h =
    let q : (4 * i + k) / 4 ≡ i = omega arith in
    let r : (4 * i + k) % 4 ≡ k = omega arith in rw (q, r) refl

-- A word that is written to a sector is read back.
pub words_of-of_words : (p : Words) (i : ℕ) → p i < 2 ^ 32 → words_of (of_words p) i ≡ p i
unfolding words_of byte_of
words_of-of_words p i h = omega (
  arith,
  of_words-at p i 1 (omega arith),
  of_words-at p i 2 (omega arith),
  of_words-at p i 3 (omega arith),
  first,
)
  where
    first : of_words p (4 * i) ≡ p i % 256
    first =
        let e : 4 * i + 0 ≡ 4 * i = omega arith in
        subst (λ o. of_words p o ≡ p i % 256) e (of_words-at p i 0 (omega arith))
