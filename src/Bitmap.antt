-- ===== src/Bitmap.antt =====
-- lib/kernel/bitmap.c: an array of bits packed in 32-bit elements.
-- Each function is translated with its ASSERTs: `none` is a kernel panic. A function that writes
-- through `b` returns the new bitmap. `unsigned long` and `size_t` have 32 bits on this machine.
pub mod View
pub mod Multiple
pub mod Scan
use os_326_omega.Prelude.{
  ℕ, zero, suc, ◌+◌, ◌-◌, ◌*◌, ◌/◌, ◌%◌, ◌^◌, bit_and, bit_or, bit_xor, Bool, true, false, not, beq,
  ◌==◌, if◌then◌else◌, ltb, leb, List, [], Option, some, none, get_or, set,
}
use os_326_omega.Prelude.Panic.{◌>>=◌, ◌>>◌, assert}

abbrev pub elem_bits : ℕ
elem_bits = 32

-- `struct bitmap`
pub record Bitmap : Type 0 where
  pub bit_cnt : ℕ
  pub bits : List ℕ

-- `size_t` addition
abbrev pub add_size : ℕ → ℕ → ℕ
add_size a b = (a + b) % 2 ^ 32

unfoldable pub elem_idx : ℕ → ℕ
elem_idx bit_idx = bit_idx / elem_bits

-- the shift never leaves the word
unfoldable pub bit_mask : ℕ → ℕ
bit_mask bit_idx = 2 ^ (bit_idx % elem_bits)

-- DIV_ROUND_UP (bit_cnt, ELEM_BITS)
unfoldable pub elem_cnt : ℕ → ℕ
elem_cnt bit_cnt = add_size bit_cnt (elem_bits - 1) / elem_bits

unfoldable pub byte_cnt : ℕ → ℕ
byte_cnt bit_cnt = 4 * elem_cnt bit_cnt

unfoldable pub last_mask : Bitmap → ℕ
last_mask b =
    let last_bits = b.bit_cnt % elem_bits in
    if last_bits == 0 then 2 ^ 32 - 1 else 2 ^ last_bits - 1

abbrev pub bitmap_size : Bitmap → ℕ
bitmap_size b = b.bit_cnt

-- one element replaced by its image
abbrev pub update : Bitmap → ℕ → (ℕ → ℕ) → Bitmap
update b idx f = record b { bits = set b.bits idx (f (get_or b.bits idx 0)) }

-- `orl`
unfoldable pub bitmap_mark : Bitmap → ℕ → Bitmap
bitmap_mark b bit_idx = update b (elem_idx bit_idx) (λ w. bit_or w (bit_mask bit_idx))

-- `andl` with the complement of the mask
unfoldable pub bitmap_reset : Bitmap → ℕ → Bitmap
bitmap_reset b bit_idx =
    update b (elem_idx bit_idx) (λ w. bit_and w (2 ^ 32 - 1 - bit_mask bit_idx))

-- `xorl`
unfoldable pub bitmap_flip : Bitmap → ℕ → Bitmap
bitmap_flip b bit_idx = update b (elem_idx bit_idx) (λ w. bit_xor w (bit_mask bit_idx))

unfoldable pub bitmap_set : Bitmap → ℕ → Bool → Option Bitmap
bitmap_set b idx value = do
  assert (ltb idx b.bit_cnt)
  some (if value then bitmap_mark b idx else bitmap_reset b idx)

unfoldable pub bitmap_test : Bitmap → ℕ → Option Bool
bitmap_test b idx = do
  assert (ltb idx b.bit_cnt)
  some (not (bit_and (get_or b.bits (elem_idx idx) 0) (bit_mask idx) == 0))

-- The loops count the rounds left; `i` is the index `start + i` of the C loop.
set_loop : ℕ → Bitmap → ℕ → Bool → Option Bitmap
set_loop zero b i value = some b
set_loop (suc n) b i value = bitmap_set b i value >>= λ b'. set_loop n b' (i + 1) value

abbrev in_range : Bitmap → ℕ → ℕ → Option (Unit {0})
in_range b start cnt = do assert (leb start b.bit_cnt); assert (leb (add_size start cnt) b.bit_cnt)

unfoldable pub bitmap_set_multiple : Bitmap → ℕ → ℕ → Bool → Option Bitmap
unfolding set_loop
bitmap_set_multiple b start cnt value = do in_range b start cnt; set_loop cnt b start value

unfoldable pub bitmap_set_all : Bitmap → Bool → Option Bitmap
bitmap_set_all b value = bitmap_set_multiple b 0 (bitmap_size b) value

-- The result of a count, and of a search, from index `i` on.
count_loop : ℕ → Bitmap → ℕ → Bool → ℕ → Option ℕ
count_loop zero b i value value_cnt = some value_cnt
count_loop (suc n) b i value value_cnt = bitmap_test b i >>= λ t.
    count_loop n b (i + 1) value (if beq t value then value_cnt + 1 else value_cnt)

unfoldable pub bitmap_count : Bitmap → ℕ → ℕ → Bool → Option ℕ
unfolding count_loop
bitmap_count b start cnt value = do in_range b start cnt; count_loop cnt b start value 0

contains_loop : ℕ → Bitmap → ℕ → Bool → Option Bool
contains_loop zero b i value = some false
contains_loop (suc n) b i value = bitmap_test b i >>= λ t. elim (beq t value) [
  | true ↦ some true
  | false ↦ contains_loop n b (i + 1) value
]

unfoldable pub bitmap_contains : Bitmap → ℕ → ℕ → Bool → Option Bool
unfolding contains_loop
bitmap_contains b start cnt value = do in_range b start cnt; contains_loop cnt b start value

unfoldable pub bitmap_any : Bitmap → ℕ → ℕ → Option Bool
bitmap_any b start cnt = bitmap_contains b start cnt true

unfoldable pub bitmap_none : Bitmap → ℕ → ℕ → Option Bool
bitmap_none b start cnt = bitmap_contains b start cnt true >>= λ c. some (not c)

unfoldable pub bitmap_all : Bitmap → ℕ → ℕ → Option Bool
bitmap_all b start cnt = bitmap_contains b start cnt false >>= λ c. some (not c)

-- BITMAP_ERROR is SIZE_MAX
abbrev pub bitmap_error : ℕ
bitmap_error = 2 ^ 32 - 1

-- `n` rounds are left of `for (i = start; i <= last; i++)`.
scan_loop : ℕ → Bitmap → ℕ → ℕ → Bool → Option ℕ
scan_loop zero b i cnt value = some bitmap_error
scan_loop (suc n) b i cnt value = bitmap_contains b i cnt (not value) >>= λ c. elim c [
  | false ↦ some i
  | true ↦ scan_loop n b (i + 1) cnt value
]

unfoldable pub bitmap_scan : Bitmap → ℕ → ℕ → Bool → Option ℕ
unfolding scan_loop
bitmap_scan b start cnt value = do
  assert (leb start b.bit_cnt)
  if leb cnt b.bit_cnt
      then scan_loop (b.bit_cnt - cnt + 1 - start) b start cnt value
      else some bitmap_error

unfoldable pub bitmap_scan_and_flip : Bitmap → ℕ → ℕ → Bool → Option (ℕ × Bitmap)
bitmap_scan_and_flip b start cnt value = bitmap_scan b start cnt value >>= λ idx.
    if idx == bitmap_error
    then some (idx, b)
    else (bitmap_set_multiple b idx cnt (not value) >>= λ b'. some (idx, b'))

-- `block` and `elems` are what the two calls of malloc return, NULL as `false` and `none`.
unfoldable pub bitmap_create : Bool → Option (List ℕ) → ℕ → Option (Option Bitmap)
bitmap_create false elems bit_cnt = some none
bitmap_create true none bit_cnt =
    if bit_cnt == 0
    then (bitmap_set_all (record { bit_cnt = bit_cnt; bits = [] }) false >>= λ b. some (some b))
    else some none
bitmap_create true (some junk) bit_cnt =
    bitmap_set_all (record { bit_cnt = bit_cnt; bits = junk }) false >>= λ b. some (some b)

unfoldable pub bitmap_file_size : Bitmap → ℕ
bitmap_file_size b = byte_cnt b.bit_cnt

-- `file_read_at` says for a size what it leaves in the elements and what it returns.
unfoldable pub bitmap_read : Bitmap → (file_read_at : ℕ → List ℕ × ℕ) → Bool × Bitmap
bitmap_read b file_read_at =
    if b.bit_cnt == 0
    then (true, b)
    else (let size = byte_cnt b.bit_cnt in
        let (bits, got) = file_read_at size in
        (
          got == size,
          update (record b { bits = bits }) (elem_cnt b.bit_cnt - 1) (λ w. bit_and w (last_mask b)),
        ))

-- `file_write_at` says for the elements and a size how many bytes it wrote.
unfoldable pub bitmap_write : Bitmap → (file_write_at : List ℕ → ℕ → ℕ) → Bool
bitmap_write b file_write_at = let size = byte_cnt b.bit_cnt in file_write_at b.bits size == size
