-- ===== src/Tests/Paging.antt =====
-- A page allocator and a swap partition of a few pages (prj3 threads/palloc.c, vm/swap.c).
use os_326_omega.Prelude.{
  ℕ, zero, suc, ◌^◌, ◌+◌, ◌<◌, ◌≡◌, refl, false, true, arith, Option, some, get_or, [], ◌∷◌,
}
use os_326_omega.Bits.{bit}
use os_326_omega.Bitmap.{Bitmap}
use os_326_omega.Bitmap.View.{view, IsValid}
use os_326_omega.Palloc.{Page, Flags, Memory, palloc_get_page}
use os_326_omega.Palloc.Laws.{IsMemory, GetOutcome, palloc_get_page-Obtained}
use os_326_omega.Swap.{Swap, swap_out, swap_in}
use os_326_omega.Swap.Laws.{swap_in-swap_out}

-- bit 0 of 8
abbrev one_used : Bitmap
one_used = record { bit_cnt = 8; bits = 1 ∷ [] }

words-small : (i : ℕ) → get_or (1 ∷ []) i 0 < 2 ^ 32
words-small zero = omega arith
words-small (suc i) = omega arith

one_used-IsValid : IsValid one_used
one_used-IsValid = record { small = omega arith; room = omega arith; words = words-small }

-- pages 10 to 17 for the kernel, 20 to 27 for user programs; page 20 is in use
abbrev memory : Memory
memory = record {
  kernel_pool = record { used_map = one_used; base = 10 };
  user_pool = record { used_map = one_used; base = 20 };
  page = λ q. λ o. q + o;
}

memory-IsMemory : IsMemory memory
memory-IsMemory = record { kernel = one_used-IsValid; user = one_used-IsValid; apart = omega arith }

abbrev flags : Flags
flags = record { pal_assert = false; pal_zero = true; pal_user = true }

palloc_get_page-Obtained_example :
    (r : Option ℕ × Memory) × (palloc_get_page memory flags ≡ some r) × GetOutcome flags memory r
palloc_get_page-Obtained_example = palloc_get_page-Obtained memory flags memory-IsMemory refl refl

abbrev swap : Swap
swap = record { swap_bitmap = one_used; swap_block = λ q. λ o. 0 }

free_slot : view one_used 3 ≡ false
unfolding bit
free_slot = refl

swap_in-swap_out_example :
    (slot : ℕ) × (s' : Swap) × (swap_out swap (λ o. o) ≡ some (slot, s'))
    × (r : Page × Swap) × (swap_in s' slot (λ o. 1) ≡ some r)
    × ((o : ℕ) → o < 4096 → r.0 o ≡ o)
    × ((i : ℕ) → view r.1.swap_bitmap i ≡ view one_used i)
swap_in-swap_out_example =
    swap_in-swap_out swap (λ o. o) (λ o. 1) 3 one_used-IsValid (omega arith) free_slot
