-- ===== src/Vm/Invariant.antt =====
-- The virtual memory system of prj3: what its pages hold, and what is true between its operations.
use os_326_omega.Prelude.{
  ℕ, ◌&&◌, ◌+◌, ◌≤◌, ◌<◌, ◌≡◌, ◌≢◌, ◌⊎◌, if◌then◌else◌, ltb, true, false, List, [], ◌∷◌,
}
use os_326_omega.Bitmap.View.{view, IsValid}
use os_326_omega.Palloc.Laws.{IsMemory, InUse}
use os_326_omega.Swap.Laws.{slot_byte}
use os_326_omega.Vm.{is_mmap, is_swap, FrameEntry, Pte, Files, Vm, pagedir_is_dirty}
use os_326_omega.Vm.Frame.{hash_find}

-- The hash table has no frame twice.
abbrev pub Distinct : List FrameEntry → Type 0
Distinct [] = Unit
Distinct (fe ∷ fes) = (hash_find fe.frame fes ≡ false) × Distinct fes

-- `owner p` is the thread in whose supplemental page table the entry p is.
module _ (F : Files) (owner : ℕ → ℕ) where
  open F use {State, byte, length}

  abbrev pub pte_of : Vm State → ℕ → Pte
  pte_of vm p = vm.pagedir (owner p) (vm.spte p).vaddr

  -- the frame of a page in memory
  abbrev pub frame_of : Vm State → ℕ → ℕ
  frame_of vm p = (pte_of vm p).frame

  -- byte o of the page as its file or its swap slot has it
  abbrev pub stored_byte : Vm State → ℕ → ℕ → ℕ
  stored_byte vm p o =
      let e = vm.spte p in
      if is_swap e.type
      then slot_byte vm.swap e.swap_index o
      else if ltb o e.read_bytes
      then byte vm.files e.file (e.offset + o)
      else 0

  -- byte o of the page, wherever it is
  abbrev pub page_byte : Vm State → ℕ → ℕ → ℕ
  page_byte vm p o =
      if (vm.spte p).in_memory then vm.memory.page (frame_of vm p) o else stored_byte vm p o

  -- The bytes of a page that count: all 4096, of a mapped file those of the file.
  abbrev pub extent : Vm State → ℕ → ℕ
  extent vm p = if is_mmap (vm.spte p).type then (vm.spte p).read_bytes else 4096

  -- An entry of the frame table whose page is not being loaded: the page is in that frame.
  pub record IsEntry (vm : Vm State) (fe : FrameEntry) : Type 0 where
    pub thread : fe.thread ≡ owner fe.spte
    pub in_memory : (vm.spte fe.spte).in_memory ≡ true
    pub frame : frame_of vm fe.spte ≡ fe.frame

  abbrev pub AllEntries : Vm State → List FrameEntry → Type 0
  AllEntries vm [] = Unit
  AllEntries vm (fe ∷ fes) = ((vm.spte fe.spte).locked ≡ false → IsEntry vm fe) × AllEntries vm fes

  pub record IsVm (vm : Vm State) : Type 0 where
    pub memory : IsMemory vm.memory
    pub swap : IsValid vm.swap.swap_bitmap
    -- a page in memory is mapped, to a frame that is handed out, and no other page is mapped
    pub table : (p : ℕ) → (vm.spte p).in_memory ≡ true → (pte_of vm p).table ≡ true
    pub present : (p : ℕ) → (vm.spte p).in_memory ≡ true → (pte_of vm p).present ≡ true
    pub absent :
        (p : ℕ)
        → (vm.spte p).in_memory ≡ false
        → (pte_of vm p).table && (pte_of vm p).present ≡ false
    pub in_use : (p : ℕ) → (vm.spte p).in_memory ≡ true → InUse vm.memory (frame_of vm p)
    -- two pages have two frames, and two addresses if they belong to one thread
    pub frames :
        (p q : ℕ)
        → p ≢ q
        → (vm.spte p).in_memory ≡ true
        → (vm.spte q).in_memory ≡ true
        → frame_of vm p ≢ frame_of vm q
    pub addresses : (p q : ℕ) → p ≢ q → owner p ≡ owner q → (vm.spte p).vaddr ≢ (vm.spte q).vaddr
    -- a page that is not dirty is as its file has it
    pub clean :
        (p o : ℕ)
        → (vm.spte p).in_memory ≡ true
        → is_swap (vm.spte p).type ≡ false
        → pagedir_is_dirty vm (owner p) (vm.spte p).vaddr ≡ false
        → o < 4096
        → vm.memory.page (frame_of vm p) o ≡ stored_byte vm p o
    -- a page that is swapped out has a slot of its own
    pub slot_inside :
        (p : ℕ)
        → (vm.spte p).in_memory ≡ false
        → is_swap (vm.spte p).type ≡ true
        → (vm.spte p).swap_index < vm.swap.swap_bitmap.bit_cnt
    pub slot_used :
        (p : ℕ)
        → (vm.spte p).in_memory ≡ false
        → is_swap (vm.spte p).type ≡ true
        → view vm.swap.swap_bitmap (vm.spte p).swap_index ≡ true
    pub slots :
        (p q : ℕ)
        → p ≢ q
        → (vm.spte p).in_memory ≡ false
        → is_swap (vm.spte p).type ≡ true
        → (vm.spte q).in_memory ≡ false
        → is_swap (vm.spte q).type ≡ true
        → (vm.spte p).swap_index ≢ (vm.spte q).swap_index
    -- pages of files lie in their files, and nothing else has the bytes of a mapped file
    pub inside_file :
        (p : ℕ)
        → is_swap (vm.spte p).type ≡ false
        → ((vm.spte p).read_bytes ≤ 4096)
          × ((vm.spte p).offset + (vm.spte p).read_bytes ≤ length vm.files (vm.spte p).file)
    pub apart :
        (p q : ℕ)
        → p ≢ q
        → is_mmap (vm.spte p).type ≡ true
        → is_swap (vm.spte q).type ≡ false
        → (vm.spte p).file ≡ (vm.spte q).file
        → ((vm.spte q).offset + (vm.spte q).read_bytes ≤ (vm.spte p).offset)
          ⊎ ((vm.spte p).offset + (vm.spte p).read_bytes ≤ (vm.spte q).offset)
    pub keys : Distinct vm.frame_table
    pub entries : AllEntries vm vm.frame_table
