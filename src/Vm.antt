-- ===== src/Vm.antt =====
-- vm/page.h, vm/frame.h and userprog/pagedir.c of prj3: the state of the virtual memory system. A
-- supplemental page table entry and a thread are named by numbers that stand for their addresses,
-- pages and user addresses by page numbers.
pub mod Frame
pub mod Page
pub mod Invariant
pub mod Save
pub mod Reuse
pub mod Evict
pub mod Fade
pub mod Alloc
pub mod Obtain
pub mod Fill
pub mod Load
pub mod Demand
use os_326_omega.Prelude.{
  ℕ, ◌+◌, ◌≤◌, ◌<◌, ◌≡◌, ◌⊎◌, ◌==◌, if◌then◌else◌, Bool, true, false, not, ◌&&◌, List, Option, some,
  none,
}
use os_326_omega.Prelude.Panic.{◌>>◌, assert}
use os_326_omega.Palloc.{Memory}
use os_326_omega.Swap.{Swap}

-- enum MEM_TYPE
pub data MemType : Type 0 where
  file_page : MemType
  mmap_page : MemType
  swap_page : MemType
  hash_fail : MemType

abbrev pub is_mmap : MemType → Bool
is_mmap file_page = false
is_mmap mmap_page = true
is_mmap swap_page = false
is_mmap hash_fail = false

abbrev pub is_swap : MemType → Bool
is_swap file_page = false
is_swap mmap_page = false
is_swap swap_page = true
is_swap hash_fail = false

-- struct spt_entry
pub record Spte : Type 0 where
  pub type : MemType
  pub in_memory : Bool
  pub writable : Bool
  pub vaddr : ℕ
  pub locked : Bool
  pub file : ℕ
  pub offset : ℕ
  pub read_bytes : ℕ
  pub zero_bytes : ℕ
  pub swap_index : ℕ

-- struct frame_entry
pub record FrameEntry : Type 0 where
  pub frame : ℕ
  pub spte : ℕ
  pub thread : ℕ

-- A page table entry; `table` says that the page table of the entry exists.
pub record Pte : Type 0 where
  pub table : Bool
  pub present : Bool
  pub frame : ℕ
  pub writable : Bool
  pub accessed : Bool
  pub dirty : Bool

-- What the lemmas on the virtual memory assume of file_read_at and file_write_at of filesys/file.c within
-- a file that nobody denies writes to: the bytes that are read, and that a write stores its bytes and
-- changes no others.
pub record Files : Type 1 where
  pub State : Type 0
  pub byte : State → ℕ → ℕ → ℕ
  pub length : State → ℕ → ℕ
  pub read_at : State → ℕ → ℕ → ℕ → (ℕ → ℕ) → ℕ × (ℕ → ℕ)
  pub write_at : State → ℕ → (ℕ → ℕ) → ℕ → ℕ → State
  pub read_count :
      (s : State) (f n ofs : ℕ) (b : ℕ → ℕ) → ofs + n ≤ length s f → (read_at s f n ofs b).0 ≡ n
  pub read_bytes :
      (s : State) (f n ofs : ℕ) (b : ℕ → ℕ) (o : ℕ)
      → ofs + n ≤ length s f
      → o < n
      → (read_at s f n ofs b).1 o ≡ byte s f (ofs + o)
  pub write_bytes :
      (s : State) (f : ℕ) (b : ℕ → ℕ) (n ofs o : ℕ)
      → ofs + n ≤ length s f
      → o < n
      → byte (write_at s f b n ofs) f (ofs + o) ≡ b o
  pub write_other :
      (s : State) (f : ℕ) (b : ℕ → ℕ) (n ofs g pos : ℕ)
      → ((f ≡ g) → (pos < ofs) ⊎ (ofs + n ≤ pos))
      → byte (write_at s f b n ofs) g pos ≡ byte s g pos
  pub write_length :
      (s : State) (f : ℕ) (b : ℕ → ℕ) (n ofs g : ℕ) → length (write_at s f b n ofs) g ≡ length s g

-- The frame table is in the order in which the hash table is traversed.
pub record Vm (S : Type 0) : Type 0 where
  pub memory : Memory
  pub swap : Swap
  pub files : S
  pub frame_table : List FrameEntry
  pub spte : ℕ → Spte
  pub pagedir : ℕ → ℕ → Pte
  pub current : ℕ

module _ {S : Type 0} where
  abbrev pub set_spte : Vm S → ℕ → Spte → Vm S
  set_spte vm p e = record vm { spte = λ q. if p == q then e else vm.spte q }

  abbrev pub set_pte : Vm S → ℕ → ℕ → Pte → Vm S
  set_pte vm t v e = record vm {
    pagedir = λ t' v'. if t == t' && v == v' then e else vm.pagedir t' v';
  }

  unfoldable pub pagedir_get_page : Vm S → ℕ → ℕ → Option ℕ
  pagedir_get_page vm t v =
      let pte = vm.pagedir t v in if pte.table && pte.present then some pte.frame else none

  -- `room` says that a missing page table can be allocated.
  unfoldable pub pagedir_set_page : Bool → Vm S → ℕ → ℕ → ℕ → Bool → Option (Bool × Vm S)
  pagedir_set_page room vm t upage kpage writable =
      let pte = vm.pagedir t upage in
      let new : Pte = record {
        table = true;
        present = true;
        frame = kpage;
        writable = writable;
        accessed = false;
        dirty = false;
      } in
      let set = assert (not (pte.table && pte.present)) >> some (true, set_pte vm t upage new) in
      if pte.table then set else if room then set else some (false, vm)

  -- The other bits are kept.
  unfoldable pub pagedir_clear_page : Vm S → ℕ → ℕ → Vm S
  pagedir_clear_page vm t upage =
      let pte = vm.pagedir t upage in
      if pte.table && pte.present then set_pte vm t upage (record pte { present = false }) else vm

  unfoldable pub pagedir_is_dirty : Vm S → ℕ → ℕ → Bool
  pagedir_is_dirty vm t v = (vm.pagedir t v).table && (vm.pagedir t v).dirty

  unfoldable pub pagedir_is_accessed : Vm S → ℕ → ℕ → Bool
  pagedir_is_accessed vm t v = (vm.pagedir t v).table && (vm.pagedir t v).accessed

  unfoldable pub pagedir_set_accessed : Vm S → ℕ → ℕ → Bool → Vm S
  pagedir_set_accessed vm t v accessed =
      let pte = vm.pagedir t v in
      if pte.table then set_pte vm t v (record pte { accessed = accessed }) else vm
