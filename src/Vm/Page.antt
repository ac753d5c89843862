-- ===== src/Vm/Page.antt =====
-- vm/page.c of prj3, with install_page of userprog/process.c: pages are loaded on demand.
use os_326_omega.Prelude.{
  ℕ, ◌+◌, ◌==◌, if◌then◌else◌, Bool, true, false, ◌&&◌, leb, ltb, Option, some, none,
}
use os_326_omega.Prelude.Panic.{◌>>=◌, ◌>>◌, assert}
use os_326_omega.Palloc.{Page, Flags}
use os_326_omega.Swap.{swap_in}
use os_326_omega.Vm.{
  MemType, file_page, mmap_page, swap_page, hash_fail, Files, Vm, set_spte, set_pte,
  pagedir_get_page, pagedir_set_page,
}
use os_326_omega.Vm.Frame.{frame_alloc, frame_free}

abbrev pub set_page : {S : Type 0} → Vm S → ℕ → Page → Vm S
set_page vm f bytes = record vm {
  memory = record (vm.memory) { page = λ q. if f == q then bytes else vm.memory.page q };
}

unfoldable pub install_page : {S : Type 0} → Bool → Vm S → ℕ → ℕ → Bool → Option (Bool × Vm S)
install_page room vm upage kpage writable = elim (pagedir_get_page vm vm.current upage) [
  | none ↦ pagedir_set_page room vm vm.current upage kpage writable
  | some f ↦ some (false, vm)
]

module _ (F : Files) where
  open F use {State, read_at}

  -- The last steps for a page in frame `f`; a page that cannot be installed gives its frame back.
  unfoldable pub finish_load :
      Bool → Vm State → ℕ → ℕ → (Vm State → Option (Vm State)) → Option (Bool × Vm State)
  unfolding install_page
  finish_load room vm p f fill = do
    let e = vm.spte p
    (installed, vm') ← install_page room vm e.vaddr f e.writable
    if installed
        then (fill vm' >>= λ filled.
            some (true, set_spte filled p (record (filled.spte p) { in_memory = true })))
        else (frame_free F vm' f >>= λ freed. some (false, freed))

  -- swap_in writes through the user address: a page that is not mapped, or not writable, is a fault,
  -- and the processor notes the access in the page table.
  unfoldable pub swap_in_user : Vm State → ℕ → ℕ → Option (Vm State)
  swap_in_user vm slot v = do
    let pte = vm.pagedir vm.current v
    assert (pte.table && pte.present && pte.writable)
    (bytes, swap) ← swap_in vm.swap slot (vm.memory.page pte.frame)
    some (
        set_page
          (set_pte (record vm { swap = swap }) vm.current v
            (record pte { accessed = true; dirty = true }))
          pte.frame bytes)

  -- file_read_at of a page and the zeros behind it
  unfoldable pub fill_from_file : Vm State → ℕ → ℕ → Bool × Vm State
  fill_from_file vm p f =
      let e = vm.spte p in
      let (count, bytes) = read_at vm.files e.file e.read_bytes e.offset (vm.memory.page f) in
      let padded : Page =
        λ o. if leb e.read_bytes o && ltb o (e.read_bytes + e.zero_bytes) then 0 else bytes o in
      if e.read_bytes == count then (true, set_page vm f padded) else (false, set_page vm f bytes)

  unfoldable pub load_file : ℕ → ℕ → Bool → Vm State → ℕ → Option (Bool × Vm State)
  unfolding finish_load fill_from_file
  load_file rounds place room vm p =
      let e = vm.spte p in
      let flags : Flags = record {
        pal_assert = false;
        pal_zero = e.read_bytes == 0;
        pal_user = true;
      } in
      let loaded = λ (vm' : Vm State). λ (f : ℕ). finish_load room vm' p f (λ v. some v) in
      let read = λ (vm' : Vm State). λ (f : ℕ).
        let filled = fill_from_file vm' p f in
        if filled.0
        then loaded filled.1 f
        else (frame_free F filled.1 f >>= λ freed. some (false, freed)) in
      frame_alloc F rounds place flags vm p >>= λ got. elim got.0 [
        | none ↦ some (false, got.1)
        | some f ↦ if e.read_bytes == 0 then loaded got.1 f else read got.1 f
      ]

  unfoldable pub load_swap : ℕ → ℕ → Bool → Vm State → ℕ → Option (Bool × Vm State)
  unfolding finish_load swap_in_user
  load_swap rounds place room vm p =
      let e = vm.spte p in
      let flags : Flags = record { pal_assert = false; pal_zero = false; pal_user = true } in
      frame_alloc F rounds place flags vm p >>= λ got. elim got.0 [
        | none ↦ some (false, got.1)
        | some f ↦ finish_load room got.1 p f (λ v. swap_in_user v e.swap_index e.vaddr)
      ]

  abbrev pub load_by_type :
      MemType
      → Option (Bool × Vm State)
      → Option (Bool × Vm State)
      → Vm State
      → Option (Bool × Vm State)
  load_by_type file_page from_file from_swap vm = from_file
  load_by_type mmap_page from_file from_swap vm = from_file
  load_by_type swap_page from_file from_swap vm = from_swap
  load_by_type hash_fail from_file from_swap vm = some (false, vm)

  -- `rounds`, `place` and `room` are those of frame_alloc, hash_insert and pagedir_set_page.
  unfoldable pub load_page : ℕ → ℕ → Bool → Vm State → ℕ → Option (Bool × Vm State)
  unfolding load_file load_swap
  load_page rounds place room vm p =
      let e = vm.spte p in
      let locked = set_spte vm p (record e { locked = true }) in
      if e.in_memory
      then some (false, locked)
      else load_by_type e.type (load_file rounds place room locked p)
          (load_swap rounds place room locked p) locked
