-- ===== src/Vm/Frame.antt =====
-- vm/frame.c of prj3: the frame table and the replacement of pages. The lock is left out.
use os_326_omega.Prelude.{
  ℕ, zero, suc, ◌==◌, if◌then◌else◌, Bool, false, not, ◌||◌, List, [], ◌∷◌, Option, some, none,
}
use os_326_omega.Prelude.Panic.{◌>>=◌}
use os_326_omega.Palloc.{Flags, palloc_get_page, palloc_free_page}
use os_326_omega.Swap.{swap_out}
use os_326_omega.Vm.{
  swap_page, is_mmap, is_swap, FrameEntry, Files, Vm, set_spte, pagedir_clear_page,
  pagedir_is_dirty, pagedir_is_accessed, pagedir_set_accessed,
}

-- hash_find by the frame
unfoldable pub hash_find : ℕ → List FrameEntry → Bool
hash_find frame [] = false
hash_find frame (fe ∷ fes) = fe.frame == frame || hash_find frame fes

unfoldable pub hash_delete : ℕ → List FrameEntry → List FrameEntry
hash_delete frame [] = []
hash_delete frame (fe ∷ fes) = if fe.frame == frame then fes else fe ∷ hash_delete frame fes

-- `place` is where the hash function puts the element in the order of the traversal.
unfoldable pub insert_at : ℕ → FrameEntry → List FrameEntry → List FrameEntry
insert_at zero e fes = e ∷ fes
insert_at (suc place) e [] = e ∷ []
insert_at (suc place) e (fe ∷ fes) = fe ∷ insert_at place e fes

-- hash_insert, which does nothing if the frame is in the table
unfoldable pub hash_insert : ℕ → FrameEntry → List FrameEntry → List FrameEntry
unfolding hash_find insert_at
hash_insert place e fes = if hash_find e.frame fes then fes else insert_at place e fes

module _ (F : Files) where
  open F use {State, write_at}

  unfoldable pub frame_add_to_ft : ℕ → Vm State → ℕ → ℕ → Vm State
  unfolding hash_insert
  frame_add_to_ft place vm frame p =
      let fe : FrameEntry = record { frame = frame; spte = p; thread = vm.current } in
      record vm { frame_table = hash_insert place fe vm.frame_table }

  unfoldable pub frame_free : Vm State → ℕ → Option (Vm State)
  unfolding hash_find hash_delete
  frame_free vm frame =
      if hash_find frame vm.frame_table
      then (palloc_free_page vm.memory (some frame) >>= λ m.
          some (record vm { memory = m; frame_table = hash_delete frame vm.frame_table }))
      else some vm

  -- A dirty page, or one from the swap partition, is written back: into its file, or to a swap slot.
  unfoldable pub save_page : Vm State → FrameEntry → Option (Vm State)
  save_page vm fte =
      let e = vm.spte fte.spte in
      let contents = vm.memory.page fte.frame in
      let to_file = record vm { files = write_at vm.files e.file contents e.read_bytes e.offset } in
      let to_swap = swap_out vm.swap contents >>= λ out. some (
        set_spte (record vm { swap = out.1 }) fte.spte
          (record e { type = swap_page; swap_index = out.0 })) in
      if pagedir_is_dirty vm fte.thread e.vaddr || is_swap e.type
      then (if is_mmap e.type then some to_file else to_swap)
      else some vm

  -- The page leaves memory.
  unfoldable pub forget : Vm State → FrameEntry → Vm State
  unfolding hash_delete
  forget vm fte =
      let e = vm.spte fte.spte in
      let out = set_spte vm fte.spte (record e { in_memory = false }) in
      pagedir_clear_page (record out { frame_table = hash_delete fte.frame vm.frame_table })
        fte.thread e.vaddr

  -- The rest of frame_evict once a victim is found.
  unfoldable pub replace : Flags → Vm State → FrameEntry → Option (Option ℕ × Vm State)
  unfolding save_page forget
  replace flags vm fte = do
    saved ← save_page vm fte
    let gone = forget saved fte
    m ← palloc_free_page gone.memory (some fte.frame)
    (frame, m') ← palloc_get_page m flags
    some (frame, record gone { memory = m' })

  -- The loop over what is left of the frame table. At its end the C function returns no value, and what
  -- its caller does then is undefined: `none`.
  unfoldable pub evict_scan : Flags → Vm State → List FrameEntry → Option (Option ℕ × Vm State)
  unfolding replace
  evict_scan flags vm [] = none
  evict_scan flags vm (fte ∷ rest) =
      let e = vm.spte fte.spte in
      let skipped = evict_scan flags vm rest in
      let cleared = evict_scan flags (pagedir_set_accessed vm fte.thread e.vaddr false) rest in
      if e.locked
      then skipped
      else if pagedir_is_accessed vm fte.thread e.vaddr
      then cleared
      else replace flags vm fte

  unfoldable pub frame_evict : Flags → Vm State → Option (Option ℕ × Vm State)
  unfolding evict_scan
  frame_evict flags vm = evict_scan flags vm vm.frame_table

  -- The loop of frame_alloc, on fuel: `none` is a panic, an undefined value or a loop that goes on.
  unfoldable pub alloc_loop : ℕ → Flags → Vm State → Option (ℕ × Vm State)
  unfolding frame_evict
  alloc_loop zero flags vm = none
  alloc_loop (suc n) flags vm = frame_evict flags vm >>= λ got.
      let again = alloc_loop n flags got.1 in elim got.0 [ some f ↦ some (f, got.1) | none ↦ again ]

  unfoldable pub frame_alloc : ℕ → ℕ → Flags → Vm State → ℕ → Option (Option ℕ × Vm State)
  unfolding alloc_loop frame_add_to_ft
  frame_alloc rounds place flags vm p =
      let get : Option (Option ℕ × Vm State) = palloc_get_page vm.memory flags >>= λ got.
      let vm' = record vm { memory = got.1 } in
      let evict : Option (Option ℕ × Vm State) = alloc_loop rounds flags vm' >>= λ found.
      some (some found.0, frame_add_to_ft place found.1 found.0 p) in
      elim got.0 [ some f ↦ some (some f, frame_add_to_ft place vm' f p) | none ↦ evict ] in
      if not flags.pal_user then some (none, vm) else get
