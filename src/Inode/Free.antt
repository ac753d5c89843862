-- ===== src/Inode/Free.antt =====
-- inode_dealloc of filesys/inode.c (prj4) and its helpers: giving the sectors of a removed inode back.
-- A loop takes its number of rounds as fuel.
use os_326_omega.Prelude.{
  ℕ, zero, suc, ◌+◌, ◌-◌, min, true, false, not, ◌&&◌, ◌==◌, if◌then◌else◌, ltb, Option, some,
}
use os_326_omega.Prelude.Panic.{◌>>=◌}
use os_326_omega.Sector.{Words, words_of}
use os_326_omega.Store.{Store}
use os_326_omega.Inode.{
  Inode, bytes_to_data_sectors, bytes_to_indirect_sectors, bytes_to_double_indirect_sector,
  direct_blocks, indirect_blocks, indirect_start, double_indirect_start, indirect_block_ptrs,
}

module _ (D : Store) where
  open D use {State, read, release}

  -- free_map_release of n entries from index i on
  release_entries : ℕ → Words → ℕ → State → Option State
  release_entries zero block i s = some s
  release_entries (suc n) block i s = release s (block i) >>= release_entries n block (i + 1)

  inode_dealloc_indirect_block : State → ℕ → ℕ → Option State
  inode_dealloc_indirect_block s p data_ptrs = do
    s' ← release_entries data_ptrs (words_of (read s p)) 0 s
    release s' p

  -- the loop over the outer block
  double_loop : ℕ → Words → ℕ → ℕ → State → Option State
  double_loop zero block i data_ptrs s = some s
  double_loop (suc n) block i data_ptrs s = do
    let per_block = min data_ptrs indirect_block_ptrs
    s' ← inode_dealloc_indirect_block s (block i) per_block
    double_loop n block (i + 1) (data_ptrs - per_block) s'

  inode_dealloc_double_indirect_block : State → ℕ → ℕ → ℕ → Option State
  inode_dealloc_double_indirect_block s p indirect_ptrs data_ptrs = do
    s' ← double_loop indirect_ptrs (words_of (read s p)) 0 data_ptrs s
    release s' p

  -- what the loops of inode_dealloc carry
  record Progress : Type 0 where
    state : State
    idx : ℕ
    data_sectors : ℕ
    indirect_sectors : ℕ

  direct_releases : ℕ → Inode → Progress → Option Progress
  direct_releases zero inode p = some p
  direct_releases (suc k) inode p = elim (not (p.data_sectors == 0) && ltb p.idx indirect_start) [
    | true ↦ release p.state (inode.ptr p.idx) >>= λ s.
        direct_releases k inode
          (record p { state = s; data_sectors = p.data_sectors - 1; idx = p.idx + 1 })
    | false ↦ some p
  ]

  indirect_releases : ℕ → Inode → Progress → Option Progress
  indirect_releases zero inode p = some p
  indirect_releases (suc k) inode p =
      elim (not (p.indirect_sectors == 0) && ltb p.idx double_indirect_start) [
        | true ↦
            let data_ptrs = min p.data_sectors indirect_block_ptrs in
            inode_dealloc_indirect_block p.state (inode.ptr p.idx) data_ptrs >>= λ s.
            indirect_releases k inode (record {
              state = s;
              data_sectors = p.data_sectors - data_ptrs;
              indirect_sectors = p.indirect_sectors - 1;
              idx = p.idx + 1;
            })
        | false ↦ some p
      ]

  pub inode_dealloc : State → Inode → Option State
  inode_dealloc s inode = do
    p ← direct_releases direct_blocks inode (record {
      state = s;
      idx = 0;
      data_sectors = bytes_to_data_sectors inode.length;
      indirect_sectors = bytes_to_indirect_sectors inode.length;
    })
    q ← indirect_releases indirect_blocks inode p
    if bytes_to_double_indirect_sector inode.length == 0
        then some q.state
        else inode_dealloc_double_indirect_block q.state (inode.ptr q.idx) q.indirect_sectors
            q.data_sectors
