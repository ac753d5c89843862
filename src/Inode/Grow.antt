-- ===== src/Inode/Grow.antt =====
-- inode_expand of filesys/inode.c (prj4) and its helpers: allocating data sectors and the pointer
-- blocks that lead to them. Each `while` loop takes its number of rounds as fuel and tests its
-- condition; `left` is new_data_sectors, and a loop that returns or breaks does so at `left` 0.
-- A pointer block that is new holds what was on the kernel's stack, `junk`.
pub mod Count
pub mod Capacity
use os_326_omega.Prelude.{
  ℕ, zero, suc, ◌+◌, ◌-◌, ◌*◌, ◌%◌, ◌^◌, Bool, true, false, not, ◌&&◌, ◌==◌, if◌then◌else◌, ltb,
  Option, some, length,
}
use os_326_omega.Prelude.Panic.{◌>>=◌, ◌>>◌, assert}
use os_326_omega.Sector.{Sector, Words, words_of, of_words, zeros, block_sector_size}
use os_326_omega.Store.{Store}
use os_326_omega.Inode.{
  Inode, bytes_to_data_sectors, direct_blocks, indirect_blocks, indirect_start,
  double_indirect_start, indirect_block_ptrs,
}

abbrev pub put : Words → ℕ → ℕ → Words
put p i x k = if i == k then x else p k

-- `size_t` subtraction wraps
abbrev pub sub_size : ℕ → ℕ → ℕ
sub_size a b = (a + 2 ^ 32 - b) % 2 ^ 32

-- The inode once the loop over an indirect block has come to `idx`, and a level two block.
next_indirect : Inode → ℕ → Inode
next_indirect i idx =
    if idx == indirect_block_ptrs
    then record i { indirect_index = 0; direct_index = i.direct_index + 1 }
    else record i { indirect_index = idx }

next_double : Inode → ℕ → Inode
next_double i idx =
    if idx == indirect_block_ptrs
    then record i { double_indirect_index = 0; indirect_index = i.indirect_index + 1 }
    else record i { double_indirect_index = idx }

module _ (D : Store) where
  open D use {State, allocate, write, fits}

  -- block_write, with its check_sector
  abbrev pub block_write : State → ℕ → Sector → Option State
  block_write s p x = assert (fits p) >> some (write s p x)

  -- what the loops over an inode change
  pub record Grow : Type 0 where
    pub state : State
    pub inode : Inode
    pub left : ℕ

  -- what the loop over a pointer block changes: `idx` is the index that it advances
  pub record Fill : Type 0 where
    pub state : State
    pub block : Words
    pub idx : ℕ
    pub left : ℕ

  -- what the loop over the outer block changes
  pub record Outer : Type 0 where
    pub grow : Grow
    pub block : Words

  fill_step : Fill → Option Fill
  fill_step f = do
    (p, s) ← allocate f.state (f.block f.idx)
    s' ← block_write s p zeros
    some (record { state = s'; block = put f.block f.idx p; idx = f.idx + 1; left = f.left - 1 })

  -- the `while` loops of inode_expand_indirect_block and of the level two helper
  fill_loop : ℕ → Fill → Option Fill
  fill_loop zero f = some f
  fill_loop (suc k) f = elim (ltb f.idx indirect_block_ptrs && not (f.left == 0)) [
    | true ↦ fill_step f >>= fill_loop k
    | false ↦ some f
  ]

  direct_step : Grow → Option Grow
  direct_step g = do
    (p, s) ← allocate g.state (g.inode.ptr g.inode.direct_index)
    s' ← block_write s p zeros
    some (record {
      state = s';
      inode = record (g.inode) {
        ptr = put g.inode.ptr g.inode.direct_index p;
        direct_index = g.inode.direct_index + 1;
      };
      left = g.left - 1;
    })

  pub direct_loop : ℕ → Grow → Option Grow
  direct_loop zero g = some g
  direct_loop (suc k) g = elim (ltb g.inode.direct_index indirect_start && not (g.left == 0)) [
    | true ↦ direct_step g >>= direct_loop k
    | false ↦ some g
  ]

module _ (D : Store) (junk : Words) where
  open D use {State, allocate, read, fits}

  -- A pointer block to fill: a new one, or the one on the device.
  open_block : Bool → State → ℕ → Option (ℕ × Words × State)
  open_block true s p = allocate s p >>= λ (p', s'). some (p', junk, s')
  open_block false s p = assert (fits p) >> some (p, words_of (read s p), s)

  pub inode_expand_indirect_block : Grow D → Option (Grow D)
  inode_expand_indirect_block g = do
    let i = g.inode
    (p, block, s) ← open_block (i.indirect_index == 0) g.state (i.ptr i.direct_index)
    f ←
        fill_loop D indirect_block_ptrs
          (record { state = s; block = block; idx = i.indirect_index; left = g.left })
    s' ← block_write D f.state p (of_words f.block)
    some (record {
      state = s';
      inode = next_indirect (record i { ptr = put i.ptr i.direct_index p }) f.idx;
      left = f.left;
    })

  inode_expand_double_indirect_block_lvl_two : Outer D → Option (Outer D)
  inode_expand_double_indirect_block_lvl_two o = do
    let i = o.grow.inode
    (p, inner, s) ←
        open_block (i.double_indirect_index == 0) o.grow.state (o.block i.indirect_index)
    f ←
        fill_loop D indirect_block_ptrs
          (record { state = s; block = inner; idx = i.double_indirect_index; left = o.grow.left })
    s' ← block_write D f.state p (of_words f.block)
    some (record {
      grow = record { state = s'; inode = next_double i f.idx; left = f.left };
      block = put o.block i.indirect_index p;
    })

  outer_loop : ℕ → Outer D → Option (Outer D)
  outer_loop zero o = some o
  outer_loop (suc k) o =
      elim (ltb o.grow.inode.indirect_index indirect_block_ptrs && not (o.grow.left == 0)) [
        | true ↦ inode_expand_double_indirect_block_lvl_two o >>= outer_loop k
        | false ↦ some o
      ]

  pub inode_expand_double_indirect_block : Grow D → Option (Grow D)
  inode_expand_double_indirect_block g = do
    let i = g.inode
    (p, block, s) ←
        open_block (i.double_indirect_index == 0 && i.indirect_index == 0) g.state
          (i.ptr i.direct_index)
    o ← outer_loop indirect_block_ptrs (record {
      grow = record {
        state = s;
        inode = record i { ptr = put i.ptr i.direct_index p };
        left = g.left;
      };
      block = block;
    })
    s' ← block_write D o.grow.state p (of_words o.block)
    some (record (o.grow) { state = s' })

  pub indirect_loop : ℕ → Grow D → Option (Grow D)
  indirect_loop zero g = some g
  indirect_loop (suc k) g =
      elim (ltb g.inode.direct_index double_indirect_start && not (g.left == 0)) [
        | true ↦ inode_expand_indirect_block g >>= indirect_loop k
        | false ↦ some g
      ]

  double_phase : Grow D → Option (Grow D)
  double_phase g =
      if g.inode.direct_index == double_indirect_start
      then inode_expand_double_indirect_block g
      else some g

  -- The new length that it returns, the state and the inode.
  pub inode_expand : State → Inode → ℕ → Option (ℕ × State × Inode)
  inode_expand s inode new_length =
      let n = sub_size (bytes_to_data_sectors new_length) (bytes_to_data_sectors inode.length) in
      if n == 0 then some (new_length, s, inode) else (do
        g ← direct_loop D direct_blocks (record { state = s; inode = inode; left = n })
        if g.left == 0 then some (new_length, g.state, g.inode) else (do
          g ← indirect_loop indirect_blocks g
          if g.left == 0 then some (new_length, g.state, g.inode) else (do
            g ← double_phase g
            some (sub_size new_length (g.left * block_sector_size % 2 ^ 32), g.state, g.inode))))
