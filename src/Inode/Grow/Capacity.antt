-- ===== src/Inode/Grow/Capacity.antt =====
-- What inode_expand (filesys/inode.c of prj4) returns: how many sectors it allocates, and what it
-- does past the largest file.
use os_326_omega.Prelude.{
  ℕ, ◌+◌, ◌-◌, ◌*◌, ◌%◌, ◌^◌, ◌≤◌, ◌<◌, min, ◌≡◌, sym, ◌∙◌, ◌≢◌, ◌⊎◌, inl, inr, false, arith, ◌==◌,
  ap, some, Bool-cases, subst,
}
use os_326_omega.Sector.{Words}
use os_326_omega.Store.{Store}
use os_326_omega.Inode.{Inode, bytes_to_data_sectors, direct_blocks, indirect_blocks, max_file_size}
use os_326_omega.Inode.Grow.{Grow, double_phase, inode_expand, sub_size}
use os_326_omega.Inode.Grow.Count.{
  count, max_count, IsIndexed, Reach, Moved, direct_loop-Moved, indirect_loop-Moved,
  double_indirect_block-Moved, Moved-trans, Moved-refl,
}

-- The indices count the sectors of the length.
pub record IsSized (i : Inode) : Type 0 where
  pub indexed : IsIndexed i
  pub counted : count i ≡ bytes_to_data_sectors i.length

with_length-IsIndexed : (i : Inode) (l : ℕ) → IsIndexed i → IsIndexed (record i { length = l })
with_length-IsIndexed i l ix = record {
  direct = ix.direct;
  indirect = ix.indirect;
  double = ix.double;
  no_indirect = ix.no_indirect;
  no_double = ix.no_double;
  not_full = ix.not_full;
  last = ix.last;
}

count-le : (i : Inode) → IsIndexed i → count i ≤ max_count
count-le i ix = ground (arith, ix.last, ix.not_full, ix.no_indirect)

-- the numbers behind `result` below
accounts :
    (old new c left : ℕ)
    → old ≤ new
    → new < 2 ^ 31
    → c + left
      ≡ bytes_to_data_sectors old + sub_size (bytes_to_data_sectors new) (bytes_to_data_sectors old)
    → (left ≡ 0) ⊎ (c ≡ max_count)
    → c ≤ max_count
    → (c ≡ min (bytes_to_data_sectors new) max_count)
      × (sub_size new (left * 512 % 2 ^ 32) ≡ new - (bytes_to_data_sectors new - c) * 512)
unfolding bytes_to_data_sectors
accounts old new c left h small m stop le = omega arith

module _ (D : Store) (junk : Words) where
  open D use {State, IsOk, IsOk-le}

  -- the outcome of an expansion to `new_length`
  pub record Expanded (i : Inode) (new_length : ℕ) (r : ℕ × State × Inode) : Type 0 where
    pub ok : IsOk r.1 0
    pub indexed : IsIndexed r.2
    pub same_length : r.2.length ≡ i.length
    pub counted : count r.2 ≡ min (bytes_to_data_sectors new_length) max_count
    pub result : r.0 ≡ new_length - (bytes_to_data_sectors new_length - count r.2) * 512

  -- Two sectors for each new data sector and one more can be allocated.
  module _ (s : State) (i : Inode) (new_length : ℕ)
      (ok : IsOk s (2 * (bytes_to_data_sectors new_length - bytes_to_data_sectors i.length) + 1))
      (reach : Reach D s i) (sized : IsSized i) (longer : i.length ≤ new_length)
      (small : new_length + 511 < 2 ^ 31) where
    n : ℕ
    n = sub_size (bytes_to_data_sectors new_length) (bytes_to_data_sectors i.length)

    start : Grow D
    unfolding n
    start = record { state = s; inode = i; left = n }

    start_ok : IsOk s (2 * n + 1)
    unfolding n bytes_to_data_sectors
    start_ok = IsOk-le s _ _ (omega arith) ok

    -- the outcome once a phase has returned, or the last one has ended
    finish :
        (x : ℕ) (g : Grow D)
        → Moved D x start g
        → (g.left ≡ 0) ⊎ (count g.inode ≡ max_count)
        → Expanded i new_length (sub_size new_length (g.left * 512 % 2 ^ 32), g.state, g.inode)
    unfolding start n bytes_to_data_sectors
    finish x g m stop =
        let (c, r) =
          accounts i.length new_length (count g.inode) g.left longer (omega arith)
            (m.moved ∙ ap (λ k. k + n) sized.counted) stop (count-le g.inode m.indexed) in
        record {
          ok = IsOk-le g.state _ 0 (omega arith) m.ok;
          indexed = m.indexed;
          same_length = m.same_length;
          counted = c;
          result = r;
        }

    -- at `left` 0 the result is the new length
    finish_early :
        (x : ℕ) (g : Grow D)
        → Moved D x start g
        → g.left ≡ 0
        → Expanded i new_length (new_length, g.state, g.inode)
    finish_early x g m done =
        subst (λ k. Expanded i new_length (k, g.state, g.inode)) (ground arith)
          (finish x g m (inl done))

    third :
        (g : Grow D)
        → Moved D 1 start g
        → (g.left ≢ 0 → Reach D g.state g.inode)
        → (g.left ≡ 0) ⊎ (13 ≤ g.inode.direct_index)
        → (g.left == 0) ≡ false
        → (g' : Grow D) × (double_phase D junk g ≡ some g')
          × Moved D 0 start g'
          × ((g'.left ≡ 0) ⊎ (count g'.inode ≡ max_count))
    unfolding double_phase
    third g m re stop more =
        let (g', e, m', stop', d) =
          double_indirect_block-Moved D junk g m.ok m.indexed (re (ground arith))
            (ground (arith, m.indexed.direct)) in
        (g', ground arith, Moved-trans D m m', ground (arith, m'.indexed.last))

    -- inode_expand grows an inode whose indices agree with its length to a length not below it and below
    -- 2 ^ 31 - 511 without a panic, where two sectors for each new data sector and one more are free on
    -- the device and the pointer blocks that it goes on with lie on the device. Afterwards the indices
    -- count the sectors of the new length, or the most that an inode can have; the result is the new
    -- length less 512 for each sector that did not fit.
    pub inode_expand-Expanded :
        (r : ℕ × State × Inode) × (inode_expand D junk s i new_length ≡ some r)
        × Expanded i new_length r
    unfolding inode_expand n start
    inode_expand-Expanded = elim (Bool-cases (n == 0)) [
      | inl none_new ↦ (
        (new_length, s, i),
        ground arith,
        finish_early 1 start (Moved-refl D 1 start start_ok sized.indexed) (ground arith),
      )
      | inr some_new ↦
          let (g₁, e₁, m₁, stop₁, re₁) =
            direct_loop-Moved D 1 direct_blocks start start_ok sized.indexed reach (omega arith) in
          elim (Bool-cases (g₁.left == 0)) [
            | inl done₁ ↦ (
              (new_length, g₁.state, g₁.inode),
              ground arith,
              finish_early 1 g₁ m₁ (ground arith),
            )
            | inr more₁ ↦
                let (g₂, e₂, m₂, stop₂, re₂) =
                  indirect_loop-Moved D junk 1 indirect_blocks g₁ m₁.ok m₁.indexed (λ ne. re₁)
                    (ground arith) (omega arith) in
                let m = Moved-trans D m₁ m₂ in
                elim (Bool-cases (g₂.left == 0)) [
                  | inl done₂ ↦ (
                    (new_length, g₂.state, g₂.inode),
                    ground arith,
                    finish_early 1 g₂ m (ground arith),
                  )
                  | inr more₂ ↦
                      let (g₃, e₃, m₃, stop₃) = third g₂ m re₂ stop₂ more₂ in
                      (
                        (sub_size new_length (g₃.left * 512 % 2 ^ 32), g₃.state, g₃.inode),
                        ground arith,
                        finish 0 g₃ m₃ stop₃,
                      )
                ]
          ]
    ]

    -- Under the same conditions, up to the largest file, inode_expand returns the new length, and with it the indices agree
    -- with the length again.
    pub inode_expand-IsSized :
        new_length ≤ max_file_size
        → (r : ℕ × State × Inode) × (inode_expand D junk s i new_length ≡ some r)
          × (r.0 ≡ new_length)
          × IsSized (record (r.2) { length = r.0 })
    unfolding bytes_to_data_sectors
    inode_expand-IsSized h =
        let (r, e, x) = inode_expand-Expanded in
        let c : count r.2 ≡ bytes_to_data_sectors new_length = omega (arith, x.counted) in
        let l : r.0 ≡ new_length = omega (arith, x.result, c) in
        (
          r,
          e,
          l,
          record {
            indexed = with_length-IsIndexed r.2 r.0 x.indexed;
            counted = c ∙ ap bytes_to_data_sectors (sym l);
          },
        )

    -- Under the same conditions, past the largest file, a new length that is no multiple of the sector size makes inode_expand
    -- return less than the largest file size: the length that the caller stores then is below the one
    -- that the file may have had.
    pub inode_expand-shrinks :
        max_file_size < new_length
        → new_length % 512 ≢ 0
        → (r : ℕ × State × Inode) × (inode_expand D junk s i new_length ≡ some r)
          × (r.0 < max_file_size)
    unfolding bytes_to_data_sectors
    inode_expand-shrinks h odd =
        let (r, e, x) = inode_expand-Expanded in
        let c : count r.2 ≡ max_count = omega (arith, x.counted) in
        (r, e, omega (arith, x.result, c))
