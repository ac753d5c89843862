-- ===== src/Inode/Grow/Count.antt =====
-- How far inode_expand (filesys/inode.c of prj4) gets: the three indices of an inode count its data
-- sectors, and each loop moves that count by what it takes off the sectors to allocate.
use os_326_omega.Prelude.{
  ℕ, zero, suc, ◌+◌, ◌-◌, ◌*◌, ◌≤◌, ◌<◌, ◌≡◌, refl, ap, ◌∙◌, ◌≢◌, ◌⊎◌, inl, inr, Bool, true, false,
  not, ◌&&◌, arith, ◌==◌, if◌then◌else◌, ltb, some, Bool-cases,
}
use os_326_omega.Sector.{Words, words_of, of_words, zeros}
use os_326_omega.Store.{Store}
use os_326_omega.Inode.{Inode}
use os_326_omega.Inode.Grow.{
  Grow, Fill, Outer, fill_step, fill_loop, direct_step, direct_loop, open_block,
  inode_expand_indirect_block, inode_expand_double_indirect_block_lvl_two, outer_loop,
  inode_expand_double_indirect_block, indirect_loop, put, next_indirect, next_double,
}

-- the data sectors that the indices stand for
abbrev pub count : Inode → ℕ
count i =
    if ltb i.direct_index 4
    then i.direct_index
    else if ltb i.direct_index 13
    then 4 + (i.direct_index - 4) * 128 + i.indirect_index
    else 1156 + i.indirect_index * 128 + i.double_indirect_index

-- 4 direct, 9 * 128 indirect and 128 * 128 double indirect data sectors
abbrev pub max_count : ℕ
max_count = 17540

-- The indices of an inode are in range.
pub record IsIndexed (i : Inode) : Type 0 where
  pub direct : i.direct_index ≤ 13
  pub indirect : i.indirect_index ≤ 128
  pub double : i.double_indirect_index < 128
  pub no_indirect : i.direct_index < 4 → i.indirect_index ≡ 0
  pub no_double : i.direct_index < 13 → i.double_indirect_index ≡ 0
  pub not_full : i.direct_index < 13 → i.indirect_index < 128
  pub last : i.indirect_index ≡ 128 → i.double_indirect_index ≡ 0

with_ptr-IsIndexed : (i : Inode) (p : Words) → IsIndexed i → IsIndexed (record i { ptr = p })
with_ptr-IsIndexed i p ix = record {
  direct = ix.direct;
  indirect = ix.indirect;
  double = ix.double;
  no_indirect = ix.no_indirect;
  no_double = ix.no_double;
  not_full = ix.not_full;
  last = ix.last;
}

-- where the indices stand after a round over an indirect block
record Round (i i' : Inode) (left left' : ℕ) : Type 0 where
  indexed : IsIndexed i'
  moved : count i' + left' ≡ count i + left
  same_length : i'.length ≡ i.length
  next : (left' ≡ 0) ⊎ (i'.direct_index ≡ i.direct_index + 1)
  low : 4 ≤ i'.direct_index
  clear : left' ≢ 0 → (i'.indirect_index ≡ 0) × (i'.double_indirect_index ≡ 0)

next_indirect_lem :
    (i : Inode) (idx left left' : ℕ)
    → IsIndexed i
    → 4 ≤ i.direct_index
    → i.direct_index < 13
    → i.indirect_index ≤ idx
    → idx ≤ 128
    → (left' ≡ 0) ⊎ (idx ≡ 128)
    → idx + left' ≡ i.indirect_index + left
    → Round i (next_indirect i idx) left left'
unfolding next_indirect
next_indirect_lem i idx left left' ix lo hi a b stop m = record {
  indexed = ground (arith, ix.no_double);
  moved = ground (arith, ix.no_double);
  same_length = ground arith;
  next = ground arith;
  low = ground arith;
  clear = λ h. ground (arith, ix.no_double);
}

-- where they stand after a round over a level two block
record RoundTwo (i i' : Inode) (left left' : ℕ) : Type 0 where
  indexed : IsIndexed i'
  moved : count i' + left' ≡ count i + left
  same_length : i'.length ≡ i.length
  next : (left' ≡ 0) ⊎ (i'.indirect_index ≡ i.indirect_index + 1)
  same_direct : i'.direct_index ≡ 13
  clear : left' ≢ 0 → i'.double_indirect_index ≡ 0

next_double_lem :
    (i : Inode) (idx left left' : ℕ)
    → IsIndexed i
    → i.direct_index ≡ 13
    → i.indirect_index < 128
    → i.double_indirect_index ≤ idx
    → idx ≤ 128
    → (left' ≡ 0) ⊎ (idx ≡ 128)
    → idx + left' ≡ i.double_indirect_index + left
    → RoundTwo i (next_double i idx) left left'
unfolding next_double
next_double_lem i idx left left' ix d lo a b stop m = record {
  indexed = ground arith;
  moved = ground arith;
  same_length = ground arith;
  next = ground arith;
  same_direct = ground arith;
  clear = λ h. ground arith;
}

module _ (D : Store) where
  open D use {State, IsOk, fits, allocate, read, write, allocate-IsOk, write-IsOk, IsOk-le}

  -- `r` more sectors can be allocated than are left to allocate.
  record Filled (r : ℕ) (f f' : Fill D) : Type 0 where
    ok : IsOk f'.state (f'.left + r)
    moved : f'.idx + f'.left ≡ f.idx + f.left
    ahead : f.idx ≤ f'.idx
    bound : f'.idx ≤ 128
    stop : (f'.left ≡ 0) ⊎ (f'.idx ≡ 128)
    less : f.idx < 128 → f.left ≢ 0 → f'.left < f.left

  fill_step_lem :
      (f : Fill D) (n : ℕ)
      → IsOk f.state (suc n)
      → (f' : Fill D) × (fill_step D f ≡ some f')
        × IsOk f'.state n
        × (f'.idx ≡ f.idx + 1)
        × (f'.left ≡ f.left - 1)
  unfolding fill_step
  fill_step_lem f n ok =
      let ((p, s), e, fit, ok') = allocate-IsOk f.state (f.block f.idx) n ok in
      let f' : Fill D = record {
        state = write s p zeros;
        block = put f.block f.idx p;
        idx = f.idx + 1;
        left = f.left - 1;
      } in
      (f', ground arith, write-IsOk s p zeros n ok', refl, refl)

  fill_loop-Filled :
      (k : ℕ) (f : Fill D) (r : ℕ)
      → IsOk f.state (f.left + r)
      → f.idx ≤ 128
      → 128 ≤ f.idx + k
      → (f' : Fill D) × (fill_loop D k f ≡ some f') × Filled r f f'
  unfolding fill_loop
  fill_loop-Filled zero f r ok b h = (
    f,
    refl,
    record {
      ok = ok;
      moved = refl;
      ahead = omega arith;
      bound = b;
      stop = inr (omega arith);
      less = λ lt ne. absurd (omega arith);
    },
  )
  fill_loop-Filled (suc k) f r ok b h = elim (Bool-cases (ltb f.idx 128 && not (f.left == 0))) [
    | inl go ↦
        let some_left : 0 < f.left = ground arith in
        let (f₁, e₁, ok₁, i₁, l₁) =
          fill_step_lem f (f.left - 1 + r) (IsOk-le f.state (f.left + r) _ (omega arith) ok) in
        let (f₂, e₂, d) =
          fill_loop-Filled k f₁ r (IsOk-le f₁.state (f.left - 1 + r) _ (omega arith) ok₁)
            (ground arith) (omega arith) in
        (
          f₂,
          ground arith,
          record {
            ok = d.ok;
            moved = ground (arith, d.moved);
            ahead = omega (arith, d.ahead);
            bound = d.bound;
            stop = d.stop;
            less = λ lt ne. omega (arith, d.moved, d.ahead);
          },
        )
    | inr halt ↦ (
      f,
      ground arith,
      record {
        ok = ok;
        moved = refl;
        ahead = omega arith;
        bound = b;
        stop = ground arith;
        less = λ lt ne. absurd (ground arith);
      },
    )
  ]

  -- A pointer block that is not new lies on the device.
  open_block-ok :
      (junk : Words) (fresh : Bool) (s : State) (p n : ℕ)
      → IsOk s (suc n)
      → (fresh ≡ false → fits p ≡ true)
      → (r : ℕ × Words × State) × (open_block D junk fresh s p ≡ some r)
        × (fits r.0 ≡ true)
        × IsOk r.2 n
        × (fresh ≡ false → r.1 ≡ words_of (read s p))
  unfolding open_block
  open_block-ok junk true s p n ok old =
      let ((p', s'), e, fit, ok') = allocate-IsOk s p n ok in
      ((p', junk, s'), rw e refl, fit, ok', λ h. absurd (ground arith))
  open_block-ok junk false s p n ok old = (
    (p, words_of (read s p), s),
    rw (old refl) refl,
    old refl,
    IsOk-le s (suc n) n (omega arith) ok,
    λ h. refl,
  )

  -- The pointer blocks that an expansion goes on with lie on the device.
  pub record Reach (s : State) (i : Inode) : Type 0 where
    pub pointer :
        (i.double_indirect_index == 0 && i.indirect_index == 0) ≡ false
        → fits (i.ptr i.direct_index) ≡ true
    pub inner :
        (i.double_indirect_index == 0) ≡ false
        → fits (words_of (read s (i.ptr i.direct_index)) i.indirect_index) ≡ true

  pub clear-Reach :
      (s : State) (i : Inode) → i.indirect_index ≡ 0 → i.double_indirect_index ≡ 0 → Reach s i
  clear-Reach s i a b = record {
    pointer = λ h. absurd (ground arith);
    inner = λ h. absurd (ground arith);
  }

  -- What a phase of the expansion does: the count moves by what it takes off `left`, up to the
  -- phase's end. The other fields stay, and two sectors can be allocated for each one left, and `x`.
  pub record Moved (x : ℕ) (g g' : Grow D) : Type 0 where
    pub ok : IsOk g'.state (2 * g'.left + x)
    pub indexed : IsIndexed g'.inode
    pub moved : count g'.inode + g'.left ≡ count g.inode + g.left
    pub less : g'.left ≤ g.left
    pub same_length : g'.inode.length ≡ g.inode.length

  pub Moved-trans : {x y : ℕ} {g₀ g₁ g₂ : Grow D} → Moved x g₀ g₁ → Moved y g₁ g₂ → Moved y g₀ g₂
  Moved-trans m₁ m₂ = record {
    ok = m₂.ok;
    indexed = m₂.indexed;
    moved = m₂.moved ∙ m₁.moved;
    less = omega (arith, m₁.less, m₂.less);
    same_length = m₂.same_length ∙ m₁.same_length;
  }

  pub Moved-refl :
      (x : ℕ) (g : Grow D) → IsOk g.state (2 * g.left + x) → IsIndexed g.inode → Moved x g g
  Moved-refl x g ok ix = record {
    ok = ok;
    indexed = ix;
    moved = refl;
    less = omega arith;
    same_length = refl;
  }

  direct_step-Moved :
      (x : ℕ) (g : Grow D)
      → IsOk g.state (2 * g.left + x)
      → IsIndexed g.inode
      → g.inode.direct_index < 4
      → g.left ≢ 0
      → (g' : Grow D) × (direct_step D g ≡ some g')
        × Moved x g g'
        × (g'.inode.direct_index ≡ g.inode.direct_index + 1)
        × Reach g'.state g'.inode
  unfolding direct_step
  direct_step-Moved x g ok ix h ne =
      let n : ℕ = 2 * (g.left - 1) + x in
      let ((p, s), e, fit, ok') =
        allocate-IsOk g.state (g.inode.ptr g.inode.direct_index) n
          (IsOk-le g.state (2 * g.left + x) (suc n) (omega arith) ok) in
      let i' : Inode = record (g.inode) {
        ptr = put g.inode.ptr g.inode.direct_index p;
        direct_index = g.inode.direct_index + 1;
      } in
      let g' : Grow D = record { state = write s p zeros; inode = i'; left = g.left - 1 } in
      (
        g',
        ground arith,
        record {
          ok = write-IsOk s p zeros n ok';
          indexed = ground (arith, ix.no_indirect, ix.no_double, ix.not_full, ix.last);
          moved = ground (arith, ix.no_indirect);
          less = omega arith;
          same_length = refl;
        },
        refl,
        clear-Reach (write s p zeros) i' (ix.no_indirect h) (ix.no_double (omega arith)),
      )

  pub direct_loop-Moved :
      (x k : ℕ) (g : Grow D)
      → IsOk g.state (2 * g.left + x)
      → IsIndexed g.inode
      → Reach g.state g.inode
      → 4 ≤ g.inode.direct_index + k
      → (g' : Grow D) × (direct_loop D k g ≡ some g')
        × Moved x g g'
        × ((g'.left ≡ 0) ⊎ (4 ≤ g'.inode.direct_index))
        × Reach g'.state g'.inode
  unfolding direct_loop
  direct_loop-Moved x zero g ok ix re h = (g, refl, Moved-refl x g ok ix, inr (omega arith), re)
  direct_loop-Moved x (suc k) g ok ix re h =
      elim (Bool-cases (ltb g.inode.direct_index 4 && not (g.left == 0))) [
        | inl go ↦
            let (g₁, e₁, m₁, i₁, re₁) = direct_step-Moved x g ok ix (ground arith) (ground arith) in
            let (g₂, e₂, m₂, stop, re₂) =
              direct_loop-Moved x k g₁ m₁.ok m₁.indexed re₁ (omega arith) in
            (g₂, ground arith, Moved-trans {g₀ = g} {g₁ = g₁} {g₂ = g₂} m₁ m₂, stop, re₂)
        | inr halt ↦ (g, ground arith, Moved-refl x g ok ix, ground arith, re)
      ]

  module _ (junk : Words) where
    indirect_block-Moved :
        (x : ℕ) (g : Grow D)
        → IsOk g.state (2 * g.left + x)
        → IsIndexed g.inode
        → Reach g.state g.inode
        → 4 ≤ g.inode.direct_index
        → g.inode.direct_index < 13
        → g.left ≢ 0
        → (g' : Grow D) × (inode_expand_indirect_block D junk g ≡ some g')
          × Moved x g g'
          × ((g'.left ≡ 0) ⊎ (g'.inode.direct_index ≡ g.inode.direct_index + 1))
          × (4 ≤ g'.inode.direct_index)
          × (g'.left ≢ 0 → Reach g'.state g'.inode)
    unfolding inode_expand_indirect_block
    indirect_block-Moved x g ok ix re lo hi ne =
        let i = g.inode in
        let r : ℕ = g.left - 1 + x in
        let old : (i.indirect_index == 0) ≡ false → fits (i.ptr i.direct_index) ≡ true =
          λ h. re.pointer (ground arith) in
        let ((p, block, s), e, fit, ok', same) =
          open_block-ok junk (i.indirect_index == 0) g.state (i.ptr i.direct_index) (g.left + r)
            (IsOk-le g.state (2 * g.left + x) _ (omega arith) ok) old in
        let (f, e', d) =
          fill_loop-Filled 128
            (record { state = s; block = block; idx = i.indirect_index; left = g.left }) r ok'
            ix.indirect (omega arith) in
        let i' : Inode = record i { ptr = put i.ptr i.direct_index p } in
        let n =
          next_indirect_lem i' f.idx g.left f.left (with_ptr-IsIndexed i _ ix) lo hi d.ahead d.bound
            d.stop d.moved in
        let less : f.left < g.left = d.less (ix.not_full hi) ne in
        let g' : Grow D = record {
          state = write f.state p (of_words f.block);
          inode = next_indirect i' f.idx;
          left = f.left;
        } in
        (
          g',
          ground arith,
          record {
            ok =
                write-IsOk f.state p _ (2 * f.left + x)
                  (IsOk-le f.state (f.left + r) _ (omega arith) d.ok);
            indexed = n.indexed;
            moved = n.moved;
            less = omega arith;
            same_length = n.same_length;
          },
          n.next,
          n.low,
          λ h. clear-Reach g'.state g'.inode ((n.clear h).0) ((n.clear h).1),
        )

    pub indirect_loop-Moved :
        (x k : ℕ) (g : Grow D)
        → IsOk g.state (2 * g.left + x)
        → IsIndexed g.inode
        → (g.left ≢ 0 → Reach g.state g.inode)
        → 4 ≤ g.inode.direct_index
        → (g.left ≡ 0) ⊎ (13 ≤ g.inode.direct_index + k)
        → (g' : Grow D) × (indirect_loop D junk k g ≡ some g')
          × Moved x g g'
          × ((g'.left ≡ 0) ⊎ (13 ≤ g'.inode.direct_index))
          × (g'.left ≢ 0 → Reach g'.state g'.inode)
    unfolding indirect_loop
    indirect_loop-Moved x zero g ok ix re lo h = (g, refl, Moved-refl x g ok ix, omega arith, re)
    indirect_loop-Moved x (suc k) g ok ix re lo h =
        elim (Bool-cases (ltb g.inode.direct_index 13 && not (g.left == 0))) [
          | inl go ↦
              let ne : g.left ≢ 0 = ground arith in
              let (g₁, e₁, m₁, i₁, lo₁, re₁) =
                indirect_block-Moved x g ok ix (re ne) lo (ground arith) ne in
              let (g₂, e₂, m₂, stop, re₂) =
                indirect_loop-Moved x k g₁ m₁.ok m₁.indexed re₁ lo₁ (omega arith) in
              (g₂, ground arith, Moved-trans {g₀ = g} {g₁ = g₁} {g₂ = g₂} m₁ m₂, stop, re₂)
          | inr halt ↦ (g, ground arith, Moved-refl x g ok ix, ground arith, re)
        ]

    -- The level two block that an outer block goes on with lies on the device.
    abbrev InnerFits : Outer D → Type 0
    InnerFits o =
        o.grow.left ≢ 0
        → (o.grow.inode.double_indirect_index == 0) ≡ false
        → fits (o.block o.grow.inode.indirect_index) ≡ true

    lvl_two-Moved :
        (x : ℕ) (o : Outer D)
        → IsOk o.grow.state (2 * o.grow.left + x)
        → IsIndexed o.grow.inode
        → InnerFits o
        → o.grow.inode.direct_index ≡ 13
        → o.grow.inode.indirect_index < 128
        → o.grow.left ≢ 0
        → (o' : Outer D) × (inode_expand_double_indirect_block_lvl_two D junk o ≡ some o')
          × Moved x o.grow o'.grow
          × ((o'.grow.left ≡ 0) ⊎ (o'.grow.inode.indirect_index ≡ o.grow.inode.indirect_index + 1))
          × (o'.grow.inode.direct_index ≡ 13)
          × InnerFits o'
    unfolding inode_expand_double_indirect_block_lvl_two
    lvl_two-Moved x o ok ix inn d lo ne =
        let i = o.grow.inode in
        let r : ℕ = o.grow.left - 1 + x in
        let ((p, inner, s), e, fit, ok', same) =
          open_block-ok junk (i.double_indirect_index == 0) o.grow.state (o.block i.indirect_index)
            (o.grow.left + r) (IsOk-le o.grow.state (2 * o.grow.left + x) _ (omega arith) ok)
            (inn ne) in
        let (f, e', y) =
          fill_loop-Filled 128
            (record { state = s; block = inner; idx = i.double_indirect_index; left = o.grow.left })
            r ok' (omega (arith, ix.double)) (omega arith) in
        let n = next_double_lem i f.idx o.grow.left f.left ix d lo y.ahead y.bound y.stop y.moved in
        let less : f.left < o.grow.left = y.less ix.double ne in
        let o' : Outer D = record {
          grow = record {
            state = write f.state p (of_words f.block);
            inode = next_double i f.idx;
            left = f.left;
          };
          block = put o.block i.indirect_index p;
        } in
        (
          o',
          ground arith,
          record {
            ok =
                write-IsOk f.state p _ (2 * f.left + x)
                  (IsOk-le f.state (f.left + r) _ (omega arith) y.ok);
            indexed = n.indexed;
            moved = n.moved;
            less = omega arith;
            same_length = n.same_length;
          },
          n.next,
          n.same_direct,
          λ h old. absurd (ground (arith, n.clear h)),
        )

    outer_loop-Moved :
        (x k : ℕ) (o : Outer D)
        → IsOk o.grow.state (2 * o.grow.left + x)
        → IsIndexed o.grow.inode
        → InnerFits o
        → o.grow.inode.direct_index ≡ 13
        → (o.grow.left ≡ 0) ⊎ (128 ≤ o.grow.inode.indirect_index + k)
        → (o' : Outer D) × (outer_loop D junk k o ≡ some o')
          × Moved x o.grow o'.grow
          × ((o'.grow.left ≡ 0) ⊎ (128 ≤ o'.grow.inode.indirect_index))
          × (o'.grow.inode.direct_index ≡ 13)
    unfolding outer_loop
    outer_loop-Moved x zero o ok ix inn d h = (o, refl, Moved-refl x o.grow ok ix, omega arith, d)
    outer_loop-Moved x (suc k) o ok ix inn d h =
        elim (Bool-cases (ltb o.grow.inode.indirect_index 128 && not (o.grow.left == 0))) [
          | inl go ↦
              let (o₁, e₁, m₁, i₁, d₁, inn₁) =
                lvl_two-Moved x o ok ix inn d (ground arith) (ground arith) in
              let (o₂, e₂, m₂, stop, d₂) =
                outer_loop-Moved x k o₁ m₁.ok m₁.indexed inn₁ d₁ (omega arith) in
              (
                o₂,
                ground arith,
                Moved-trans {g₀ = o.grow} {g₁ = o₁.grow} {g₂ = o₂.grow} m₁ m₂,
                stop,
                d₂,
              )
          | inr halt ↦ (o, ground arith, Moved-refl x o.grow ok ix, ground arith, d)
        ]

    pub double_indirect_block-Moved :
        (g : Grow D)
        → IsOk g.state (2 * g.left + 1)
        → IsIndexed g.inode
        → Reach g.state g.inode
        → g.inode.direct_index ≡ 13
        → (g' : Grow D) × (inode_expand_double_indirect_block D junk g ≡ some g')
          × Moved 0 g g'
          × ((g'.left ≡ 0) ⊎ (128 ≤ g'.inode.indirect_index))
          × (g'.inode.direct_index ≡ 13)
    unfolding inode_expand_double_indirect_block
    double_indirect_block-Moved g ok ix re d =
        let i = g.inode in
        let ((p, block, s), e, fit, ok', same) =
          open_block-ok junk (i.double_indirect_index == 0 && i.indirect_index == 0) g.state
            (i.ptr i.direct_index) (2 * g.left + 0)
            (IsOk-le g.state (2 * g.left + 1) _ (omega arith) ok) re.pointer in
        let i' : Inode = record i { ptr = put i.ptr i.direct_index p } in
        let o : Outer D = record {
          grow = record { state = s; inode = i'; left = g.left };
          block = block;
        } in
        let inn : InnerFits o = λ ne old.
          ap (λ (b : Words). fits (b i.indirect_index)) (same (ground arith)) ∙ re.inner old in
        let (o', e', m, stop, d') =
          outer_loop-Moved 0 128 o ok' (with_ptr-IsIndexed i _ ix) inn d (inr (omega arith)) in
        (
          record (o'.grow) { state = write o'.grow.state p (of_words o'.block) },
          ground arith,
          record {
            ok = write-IsOk o'.grow.state p _ _ m.ok;
            indexed = m.indexed;
            moved = m.moved;
            less = m.less;
            same_length = m.same_length;
          },
          stop,
          d',
        )
