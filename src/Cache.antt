-- ===== src/Cache.antt =====
-- filesys/cache.c of prj4: the buffer cache of 64 sectors with second chance replacement.
-- A `struct cache_block *` is the position of the block in cache_list: blocks are appended and
-- replaced in place, and leave the list only when the file system shuts down. The locks and the
-- writer thread are left out: the functions run one after the other.
pub mod View
pub mod Get
pub mod Flush
use mathlib.Core.Option
use os_326_omega.Prelude.{
  ℕ, zero, suc, Bool, true, false, ◌||◌, ◌==◌, if◌then◌else◌, ltb, List, Option, some, none, length,
  get_elem?, [], ◌∷◌, ◌++◌,
}
use os_326_omega.Sector.{Sector}

abbrev pub cache_size : ℕ
cache_size = 64

-- `struct cache_block`
pub record Block : Type 0 where
  pub sector_no : ℕ
  pub access : Bool
  pub dirty : Bool
  pub contents : Sector

-- cache_list and the sectors of fs_device
pub record Cache : Type 0 where
  pub blocks : List Block
  pub disk : ℕ → Sector

abbrev pub block_write : (ℕ → Sector) → ℕ → Sector → ℕ → Sector
block_write d p x q = if p == q then x else d q

-- The position of the block with the sector.
unfoldable pub in_cache : List Block → ℕ → Option ℕ
in_cache [] sector = none
in_cache (cb ∷ rest) sector =
    if cb.sector_no == sector then some 0 else Option.map suc (in_cache rest sector)

-- One round of the `for` loop of cache_evict: the blocks whose access flag it clears, and the
-- position that it returns.
unfoldable pub evict_round : List Block → List Block × Option ℕ
evict_round [] = ([], none)
evict_round (cb ∷ rest) =
    let (rest', r) = evict_round rest in
    if cb.access
    then (record cb { access = false } ∷ rest', Option.map suc r)
    else (cb ∷ rest, some 0)

-- The `while` loop of cache_evict, on fuel; `none` is a loop that goes on.
unfoldable pub evict_loop : ℕ → List Block → Option (ℕ × List Block)
evict_loop zero bs = none
evict_loop (suc k) bs =
    let next = evict_loop k (evict_round bs).0 in
    elim ((evict_round bs).1) [ none ↦ next | some i ↦ some (i, (evict_round bs).0) ]

unfoldable pub write_back : (ℕ → Sector) → Option Block → ℕ → Sector
write_back d none = d
write_back d (some cb) = if cb.dirty then block_write d cb.sector_no cb.contents else d

unfoldable pub cache_evict : Cache → Option (ℕ × Cache)
unfolding write_back
cache_evict c = elim (evict_loop 2 c.blocks) [
  | none ↦ none
  | some (i, bs) ↦ some (i, record { blocks = bs; disk = write_back c.disk (get_elem? bs i) })
]

-- `fresh` is the block that malloc returns, `none` for NULL: then the kernel panics.
unfoldable pub cache_new : Option Block → Cache → Option (ℕ × Cache)
cache_new fresh c =
    if ltb (length c.blocks) cache_size
    then elim fresh [
      | none ↦ none
      | some cb ↦ some (length c.blocks, record c { blocks = c.blocks ++ cb ∷ [] })
    ]
    else cache_evict c

unfoldable pub touch : Bool → Block → Block
touch dirty cb = record cb { access = true; dirty = cb.dirty || dirty }

unfoldable pub update : List Block → ℕ → (Block → Block) → List Block
update [] i f = []
update (b ∷ bs) zero f = f b ∷ bs
update (b ∷ bs) (suc i) f = b ∷ update bs i f

-- the block that holds a sector that was read
unfoldable pub loaded : ℕ → Bool → Sector → Block → Block
loaded sector dirty x cb = record { sector_no = sector; access = true; dirty = dirty; contents = x }

unfoldable pub cache_get : Option Block → Cache → ℕ → Bool → Option (ℕ × Cache)
unfolding touch update loaded
cache_get fresh c sector dirty = elim (in_cache c.blocks sector) [
  | some i ↦ some (i, record c { blocks = update c.blocks i (touch dirty) })
  | none ↦ elim (cache_new fresh c) [
    | none ↦ none
    | some (i, c') ↦
        some (i, record c' { blocks = update c'.blocks i (loaded sector dirty (c'.disk sector)) })
  ]
]

flush_loop : Bool → List Block → (ℕ → Sector) → List Block × (ℕ → Sector)
flush_loop done [] d = ([], d)
flush_loop done (cb ∷ rest) d =
    let (rest', d') =
      flush_loop done rest (if cb.dirty then block_write d cb.sector_no cb.contents else d) in
    (if done then rest' else record cb { dirty = false } ∷ rest', d')

unfoldable pub cache_write_to_disk : Bool → Cache → Cache
unfolding flush_loop
cache_write_to_disk done c =
    let (bs, d) = flush_loop done c.blocks c.disk in record { blocks = bs; disk = d }
