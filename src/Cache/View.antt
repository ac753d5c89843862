-- ===== src/Cache/View.antt =====
-- What the buffer cache (filesys/cache.c of prj4) and the disk below it hold together, and the steps
-- of cache_evict.
use os_326_omega.Prelude.{
  ℕ, zero, suc, ◌<◌, ◌≡◌, refl, sym, ◌∙◌, inl, inr, Bool, true, false, ◌||◌, arith, ◌==◌,
  if◌then◌else◌, ap, List, some, none, length, get_elem?, Bool-cases, Option-cases, [], ◌∷◌,
}
use os_326_omega.Sector.{Sector}
use os_326_omega.Cache.{Block, in_cache, evict_round, evict_loop, write_back, touch, update, loaded}

abbrev pub Disk : Type 0
Disk = ℕ → Sector

abbrev pub cached : List Block → ℕ → Bool
cached [] q = false
cached (b ∷ bs) q = b.sector_no == q || cached bs q

-- what a reader of sector q sees
abbrev pub content : List Block → (ℕ → Sector) → ℕ → Sector
content [] d q = d q
content (b ∷ bs) d q = if b.sector_no == q then b.contents else content bs d q

-- No sector is cached twice, and a block that is not dirty holds what is on the disk.
abbrev pub IsCoherent : List Block → (ℕ → Sector) → Type 0
IsCoherent [] d = Unit {0}
IsCoherent (b ∷ bs) d =
    (b.dirty ≡ false → b.contents ≡ d b.sector_no)
    × (cached bs b.sector_no ≡ false)
    × IsCoherent bs d

-- `bs'` is `bs` but for access flags.
abbrev pub SameBlocks : List Block → List Block → Type 0
SameBlocks [] [] = Unit {0}
SameBlocks [] (c ∷ cs) = ⊥
SameBlocks (b ∷ bs) [] = ⊥
SameBlocks (b ∷ bs) (c ∷ cs) =
    (c.sector_no ≡ b.sector_no) × (c.dirty ≡ b.dirty) × (c.contents ≡ b.contents) × SameBlocks bs cs

pub SameBlocks-refl : (bs : List Block) → SameBlocks bs bs
SameBlocks-refl [] = tt
SameBlocks-refl (b ∷ bs) = (refl, refl, refl, SameBlocks-refl bs)

pub cached-SameBlocks : (bs cs : List Block) (q : ℕ) → SameBlocks bs cs → cached cs q ≡ cached bs q
cached-SameBlocks [] [] q h = refl
cached-SameBlocks [] (c ∷ cs) q h = absurd h
cached-SameBlocks (b ∷ bs) [] q h = absurd h
cached-SameBlocks (b ∷ bs) (c ∷ cs) q h = ground (arith, cached-SameBlocks bs cs q h.3)

pub content-SameBlocks :
    (bs cs : List Block) (d : Disk) (q : ℕ) → SameBlocks bs cs → content cs d q ≡ content bs d q
content-SameBlocks [] [] d q h = refl
content-SameBlocks [] (c ∷ cs) d q h = absurd h
content-SameBlocks (b ∷ bs) [] d q h = absurd h
content-SameBlocks (b ∷ bs) (c ∷ cs) d q h = ground (arith, content-SameBlocks bs cs d q h.3)

pub IsCoherent-SameBlocks :
    (bs cs : List Block) (d : Disk) → SameBlocks bs cs → IsCoherent bs d → IsCoherent cs d
IsCoherent-SameBlocks [] [] d h k = tt
IsCoherent-SameBlocks [] (c ∷ cs) d h k = absurd h
IsCoherent-SameBlocks (b ∷ bs) [] d h k = absurd h
IsCoherent-SameBlocks (b ∷ bs) (c ∷ cs) d h k = (
  λ clean. h.2 ∙ k.0 (sym h.1 ∙ clean) ∙ ap d (sym h.0),
  cached-SameBlocks bs cs c.sector_no h.3 ∙ rw (h.0) (k.1),
  IsCoherent-SameBlocks bs cs d h.3 k.2,
)

pub length-SameBlocks : (bs cs : List Block) → SameBlocks bs cs → length cs ≡ length bs
length-SameBlocks [] [] h = refl
length-SameBlocks [] (c ∷ cs) h = absurd h
length-SameBlocks (b ∷ bs) [] h = absurd h
length-SameBlocks (b ∷ bs) (c ∷ cs) h = ap suc (length-SameBlocks bs cs h.3)

evict_round-SameBlocks : (bs : List Block) → SameBlocks bs (evict_round bs).0
unfolding evict_round
evict_round-SameBlocks [] = tt
evict_round-SameBlocks (b ∷ bs) = elim (Bool-cases b.access) [
  | inl used ↦ rw used (refl, refl, refl, evict_round-SameBlocks bs)
  | inr idle ↦ rw idle (refl, refl, refl, SameBlocks-refl bs)
]

-- the position that a round returns lies in the list
evict_round-bound : (bs : List Block) (i : ℕ) → (evict_round bs).1 ≡ some i → i < length bs
unfolding evict_round
evict_round-bound [] i e = absurd (ground arith)
evict_round-bound (b ∷ bs) i e = elim (Option-cases (evict_round bs).1) [
  | inl missing ↦ ground arith
  | inr (j, found) ↦ ground (arith, evict_round-bound bs j found)
]

-- No block is left with its access flag after a round without a victim
abbrev Idle : List Block → Type 0
Idle [] = Unit {0}
Idle (b ∷ bs) = (b.access ≡ false) × Idle bs

evict_round-Idle : (bs : List Block) → (evict_round bs).1 ≡ none → Idle (evict_round bs).0
unfolding evict_round
evict_round-Idle [] e = tt
evict_round-Idle (b ∷ bs) e = elim (Bool-cases b.access) [
  | inl used ↦ rw used (refl, evict_round-Idle bs (ground arith))
  | inr idle ↦ absurd (ground arith)
]

evict_round_of_Idle : (bs : List Block) → 0 < length bs → Idle bs → (evict_round bs).1 ≡ some 0
unfolding evict_round
evict_round_of_Idle [] p h = absurd (omega arith)
evict_round_of_Idle (b ∷ bs) p h = rw (h.0) refl

SameBlocks-trans : (ks bs cs : List Block) → SameBlocks ks bs → SameBlocks bs cs → SameBlocks ks cs
SameBlocks-trans [] [] cs h k = k
SameBlocks-trans [] (b ∷ bs) cs h k = absurd h
SameBlocks-trans (a ∷ ks) [] cs h k = absurd h
SameBlocks-trans (a ∷ ks) (b ∷ bs) [] h k = absurd k
SameBlocks-trans (a ∷ ks) (b ∷ bs) (c ∷ cs) h k =
    (k.0 ∙ h.0, k.1 ∙ h.1, k.2 ∙ h.2, SameBlocks-trans ks bs cs h.3 k.3)

-- Two rounds find a victim in a list that is not empty.
pub evict_loop-ends :
    (bs : List Block)
    → 0 < length bs
    → (r : ℕ × List Block) × (evict_loop 2 bs ≡ some r) × (r.0 < length bs) × SameBlocks bs r.1
unfolding evict_loop
evict_loop-ends bs p =
    let cs : List Block = (evict_round bs).0 in
    let same : SameBlocks bs cs = evict_round-SameBlocks bs in
    elim (Option-cases (evict_round bs).1) [
      | inr (i, e) ↦ ((i, cs), ground arith, evict_round-bound bs i e, same)
      | inl e ↦
          let again =
            evict_round_of_Idle cs (omega (arith, length-SameBlocks bs cs same))
              (evict_round-Idle bs e) in
          (
            (0, (evict_round cs).0),
            ground arith,
            omega arith,
            SameBlocks-trans bs cs (evict_round cs).0 same (evict_round-SameBlocks cs),
          )
    ]

-- Replacing the block at a position, once it is written back, by a block with what the disk holds
-- for a sector that is not cached.
pub cached-get :
    (bs : List Block) (i : ℕ) (v : Block) → get_elem? bs i ≡ some v → cached bs v.sector_no ≡ true
cached-get [] i v e = absurd (ground arith)
cached-get (b ∷ bs) zero v e = ground arith
cached-get (b ∷ bs) (suc i) v e = ground (arith, cached-get bs i v e)

cached-update :
    (bs : List Block) (i sector q : ℕ) (dirty : Bool) (x : Sector)
    → cached bs q ≡ false
    → (sector == q) ≡ false
    → cached (update bs i (loaded sector dirty x)) q ≡ false
unfolding update loaded
cached-update [] i sector q dirty x h ne = refl
cached-update (b ∷ bs) zero sector q dirty x h ne = ground arith
cached-update (b ∷ bs) (suc i) sector q dirty x h ne =
    ground (arith, cached-update bs i sector q dirty x)

pub content-not_cached :
    (bs : List Block) (d : Disk) (q : ℕ) → cached bs q ≡ false → content bs d q ≡ d q
content-not_cached [] d q h = refl
content-not_cached (b ∷ bs) d q h = ground (arith, content-not_cached bs d q)

pub content-same_disk :
    (bs : List Block) (d d' : Disk) (q : ℕ) → d' q ≡ d q → content bs d' q ≡ content bs d q
content-same_disk [] d d' q h = h
content-same_disk (b ∷ bs) d d' q h = ground (arith, content-same_disk bs d d' q h)

-- a hit
pub content-touch :
    (bs : List Block) (i : ℕ) (dirty : Bool) (d : Disk) (q : ℕ)
    → content (update bs i (touch dirty)) d q ≡ content bs d q
unfolding update touch
content-touch [] i dirty d q = refl
content-touch (b ∷ bs) zero dirty d q = refl
content-touch (b ∷ bs) (suc i) dirty d q = ground (arith, content-touch bs i dirty d q)

cached-touch :
    (bs : List Block) (i : ℕ) (dirty : Bool) (q : ℕ)
    → cached (update bs i (touch dirty)) q ≡ cached bs q
unfolding update touch
cached-touch [] i dirty q = refl
cached-touch (b ∷ bs) zero dirty q = refl
cached-touch (b ∷ bs) (suc i) dirty q = ground (arith, cached-touch bs i dirty q)

pub IsCoherent-touch :
    (bs : List Block) (i : ℕ) (dirty : Bool) (d : Disk)
    → IsCoherent bs d
    → IsCoherent (update bs i (touch dirty)) d
unfolding update touch
IsCoherent-touch [] i dirty d k = tt
IsCoherent-touch (b ∷ bs) zero dirty d k = (λ idle. k.0 (ground arith), k.1, k.2)
IsCoherent-touch (b ∷ bs) (suc i) dirty d k =
    (k.0, cached-touch bs i dirty b.sector_no ∙ k.1, IsCoherent-touch bs i dirty d k.2)

pub length-update :
    (bs : List Block) (i : ℕ) (f : Block → Block) → length (update bs i f) ≡ length bs
unfolding update
length-update [] i f = refl
length-update (b ∷ bs) zero f = refl
length-update (b ∷ bs) (suc i) f = ap suc (length-update bs i f)

pub get-update :
    (bs : List Block) (i : ℕ) (f : Block → Block) (b : Block)
    → get_elem? bs i ≡ some b
    → get_elem? (update bs i f) i ≡ some (f b)
unfolding update
get-update [] i f b e = absurd (ground arith)
get-update (c ∷ bs) zero f b e = ground arith
get-update (c ∷ bs) (suc i) f b e = get-update bs i f b e

-- in_cache finds the block of the sector, or the sector is not cached.
pub in_cache-none : (bs : List Block) (q : ℕ) → in_cache bs q ≡ none → cached bs q ≡ false
unfolding in_cache
in_cache-none [] q e = refl
in_cache-none (b ∷ bs) q e = elim (Option-cases (in_cache bs q)) [
  | inl missing ↦ ground (arith, in_cache-none bs q missing)
  | inr (j, found) ↦ absurd (ground arith)
]

pub in_cache-some :
    (bs : List Block) (d : Disk) (q i : ℕ)
    → in_cache bs q ≡ some i
    → (b : Block) × (get_elem? bs i ≡ some b) × (b.sector_no ≡ q) × (b.contents ≡ content bs d q)
unfolding in_cache
in_cache-some [] d q i e = absurd (ground arith)
in_cache-some (b ∷ bs) d q i e = elim (Bool-cases (b.sector_no == q)) [
  | inl hit ↦ let z : i ≡ 0 = ground arith in (b, rw z refl, ground arith, ground arith)
  | inr miss ↦ elim (Option-cases (in_cache bs q)) [
    | inl missing ↦ absurd (ground arith)
    | inr (j, found) ↦
        let z : i ≡ suc j = ground arith in
        let (x, g, s, c) = in_cache-some bs d q j found in (x, rw z g, s, ground arith)
  ]
]

module _ (sector : ℕ) (dirty : Bool) (d : Disk) (v : Block)
    (clean : v.dirty ≡ false → v.contents ≡ d v.sector_no) where
  unfoldable pub after : Disk
  unfolding write_back
  after = write_back d (some v)

  pub after-at : after v.sector_no ≡ v.contents
  unfolding after
  after-at = ground (arith, clean)

  pub after-else : (q : ℕ) → (v.sector_no == q) ≡ false → after q ≡ d q
  unfolding after
  after-else q ne = ground arith

  pub content-replace :
      (bs : List Block) (i q : ℕ)
      → IsCoherent bs d
      → get_elem? bs i ≡ some v
      → cached bs sector ≡ false
      → content (update bs i (loaded sector dirty (after sector))) after q ≡ content bs d q
  unfolding update loaded
  content-replace [] i q k e fresh = absurd (ground arith)
  content-replace (b ∷ bs) zero q k e fresh = ground (
    arith,
    k.1,
    after-at,
    after-else q,
    after-else sector,
    content-not_cached bs d sector,
    content-not_cached bs after q,
    content-same_disk bs d after q,
  )
  content-replace (b ∷ bs) (suc i) q k e fresh =
      ground (arith, k.1, after-at, after-else q, content-replace bs i q k.2 e)

  pub IsCoherent-replace_rest :
      (bs : List Block) → IsCoherent bs d → cached bs v.sector_no ≡ false → IsCoherent bs after
  IsCoherent-replace_rest [] k free = tt
  IsCoherent-replace_rest (b ∷ bs) k free = (
    λ idle. k.0 idle ∙ sym (after-else b.sector_no (ground arith)),
    k.1,
    IsCoherent-replace_rest bs k.2 (ground arith),
  )

  pub IsCoherent-replace :
      (bs : List Block) (i : ℕ)
      → IsCoherent bs d
      → get_elem? bs i ≡ some v
      → cached bs sector ≡ false
      → IsCoherent (update bs i (loaded sector dirty (after sector))) after
  unfolding update loaded
  IsCoherent-replace [] i k e fresh = tt
  IsCoherent-replace (b ∷ bs) zero k e fresh =
      (λ idle. refl, ground arith, IsCoherent-replace_rest bs k.2 (ground (arith, k.1)))
  IsCoherent-replace (b ∷ bs) (suc i) k e fresh =
      let other : (v.sector_no == b.sector_no) ≡ false = ground (arith, cached-get bs i v e, k.1) in
      let ne : (sector == b.sector_no) ≡ false = ground arith in
      (
        λ idle. k.0 idle ∙ sym (after-else b.sector_no other),
        cached-update bs i sector b.sector_no dirty (after sector) k.1 ne,
        IsCoherent-replace bs i k.2 e (ground arith),
      )
