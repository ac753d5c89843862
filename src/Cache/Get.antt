-- ===== src/Cache/Get.antt =====
-- cache_get and cache_evict of filesys/cache.c (prj4): the cache is transparent.
use os_326_omega.Prelude.{
  ℕ, zero, suc, ◌≤◌, ◌<◌, ◌≡◌, refl, sym, ◌∙◌, ◌⊎◌, subst, ==_iff, inl, inr, Bool, false, arith,
  ◌==◌, ltb, List, some, none, length, get_elem?, length-append, Bool-cases, Option-cases, ltb→lt,
  [], ◌∷◌, ◌++◌,
}
use os_326_omega.Sector.{Sector}
use os_326_omega.Cache.{
  Block, Cache, in_cache, cache_evict, cache_new, cache_get, touch, update, loaded,
}
use os_326_omega.Cache.View.{
  Disk, cached, content, IsCoherent, evict_loop-ends, after, after-at, after-else, cached-get,
  content-replace, IsCoherent-replace, content-touch, IsCoherent-touch, length-update, get-update,
  in_cache-none, in_cache-some, length-SameBlocks, content-SameBlocks, IsCoherent-SameBlocks,
  cached-SameBlocks, content-not_cached,
}

-- what cache_list satisfies between calls
pub record IsCache (c : Cache) : Type 0 where
  pub coherent : IsCoherent c.blocks c.disk
  pub bound : length c.blocks ≤ 64

-- The block that a call of cache_get returns, and what it leaves alone.
pub record Got (c : Cache) (sector : ℕ) (r : ℕ × Cache) : Type 0 where
  pub valid : IsCache r.1
  pub same : (q : ℕ) → content r.1.blocks r.1.disk q ≡ content c.blocks c.disk q
  pub block : Block
  pub at : get_elem? r.1.blocks r.0 ≡ some block
  pub number : block.sector_no ≡ sector
  pub holds : block.contents ≡ content c.blocks c.disk sector
  pub written : (q : ℕ) → (r.1.disk q ≡ c.disk q) ⊎ (r.1.disk q ≡ content c.blocks c.disk q)

hit :
    (c : Cache) (sector i : ℕ) (dirty : Bool)
    → IsCache c
    → in_cache c.blocks sector ≡ some i
    → Got c sector (i, record c { blocks = update c.blocks i (touch dirty) })
unfolding touch
hit c sector i dirty v e =
    let (b, g, s, x) = in_cache-some c.blocks c.disk sector i e in
    record {
      valid = record {
        coherent = IsCoherent-touch c.blocks i dirty c.disk v.coherent;
        bound = omega (arith, v.bound, length-update c.blocks i (touch dirty));
      };
      same = content-touch c.blocks i dirty c.disk;
      block = touch dirty b;
      at = get-update c.blocks i (touch dirty) b g;
      number = s;
      holds = x;
      written = λ q. inl refl;
    }

-- A position in a list holds an element.
at_bound : (bs : List Block) (i : ℕ) → i < length bs → (b : Block) × (get_elem? bs i ≡ some b)
at_bound [] i h = absurd (omega arith)
at_bound (b ∷ bs) zero h = (b, refl)
at_bound (b ∷ bs) (suc i) h = at_bound bs i (omega arith)

get-clean :
    (bs : List Block) (d : Disk) (i : ℕ) (v : Block)
    → IsCoherent bs d
    → get_elem? bs i ≡ some v
    → v.dirty ≡ false
    → v.contents ≡ d v.sector_no
get-clean [] d i v k e idle = absurd (ground arith)
get-clean (b ∷ bs) d zero v k e idle = ground (arith, k.0)
get-clean (b ∷ bs) d (suc i) v k e idle = get-clean bs d i v k.2 e idle

-- A reader of a cached sector sees its block.
content-get :
    (bs : List Block) (d : Disk) (i : ℕ) (v : Block)
    → IsCoherent bs d
    → get_elem? bs i ≡ some v
    → content bs d v.sector_no ≡ v.contents
content-get [] d i v k e = absurd (ground arith)
content-get (b ∷ bs) d zero v k e = ground arith
content-get (b ∷ bs) d (suc i) v k e =
    ground (arith, k.1, cached-get bs i v e, content-get bs d i v k.2 e)

-- A miss in a full cache: the victim's data goes to the disk if it is dirty, and its block takes the
-- sector.
evicted :
    (c : Cache) (sector : ℕ) (dirty : Bool)
    → IsCache c
    → in_cache c.blocks sector ≡ none
    → 0 < length c.blocks
    → (r : ℕ × Cache) × (cache_evict c ≡ some r)
      × Got c sector (
        r.0,
        record (r.1) { blocks = update r.1.blocks r.0 (loaded sector dirty (r.1.disk sector)) },
      )
unfolding cache_evict after loaded
evicted c sector dirty v missing pos =
    let ((i, bs), e, h, same) = evict_loop-ends c.blocks pos in
    let (b, g) = at_bound bs i (omega (arith, length-SameBlocks c.blocks bs same)) in
    let k = IsCoherent-SameBlocks c.blocks bs c.disk same v.coherent in
    let clean = get-clean bs c.disk i b k g in
    let free = cached-SameBlocks c.blocks bs sector same ∙ in_cache-none c.blocks sector missing in
    let d : Disk = after sector dirty c.disk b clean in
    let elsewhere : (b.sector_no == sector) ≡ false = ground (arith, cached-get bs i b g) in
    (
      (i, record { blocks = bs; disk = d }),
      ground arith,
      record {
        valid = record {
          coherent = IsCoherent-replace sector dirty c.disk b clean bs i k g free;
          bound = omega (
            arith,
            v.bound,
            length-update bs i (loaded sector dirty (d sector)),
            length-SameBlocks c.blocks bs same,
          );
        };
        same = λ q.
            content-replace sector dirty c.disk b clean bs i q k g free
            ∙ content-SameBlocks c.blocks bs c.disk q same;
        block = loaded sector dirty (d sector) b;
        at = get-update bs i (loaded sector dirty (d sector)) b g;
        number = refl;
        holds =
            after-else sector dirty c.disk b clean sector elsewhere
            ∙ sym
                (content-not_cached c.blocks c.disk sector (in_cache-none c.blocks sector missing));
        written = λ q. elim (Bool-cases (b.sector_no == q)) [
          | inl here ↦
              let at : b.sector_no ≡ q = (==_iff b.sector_no q).0 here in
              inr (
                subst (λ j. d j ≡ content c.blocks c.disk j) at
                  (after-at sector dirty c.disk b clean
                    ∙ sym (content-get bs c.disk i b k g)
                    ∙ content-SameBlocks c.blocks bs c.disk b.sector_no same))
          | inr other ↦ inl (after-else sector dirty c.disk b clean q other)
        ];
      },
    )

-- A miss in a cache that is not full.
content-append :
    (bs : List Block) (b : Block) (d : Disk) (sector q : ℕ) (dirty : Bool)
    → cached bs sector ≡ false
    → content (update (bs ++ b ∷ []) (length bs) (loaded sector dirty (d sector))) d q
      ≡ content bs d q
unfolding update loaded
content-append [] b d sector q dirty free = ground arith
content-append (a ∷ bs) b d sector q dirty free =
    ground (arith, content-append bs b d sector q dirty)

cached-append :
    (bs : List Block) (b : Block) (x : Sector) (sector q : ℕ) (dirty : Bool)
    → (sector == q) ≡ false
    → cached (update (bs ++ b ∷ []) (length bs) (loaded sector dirty x)) q ≡ cached bs q
unfolding update loaded
cached-append [] b x sector q dirty ne = ground arith
cached-append (a ∷ bs) b x sector q dirty ne = ground (arith, cached-append bs b x sector q dirty)

IsCoherent-append :
    (bs : List Block) (b : Block) (d : Disk) (sector : ℕ) (dirty : Bool)
    → cached bs sector ≡ false
    → IsCoherent bs d
    → IsCoherent (update (bs ++ b ∷ []) (length bs) (loaded sector dirty (d sector))) d
unfolding update loaded
IsCoherent-append [] b d sector dirty free k = (λ idle. refl, refl, tt)
IsCoherent-append (a ∷ bs) b d sector dirty free k = (
  k.0,
  cached-append bs b (d sector) sector a.sector_no dirty (ground arith) ∙ k.1,
  IsCoherent-append bs b d sector dirty (ground arith) k.2,
)

get-append :
    (bs : List Block) (b : Block) (f : Block → Block)
    → get_elem? (update (bs ++ b ∷ []) (length bs) f) (length bs) ≡ some (f b)
unfolding update
get-append [] b f = refl
get-append (a ∷ bs) b f = get-append bs b f

appended :
    (c : Cache) (b : Block) (sector : ℕ) (dirty : Bool)
    → IsCache c
    → in_cache c.blocks sector ≡ none
    → length c.blocks < 64
    → Got c sector (
      length c.blocks,
      record c {
        blocks =
            update (c.blocks ++ b ∷ []) (length c.blocks) (loaded sector dirty (c.disk sector));
      },
    )
unfolding loaded
appended c b sector dirty v missing room =
    let f : Block → Block = loaded sector dirty (c.disk sector) in
    let free = in_cache-none c.blocks sector missing in
    record {
      valid = record {
        coherent = IsCoherent-append c.blocks b c.disk sector dirty free v.coherent;
        bound = omega (
          arith,
          length-update (c.blocks ++ b ∷ []) (length c.blocks) f,
          length-append c.blocks (b ∷ []),
        );
      };
      same = λ q. content-append c.blocks b c.disk sector q dirty free;
      block = f b;
      at = get-append c.blocks b f;
      number = refl;
      holds = sym (content-not_cached c.blocks c.disk sector free);
      written = λ q. inl refl;
    }

-- cache_get on a coherent cache of at most 64 blocks, where malloc does not fail, ends and returns a block
-- of the cache that has the sector number and the data of the sector. The cache stays coherent and
-- bounded, what a reader sees of every sector is unchanged, and a sector of the disk changes only to what
-- a reader saw of it, on a hit, a new block and an eviction.
pub cache_get-Got :
    (fresh : Block) (c : Cache) (sector : ℕ) (dirty : Bool)
    → IsCache c
    → (r : ℕ × Cache) × (cache_get (some fresh) c sector dirty ≡ some r) × Got c sector r
unfolding cache_get cache_new
cache_get-Got fresh c sector dirty v = elim (Option-cases (in_cache c.blocks sector)) [
  | inr (i, found) ↦ (
    (i, record c { blocks = update c.blocks i (touch dirty) }),
    ground arith,
    hit c sector i dirty v found,
  )
  | inl missing ↦ elim (Bool-cases (ltb (length c.blocks) 64)) [
    | inl room ↦ (
      (
        length c.blocks,
        record c {
          blocks =
              update (c.blocks ++ fresh ∷ []) (length c.blocks)
                (loaded sector dirty (c.disk sector));
        },
      ),
      ground arith,
      appended c fresh sector dirty v missing (ltb→lt _ _ room),
    )
    | inr full ↦
        let ((i, c'), e, got) = evicted c sector dirty v missing (ground arith) in
        (
          (i, record c' { blocks = update c'.blocks i (loaded sector dirty (c'.disk sector)) }),
          ground arith,
          got,
        )
  ]
]
