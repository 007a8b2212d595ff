-- ===== src/MemoryPool/Ownership.antt =====
-- Who has a block: the pool, or the caller that `allocate` gave it to.
use cxx_epoll_http_server.Common.{
  ℕ, suc, ◌+◌, ◌-◌, ◌*◌, ◌^◌, ◌<◌, ◌≡◌, ◌≢◌, refl, sym, true, false, Option, none, some, List, [],
  ◌∷◌, ◌++◌, length, length-append, ◌==◌, if◌then◌else◌, add_size, arith, Lacks,
}
use cxx_epoll_http_server.MemoryPool.{
  Memory, MemoryPool, grow, new_pool, normalize_block_size, allocate, deallocate, take_block,
}
use cxx_epoll_http_server.MemoryPool.Blocks.{
  normalized_size, Distinct, Apart, Chain, Chain-store, store_here, Outside, carve, length-carve,
  link_blocks-Chain, carve-Distinct, carve-Apart,
}

-- The blocks `free` are the pool's, in the order of its list, and `used` the callers'.
pub record IsValid (m : Memory) (q : MemoryPool) (free used : List ℕ) : Type 0 where
  pub linked : Chain m q.free_list free
  pub distinct_free : Distinct free
  pub distinct_used : Distinct used
  pub apart : Apart free used
  pub used_count : q.in_use ≡ length used
  pub all_count : q.capacity ≡ length free + length used
  pub bounded : q.capacity < 2 ^ 64
  pub some_size : 0 < q.block_size
  pub some_blocks : 0 < q.blocks_per_chunk

Apart-move : (p : ℕ) (bs us : List ℕ) → Lacks p bs → Apart bs us → Apart bs (p ∷ us)
Apart-move p [] us l a = tt
Apart-move p (b ∷ bs) us l a = (((λ e. l.0 (sym e)), a.0), Apart-move p bs us l.1 a.1)

Lacks-split : (x p : ℕ) (us vs : List ℕ) → Lacks x (us ++ p ∷ vs) → (p ≢ x) × Lacks x (us ++ vs)
Lacks-split x p [] vs l = l
Lacks-split x p (u ∷ us) vs l = let r = Lacks-split x p us vs l.1 in (r.0, (l.0, r.1))

Lacks-back : (p u : ℕ) (us vs : List ℕ) → u ≢ p → Lacks p (us ++ vs) → Lacks p ((u ∷ us) ++ vs)
Lacks-back p u us vs n l = (n, l)

Distinct-split :
    (p : ℕ) (us vs : List ℕ) → Distinct (us ++ p ∷ vs) → Lacks p (us ++ vs) × Distinct (us ++ vs)
Distinct-split p [] vs d = d
Distinct-split p (u ∷ us) vs d =
    let l = Lacks-split u p us vs d.0 in
    let r = Distinct-split p us vs d.1 in (((λ e. l.0 (sym e)), r.0), (l.1, r.1))

Apart-split :
    (p : ℕ) (bs us vs : List ℕ) → Apart bs (us ++ p ∷ vs) → Lacks p bs × Apart bs (us ++ vs)
Apart-split p [] us vs a = (tt, tt)
Apart-split p (b ∷ bs) us vs a =
    let l = Lacks-split b p us vs a.0 in
    let r = Apart-split p bs us vs a.1 in (((λ e. l.0 (sym e)), r.0), (l.1, r.1))

-- Giving back a block in use to a valid pool leaves a valid pool, with the block in front of the
-- free list and no longer in use.
pub deallocate-IsValid :
    (m : Memory) (q : MemoryPool) (free us vs : List ℕ) (p : ℕ)
    → 0 < p
    → IsValid m q free (us ++ p ∷ vs)
    → let (m', q') = deallocate p m q in IsValid m' q' (p ∷ free) (us ++ vs)
unfolding deallocate
deallocate-IsValid m q free us vs p k v =
    let e : (p == 0) ≡ false = ground arith in
    let a = Apart-split p free us vs v.apart in
    let d = Distinct-split p us vs v.distinct_used in
    let lens : (length (us ++ p ∷ vs) ≡ suc (length (us ++ vs))) =
      omega (arith, length-append us (p ∷ vs), length-append us vs) in
    rw e record {
      linked = (
        refl,
        k,
        rw (store_here m p q.free_list) (Chain-store m q.free_list p q.free_list free a.0 v.linked),
      );
      distinct_free = (a.0, v.distinct_free);
      distinct_used = d.1;
      apart = (d.0, a.1);
      used_count = omega (arith, v.used_count, v.all_count, v.bounded);
      all_count = omega (arith, v.all_count);
      bounded = v.bounded;
      some_size = v.some_size;
      some_blocks = v.some_blocks;
    }

-- A block is the caller's now, and was nobody's but the pool's before.
unfoldable pub Given : Memory → MemoryPool → List ℕ → Option (ℕ × Memory × MemoryPool) → Type 0
Given m q used r =
    (p : ℕ) × (m' : Memory) × (q' : MemoryPool) × (free' : List ℕ) × (r ≡ some (p, m', q'))
    × (0 < p)
    × Lacks p used
    × IsValid m' q' free' (p ∷ used)

take-Given :
    (m : Memory) (q : MemoryPool) (b : ℕ) (bs used : List ℕ)
    → IsValid m q (b ∷ bs) used
    → Given m q used (some (take_block (m, q)))
unfolding take_block Given
take-Given m q b bs used v =
    let (here, k, rest) = v.linked in
    (
      q.free_list,
      m,
      record q { free_list = m q.free_list; in_use = add_size q.in_use 1 },
      bs,
      refl,
      rw here k,
      rw here v.apart.0,
      rw here record {
        linked = rest;
        distinct_free = v.distinct_free.1;
        distinct_used = (v.apart.0, v.distinct_used);
        apart = Apart-move b bs used v.distinct_free.0 v.apart.1;
        used_count = omega (arith, v.used_count, v.all_count, v.bounded);
        all_count = omega (arith, v.all_count);
        bounded = v.bounded;
        some_size = v.some_size;
        some_blocks = v.some_blocks;
      },
    )

take-Given_full :
    (m : Memory) (q : MemoryPool) (fs used : List ℕ)
    → 0 < length fs
    → IsValid m q fs used
    → Given m q used (some (take_block (m, q)))
take-Given_full m q [] used l v = absurd (omega arith)
take-Given_full m q (b ∷ bs) used l v = take-Given m q b bs used v

-- The addresses from `base` on that a new chunk takes are nobody's yet.
abbrev pub FreshChunk : ℕ → MemoryPool → List ℕ → Type 0
FreshChunk base q used = (0 < base) × Outside base (base + q.blocks_per_chunk * q.block_size) used

-- The pool behind `grow`.
grown : ℕ → Memory → MemoryPool → Memory × MemoryPool
unfolding grow
grown base m q = elim (grow (some base) m q) [ none ↦ (m, q) | some x ↦ x ]

grown_lem : (base : ℕ) (m : Memory) (q : MemoryPool) → grow (some base) m q ≡ some (grown base m q)
unfolding grow grown
grown_lem base m q = refl

grown-IsValid :
    (base : ℕ) (m : Memory) (q : MemoryPool) (used : List ℕ)
    → IsValid m q [] used
    → q.capacity + q.blocks_per_chunk < 2 ^ 64
    → FreshChunk base q used
    → IsValid
        (grown base m q).0
        (grown base m q).1
        (carve q.block_size q.blocks_per_chunk base [])
        used
unfolding grow grown
grown-IsValid base m q used v r f =
    let size = q.block_size in
    let n = q.blocks_per_chunk in
    record {
      linked = link_blocks-Chain size n base q.free_list m [] v.some_size f.0 tt v.linked;
      distinct_free = carve-Distinct size n base [] v.some_size tt tt;
      distinct_used = v.distinct_used;
      apart = carve-Apart size n base [] used v.some_size f.1 tt;
      used_count = v.used_count;
      all_count = omega (arith, v.all_count, length-carve size n base []);
      bounded = omega arith;
      some_size = v.some_size;
      some_blocks = v.some_blocks;
    }

-- On a valid pool, and where a chunk that `aligned_alloc` gives is not null and overlaps no block
-- in use, `allocate` gives a block that is not null and is in nobody's use, whether the free list
-- has one or the pool grows, and the pool is valid with that block in use: free and used blocks
-- are distinct, the list links exactly the free ones, and the counts are right. The capacity is
-- not to wrap round.
pub allocate_lem :
    (base : ℕ) (m : Memory) (q : MemoryPool) (free used : List ℕ)
    → IsValid m q free used
    → q.capacity + q.blocks_per_chunk < 2 ^ 64
    → FreshChunk base q used
    → Given m q used (allocate (some base) m q)
unfolding allocate Given
allocate_lem base m q [] used v r f =
    let e : (q.free_list == 0) ≡ true = ground (arith, v.linked) in
    let (p, m', q', fs, t, k, w, i) =
      take-Given_full (grown base m q).0 (grown base m q).1
        (carve q.block_size q.blocks_per_chunk base []) used
        (omega (arith, length-carve q.block_size q.blocks_per_chunk base [], v.some_blocks))
        (grown-IsValid base m q used v r f) in
    (p, m', q', fs, rw (e, grown_lem base m q) t, k, w, i)
allocate_lem base m q (b ∷ bs) used v r f =
    let e : (q.free_list == 0) ≡ false = ground (arith, v.linked.0, v.linked.1) in
    let (p, m', q', fs, t, k, w, i) = take-Given m q b bs used v in (p, m', q', fs, rw e t, k, w, i)

-- Where the allocation is not null and neither the size nor the count wraps round, the constructor
-- gives a valid pool with no block in use, of the normalized size.
pub new_pool-IsValid :
    (block_size count base : ℕ) (m : Memory)
    → block_size < 2 ^ 64 - 15
    → count < 2 ^ 64
    → 0 < base
    → (m' : Memory) × (q : MemoryPool) × (free : List ℕ) × (new_pool block_size count (some base) m
        ≡ some (m', q))
      × IsValid m' q free []
      × (q.block_size ≡ normalize_block_size block_size)
unfolding new_pool grow grown
new_pool-IsValid block_size count base m s c l = (
  (grown base m start).0,
  (grown base m start).1,
  carve start.block_size start.blocks_per_chunk base [],
  refl,
  grown-IsValid base m start [] empty_pool some_room (l, tt),
  refl,
)
  where
    start : MemoryPool
    start = record {
      block_size = normalize_block_size block_size;
      blocks_per_chunk = if count == 0 then 1 else count;
      chunks = [];
      free_list = 0;
      in_use = 0;
      capacity = 0;
    }

    some_room : 0 + (if count == 0 then 1 else count) < 2 ^ 64
    some_room = ground arith

    empty_pool : IsValid m start [] []
    empty_pool = record {
      linked = refl;
      distinct_free = tt;
      distinct_used = tt;
      apart = tt;
      used_count = refl;
      all_count = omega arith;
      bounded = omega arith;
      some_size = omega (arith, normalized_size block_size s);
      some_blocks = ground arith;
    }
