-- ===== src/MemoryPool/Blocks.antt =====
-- The free list as a list of addresses, and what a store does to it.
use cxx_epoll_http_server.Common.{
  ℕ, zero, suc, ◌+◌, ◌-◌, ◌*◌, ◌%◌, ◌^◌, ◌≤◌, ◌<◌, ◌≡◌, ◌⊎◌, refl, List, [], ◌∷◌, length, arith,
  inl, inr, Lacks,
}
use cxx_epoll_http_server.MemoryPool.{round_up, normalize_block_size, Memory, store, link_blocks}

-- Short of the wrap-around, the normalized block size is a multiple of 16 that is not below the
-- size asked for and not below 16, and it is no greater than any other such number.
pub normalize_block_size_lem :
    (s t : ℕ)
    → s < 2 ^ 64 - 15
    → s ≤ t
    → 16 ≤ t
    → t % 16 ≡ 0
    → let b = normalize_block_size s in (s ≤ b) × (16 ≤ b) × (b % 16 ≡ 0) × (b ≤ t)
unfolding normalize_block_size round_up
normalize_block_size_lem s t h l k e = (ground arith, ground arith, ground arith, ground arith)

pub normalized_size : (s : ℕ) → s < 2 ^ 64 - 15 → 16 ≤ normalize_block_size s
unfolding normalize_block_size round_up
normalized_size s h = ground arith

abbrev pub Distinct : List ℕ → Type 0
Distinct [] = Unit {0}
Distinct (b ∷ bs) = Lacks b bs × Distinct bs

-- No address of the first list is in the second.
abbrev pub Apart : List ℕ → List ℕ → Type 0
Apart [] us = Unit {0}
Apart (b ∷ bs) us = Lacks b us × Apart bs us

-- From `h` the free list runs through the blocks, and ends.
abbrev pub Chain : Memory → ℕ → List ℕ → Type 0
Chain m h [] = h ≡ 0
Chain m h (b ∷ bs) = (h ≡ b) × (0 < b) × Chain m (m b) bs

pub Chain-store :
    (m : Memory) (h p v : ℕ) (bs : List ℕ) → Lacks p bs → Chain m h bs → Chain (store m p v) h bs
unfolding store
Chain-store m h p v [] l c = c
Chain-store m h p v (b ∷ bs) l c = (c.0, c.1, rw (other) (Chain-store m (m b) p v bs l.1 c.2))
  where
    other : store m p v b ≡ m b
    other = ground (arith, l.0)

-- No address of the list is from `lo` up to `hi`.
abbrev pub Outside : ℕ → ℕ → List ℕ → Type 0
Outside lo hi [] = Unit {0}
Outside lo hi (b ∷ bs) = ((b < lo) ⊎ (hi ≤ b)) × Outside lo hi bs

Outside-Lacks : (lo hi : ℕ) (bs : List ℕ) → lo < hi → Outside lo hi bs → Lacks lo bs
Outside-Lacks lo hi [] l o = tt
Outside-Lacks lo hi (b ∷ bs) l o = (omega (arith, o.0), Outside-Lacks lo hi bs l o.1)

Outside-narrow :
    (lo lo' hi hi' : ℕ) (bs : List ℕ) → lo ≤ lo' → hi' ≤ hi → Outside lo hi bs → Outside lo' hi' bs
Outside-narrow lo lo' hi hi' [] l h o = tt
Outside-narrow lo lo' hi hi' (b ∷ bs) l h o = (
  elim o.0 [ inl x ↦ inl (omega arith) | inr x ↦ inr (omega arith) ],
  Outside-narrow lo lo' hi hi' bs l h o.1,
)

pub store_here : (m : Memory) (p v : ℕ) → store m p v p ≡ v
unfolding store
store_here m p v = ground arith

-- The free list with `n` blocks from `p` on put before it, one after the other.
unfoldable pub carve : ℕ → ℕ → ℕ → List ℕ → List ℕ
carve size zero p bs = bs
carve size (suc n) p bs = carve size n (p + size) (p ∷ bs)

pub length-carve : (size n p : ℕ) (bs : List ℕ) → length (carve size n p bs) ≡ n + length bs
unfolding carve
length-carve size zero p bs = omega arith
length-carve size (suc n) p bs = omega (arith, length-carve size n (p + size) (p ∷ bs))

-- The range of the blocks that are left to carve.
next_range :
    (size n p : ℕ) → 0 < size → (p < p + suc n * size) × (p + size + n * size ≤ p + suc n * size)
next_range size n p l = (ground arith, ground arith)

next_Outside :
    (size n p : ℕ) (bs : List ℕ)
    → 0 < size
    → Outside p (p + suc n * size) bs
    → Outside (p + size) (p + size + n * size) (p ∷ bs)
next_Outside size n p bs l o = (
  inl (omega arith),
  Outside-narrow p (p + size) (p + suc n * size) (p + size + n * size) bs (omega arith)
      (next_range size n p l).1 o,
)

pub link_blocks-Chain :
    (size n p h : ℕ) (m : Memory) (bs : List ℕ)
    → 0 < size
    → 0 < p
    → Outside p (p + n * size) bs
    → Chain m h bs
    → let (m', h') = link_blocks size n p m h in Chain m' h' (carve size n p bs)
unfolding link_blocks carve
link_blocks-Chain size zero p h m bs l k o c = c
link_blocks-Chain size (suc n) p h m bs l k o c =
    link_blocks-Chain size n (p + size) p (store m p h) (p ∷ bs) l (omega arith)
      (next_Outside size n p bs l o) (refl, k, linked)
  where
    linked : Chain (store m p h) (store m p h p) bs
    linked = rw (store_here m p h) (
        Chain-store m h p h bs (Outside-Lacks p (p + suc n * size) bs (next_range size n p l).0 o)
          c)

pub carve-Distinct :
    (size n p : ℕ) (bs : List ℕ)
    → 0 < size
    → Outside p (p + n * size) bs
    → Distinct bs
    → Distinct (carve size n p bs)
unfolding carve
carve-Distinct size zero p bs l o d = d
carve-Distinct size (suc n) p bs l o d =
    carve-Distinct size n (p + size) (p ∷ bs) l (next_Outside size n p bs l o)
      (Outside-Lacks p (p + suc n * size) bs (next_range size n p l).0 o, d)

pub carve-Apart :
    (size n p : ℕ) (bs us : List ℕ)
    → 0 < size
    → Outside p (p + n * size) us
    → Apart bs us
    → Apart (carve size n p bs) us
unfolding carve
carve-Apart size zero p bs us l o a = a
carve-Apart size (suc n) p bs us l o a =
    let r = next_range size n p l in
    carve-Apart size n (p + size) (p ∷ bs) us l
      (Outside-narrow p (p + size) (p + suc n * size) (p + size + n * size) us (omega arith) r.1 o)
      (Outside-Lacks p (p + suc n * size) us r.0 o, a)
