-- ===== src/MemoryPool.antt =====
-- include/ws/memory_pool.h and src/memory_pool.cpp: a pool of blocks of one size, with the free
-- ones linked through their first word. The memory is a function from an address to the pointer
-- that is stored there; the pool reads and writes it at the starts of blocks alone. 0 is the null
-- pointer. What `aligned_alloc` answers is an argument, `none` for null.
pub mod Blocks
pub mod Ownership
pub mod Classes
pub mod Allocator
mod Tests
use cxx_epoll_http_server.Common.{
  ℕ, zero, suc, ◌+◌, ◌-◌, ◌*◌, ◌/◌, ◌%◌, ◌^◌, Bool, Option, none, some, List, [], ◌∷◌, ◌++◌, ltb,
  ◌==◌, if◌then◌else◌, add_size, sub_size, max,
}

abbrev pub pool_align : ℕ
pool_align = 16

-- `(s + kAlign - 1) & ~(kAlign - 1)`.
unfoldable pub round_up : ℕ → ℕ
round_up s = (s + (pool_align - 1)) % 2 ^ 64 / pool_align * pool_align

-- A pointer has eight bytes.
unfoldable pub normalize_block_size : ℕ → ℕ
normalize_block_size s =
    let s1 = if ltb s 8 then 8 else s in
    let s2 = if ltb s1 pool_align then pool_align else s1 in round_up s2

abbrev pub Memory : Type 0
Memory = ℕ → ℕ

unfoldable pub store : Memory → ℕ → ℕ → Memory
store m a v x = if x == a then v else m x

pub record Chunk : Type 0 where
  pub base : ℕ
  pub bytes : ℕ

pub record MemoryPool : Type 0 where
  pub block_size : ℕ
  pub blocks_per_chunk : ℕ
  pub chunks : List Chunk
  pub free_list : ℕ
  pub in_use : ℕ
  pub capacity : ℕ

-- The loop of `grow`: `n` more blocks, the next at `p`, before the free list `h`.
unfoldable pub link_blocks : ℕ → ℕ → ℕ → Memory → ℕ → Memory × ℕ
link_blocks size zero p m h = (m, h)
link_blocks size (suc n) p m h = link_blocks size n (p + size) (store m p h) p

unfoldable pub chunk_bytes : MemoryPool → ℕ
chunk_bytes q = round_up (q.block_size * q.blocks_per_chunk % 2 ^ 64)

-- `none` is the exception for an allocation that failed.
unfoldable pub grow : Option ℕ → Memory → MemoryPool → Option (Memory × MemoryPool)
grow none m q = none
grow (some base) m q =
    let (m', h) = link_blocks q.block_size q.blocks_per_chunk base m q.free_list in
    some (
      m',
      record q {
        chunks = q.chunks ++ (record { base = base; bytes = chunk_bytes q }) ∷ [];
        capacity = add_size q.capacity q.blocks_per_chunk;
        free_list = h;
      },
    )

unfoldable pub new_pool : ℕ → ℕ → Option ℕ → Memory → Option (Memory × MemoryPool)
new_pool block_size blocks_per_chunk base m = grow base m (record {
  block_size = normalize_block_size block_size;
  blocks_per_chunk = if blocks_per_chunk == 0 then 1 else blocks_per_chunk;
  chunks = [];
  free_list = 0;
  in_use = 0;
  capacity = 0;
})

-- The block in front of the free list.
unfoldable pub take_block : Memory × MemoryPool → ℕ × Memory × MemoryPool
take_block (m, q) =
    (q.free_list, m, record q { free_list = m q.free_list; in_use = add_size q.in_use 1 })

unfoldable pub allocate : Option ℕ → Memory → MemoryPool → Option (ℕ × Memory × MemoryPool)
allocate base m q =
    if q.free_list == 0
    then elim (grow base m q) [ none ↦ none | some x ↦ some (take_block x) ]
    else some (take_block (m, q))

unfoldable pub deallocate : ℕ → Memory → MemoryPool → Memory × MemoryPool
deallocate p m q =
    if p == 0
    then (m, q)
    else (store m p q.free_list, record q { free_list = p; in_use = sub_size q.in_use 1 })
