-- ===== src/MemoryPool/Tests.antt =====
-- Runs of the pool, and inputs at which its theorems hold.
use cxx_epoll_http_server.Common.{ℕ, ◌≡◌, refl, some, [], ◌∷◌, arith, inl}
use cxx_epoll_http_server.MemoryPool.{
  Memory, store, MemoryPool, round_up, normalize_block_size, link_blocks, chunk_bytes, grow,
  new_pool, allocate, deallocate, take_block,
}
use cxx_epoll_http_server.MemoryPool.Ownership.{IsValid, Given, deallocate-IsValid, allocate_lem}

-- What a run of the pool computes with.
whole_pool : ℕ
unfolding round_up normalize_block_size store link_blocks chunk_bytes grow new_pool allocate
    deallocate take_block
whole_pool = 0

abbrev blank : Memory
blank a = 0

-- A pool of two blocks of 32 bytes, both given away.
abbrev spent : MemoryPool
spent = record {
  block_size = 32;
  blocks_per_chunk = 2;
  chunks = [];
  free_list = 0;
  in_use = 2;
  capacity = 2;
}

spent-IsValid : IsValid blank spent [] (4128 ∷ 4096 ∷ [])
spent-IsValid = record {
  linked = refl;
  distinct_free = tt;
  distinct_used = ground arith;
  apart = tt;
  used_count = refl;
  all_count = refl;
  bounded = omega arith;
  some_size = omega arith;
  some_blocks = omega arith;
}

rounded : normalize_block_size 24 ≡ 32
unfolding whole_pool
rounded = refl

allocate_lem_example : Given blank spent (4128 ∷ 4096 ∷ []) (allocate (some 8192) blank spent)
allocate_lem_example =
    allocate_lem 8192 blank spent [] (4128 ∷ 4096 ∷ []) spent-IsValid (omega arith)
      (omega arith, (inl (omega arith), (inl (omega arith), tt)))

deallocate-IsValid_example :
    let (m', q') = deallocate 4096 blank spent in IsValid m' q' (4096 ∷ []) (4128 ∷ [])
deallocate-IsValid_example =
    deallocate-IsValid blank spent [] (4128 ∷ []) [] 4096 (omega arith) spent-IsValid
