-- ===== src/MemoryPool/Allocator.antt =====
-- `PoolAllocator` of include/ws/memory_pool.h, which takes single objects from the pools of the
-- thread and arrays from `operator new`, and the destructor of a pool in src/memory_pool.cpp. What
-- `operator new` answers for a number of bytes is an argument. `size` is `sizeof(T)`.
pub mod Reuse
mod Tests
use cxx_epoll_http_server.Common.{
  ℕ, zero, suc, ◌*◌, ◌%◌, ◌^◌, Option, none, some, List, [], ◌∷◌, ◌==◌, if◌then◌else◌,
}
use cxx_epoll_http_server.MemoryPool.{Memory, Chunk, MemoryPool, allocate, deallocate}
use cxx_epoll_http_server.MemoryPool.Classes.{
  ThreadPools, PoolName, small_pool, big_pool, set_small, pool_of, tls_pool_for,
}

-- The reference that `tlsPoolFor` gives, written through.
unfoldable pub set_nth : ℕ → MemoryPool → List MemoryPool → List MemoryPool
set_nth j p [] = []
set_nth zero p (q ∷ qs) = p ∷ qs
set_nth (suc j) p (q ∷ qs) = q ∷ set_nth j p qs

unfoldable pub put_pool : PoolName → MemoryPool → ThreadPools → ThreadPools
put_pool (small_pool i) q tp = set_small i (some q) tp
put_pool (big_pool j) q tp = record tp { big = set_nth j q tp.big }

-- What `aligned_alloc` answers is `base` where a pool is made and `base'` where it grows.
unfoldable pub allocate_object :
    Option ℕ → Option ℕ → Memory → ℕ → ThreadPools → Option (ℕ × Memory × ThreadPools)
allocate_object base base' m size tp = elim (tls_pool_for base m size tp) [
  | none ↦ none
  | some (name, m1, tp1) ↦ elim (pool_of name tp1) [
    | none ↦ none
    | some q ↦ elim (allocate base' m1 q) [
      | none ↦ none
      | some (p, m2, q2) ↦ some (p, m2, put_pool name q2 tp1)
    ]
  ]
]

unfoldable pub deallocate_object :
    Option ℕ → ℕ → Memory → ℕ → ThreadPools → Option (Memory × ThreadPools)
deallocate_object base p m size tp = elim (tls_pool_for base m size tp) [
  | none ↦ none
  | some (name, m1, tp1) ↦ elim (pool_of name tp1) [
    | none ↦ none
    | some q ↦ let (m2, q2) = deallocate p m1 q in some (m2, put_pool name q2 tp1)
  ]
]

module _ (operator_new : ℕ → Option ℕ) where
  unfoldable pub allocator_allocate :
      Option ℕ → Option ℕ → Memory → ℕ → ℕ → ThreadPools → Option (ℕ × Memory × ThreadPools)
  allocator_allocate base base' m size n tp =
      if n == 1
      then allocate_object base base' m size tp
      else elim (operator_new (n * size % 2 ^ 64)) [ none ↦ none | some p ↦ some (p, m, tp) ]

-- The last component is what `operator delete` is called with.
unfoldable pub allocator_deallocate :
    Option ℕ → ℕ → Memory → ℕ → ℕ → ThreadPools → Option (Memory × ThreadPools × List ℕ)
allocator_deallocate base p m size n tp =
    if n == 1
    then elim (deallocate_object base p m size tp) [
      | none ↦ none
      | some (m', tp') ↦ some (m', tp', [])
    ]
    else some (m, tp, p ∷ [])

-- The calls of `free` in the destructor.
unfoldable pub free_chunks : List Chunk → List ℕ
free_chunks [] = []
free_chunks (c ∷ cs) = c.base ∷ free_chunks cs

unfoldable pub destroy_pool : MemoryPool → List ℕ
destroy_pool q = free_chunks q.chunks
