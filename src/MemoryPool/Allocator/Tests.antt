-- ===== src/MemoryPool/Allocator/Tests.antt =====
-- An array comes from `operator new` and goes back to `operator delete`. A pool that has grown frees
-- both of its chunks.
use cxx_epoll_http_server.Common.{◌+◌, ◌≡◌, refl, none, some, [], ◌∷◌}
use cxx_epoll_http_server.MemoryPool.{Memory, MemoryPool}
use cxx_epoll_http_server.MemoryPool.Classes.{no_pools}
use cxx_epoll_http_server.MemoryPool.Allocator.{
  allocator_allocate, allocator_deallocate, free_chunks, destroy_pool,
}

abbrev blank : Memory
blank a = 0

array :
    allocator_allocate (λ n. some (n + 1000)) none none blank 24 4 no_pools
    ≡ some (1096, blank, no_pools)
unfolding allocator_allocate
array = refl

array_back : allocator_deallocate none 1096 blank 24 4 no_pools ≡ some (blank, no_pools, 1096 ∷ [])
unfolding allocator_deallocate
array_back = refl

abbrev grown_pool : MemoryPool
grown_pool = record {
  block_size = 32;
  blocks_per_chunk = 2;
  chunks = (record { base = 4096; bytes = 64 }) ∷ (record { base = 8192; bytes = 64 }) ∷ [];
  free_list = 8224;
  in_use = 0;
  capacity = 4;
}

destroyed : destroy_pool grown_pool ≡ 4096 ∷ 8192 ∷ []
unfolding destroy_pool free_chunks
destroyed = refl
