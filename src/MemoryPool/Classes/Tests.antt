-- ===== src/MemoryPool/Classes/Tests.antt =====
-- The pools of a thread that has none yet.
use cxx_epoll_http_server.Common.{ℕ, ◌≤◌, ◌≡◌, Option, some, refl, arith}
use cxx_epoll_http_server.MemoryPool.{MemoryPool, Memory}
use cxx_epoll_http_server.MemoryPool.Classes.{
  ThreadPools, no_pools, PoolName, pool_of, tls_pool_for, class_for, size_classes,
}
use cxx_epoll_http_server.MemoryPool.Classes.Small.{IsValid}
use cxx_epoll_http_server.MemoryPool.Classes.Choice.{tls_pool_for_lem}

hundred_bytes : class_for 100 0 size_classes ≡ some (3, 128)
unfolding class_for
hundred_bytes = refl

no_pools-IsValid : IsValid no_pools
unfolding IsValid
no_pools-IsValid i q e = cc

tls_pool_for_lem_example :
    (name : PoolName) × (m' : Memory) × (tp' : ThreadPools) × (tls_pool_for
        (some 4096)
        (λ a. 0)
        100
        no_pools
      ≡ some (name, m', tp'))
    × IsValid tp'
    × ((q : MemoryPool) × (pool_of name tp' ≡ some q) × (100 ≤ q.block_size))
    × ((base2 : Option ℕ) (m2 : Memory) → tls_pool_for base2 m2 100 tp' ≡ some (name, m2, tp'))
tls_pool_for_lem_example =
    tls_pool_for_lem 100 4096 (λ a. 0) no_pools (omega arith) no_pools-IsValid
