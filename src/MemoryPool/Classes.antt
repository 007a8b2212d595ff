-- ===== src/MemoryPool/Classes.antt =====
-- `tlsPoolFor` of src/memory_pool.cpp: the pools of a thread, one for each class of small sizes and
-- one for each larger size. A pool is named by its class or by its place among the larger ones.
-- The array of the small pools is a function.
pub mod Small
pub mod Choice
mod Tests
use cxx_epoll_http_server.Common.{
  ℕ, zero, suc, ◌+◌, ◌*◌, ◌%◌, ◌^◌, Bool, Option, none, some, List, [], ◌∷◌, ◌++◌, leb, ◌==◌,
  if◌then◌else◌,
}
use cxx_epoll_http_server.MemoryPool.{MemoryPool, Memory, normalize_block_size, new_pool}

abbrev pub size_classes : List ℕ
size_classes = 16 ∷ 32 ∷ 64 ∷ 128 ∷ 256 ∷ 512 ∷ 1024 ∷ 2048 ∷ 4096 ∷ []

pub record ThreadPools : Type 0 where
  pub small : ℕ → Option MemoryPool
  pub big : List MemoryPool

abbrev pub no_pools : ThreadPools
no_pools = record { small = λ i. none; big = [] }

pub data PoolName : Type 0 where
  small_pool big_pool : ℕ → PoolName

-- The first class that is large enough, and its place, from `i` on.
unfoldable pub class_for : ℕ → ℕ → List ℕ → Option (ℕ × ℕ)
class_for size i [] = none
class_for size i (c ∷ cs) =
    let rest = class_for size (suc i) cs in if leb size c then some (i, c) else rest

-- The place of the first pool of this block size, from `j` on.
unfoldable pub find_big : ℕ → ℕ → List MemoryPool → Option ℕ
find_big size j [] = none
find_big size j (q ∷ qs) =
    let rest = find_big size (suc j) qs in if q.block_size == size then some j else rest

unfoldable pub set_small : ℕ → Option MemoryPool → ThreadPools → ThreadPools
set_small i o tp = record tp { small = λ k. if k == i then o else tp.small k }

unfoldable pub nth_pool : List MemoryPool → ℕ → Option MemoryPool
nth_pool [] j = none
nth_pool (q ∷ qs) zero = some q
nth_pool (q ∷ qs) (suc j) = nth_pool qs j

unfoldable pub pool_of : PoolName → ThreadPools → Option MemoryPool
pool_of (small_pool i) tp = tp.small i
pool_of (big_pool j) tp = nth_pool tp.big j

unfoldable pub count_pools : List MemoryPool → ℕ
count_pools [] = 0
count_pools (q ∷ qs) = suc (count_pools qs)

unfoldable pub small_pool_for :
    Option ℕ → Memory → ℕ → ℕ → ThreadPools → Option (PoolName × Memory × ThreadPools)
small_pool_for base m i c tp = elim (tp.small i) [
  | some q ↦ some (small_pool i, m, tp)
  | none ↦ elim (new_pool c 512 base m) [
    | none ↦ none
    | some (m', q) ↦ some (small_pool i, m', set_small i (some q) tp)
  ]
]

unfoldable pub big_pool_for :
    Option ℕ → Memory → ℕ → ThreadPools → Option (PoolName × Memory × ThreadPools)
big_pool_for base m size tp = elim (find_big size 0 tp.big) [
  | some j ↦ some (big_pool j, m, tp)
  | none ↦ elim (new_pool size 16 base m) [
    | none ↦ none
    | some (m', q) ↦ some (big_pool (count_pools tp.big), m', record tp { big = tp.big ++ q ∷ [] })
  ]
]

-- `none` is the exception for an allocation that failed.
unfoldable pub tls_pool_for :
    Option ℕ → Memory → ℕ → ThreadPools → Option (PoolName × Memory × ThreadPools)
tls_pool_for base m size tp = elim (class_for size 0 size_classes) [
  | some (i, c) ↦ small_pool_for base m i c tp
  | none ↦ big_pool_for base m (normalize_block_size size) tp
]
