-- ===== src/MemoryPool/Classes/Choice.antt =====
-- Which pool a size gets.
use cxx_epoll_http_server.Common.{
  ℕ, suc, ◌+◌, ◌^◌, ◌≤◌, ◌<◌, ◌≡◌, refl, ap, subst, ◌∙◌, Bool, true, false, Option, none, some,
  List, [], ◌∷◌, ◌++◌, ◌==◌, if◌then◌else◌, if_true, arith,
}
use cxx_epoll_http_server.MemoryPool.{MemoryPool, Memory, round_up, normalize_block_size, new_pool}
use cxx_epoll_http_server.MemoryPool.Classes.{
  size_classes, ThreadPools, PoolName, big_pool, class_for, find_big, nth_pool, pool_of,
  count_pools, small_pool_for, big_pool_for, tls_pool_for,
}
use cxx_epoll_http_server.MemoryPool.Classes.Small.{
  size_at, Found, class_for-Found, size_classes-Normal, IsValid, fresh, Chosen,
  small_pool_for-Chosen,
}

find_big-nth :
    (size j k : ℕ) (qs : List MemoryPool)
    → find_big size j qs ≡ some k
    → (i : ℕ) × (k ≡ j + i) × ((q : MemoryPool) × (nth_pool qs i ≡ some q) × (q.block_size ≡ size))
unfolding find_big nth_pool
find_big-nth size j k [] e = cc
find_big-nth size j k (q ∷ qs) e =
    split (λ l. find_big-nth size (suc j) k qs l) (q.block_size == size) refl e
  where
    split :
        (find_big size (suc j) qs ≡ some k
          → (i : ℕ) × (k ≡ suc j + i)
            × ((p : MemoryPool) × (nth_pool qs i ≡ some p) × (p.block_size ≡ size)))
        → (b : Bool) → (q.block_size == size) ≡ b
        → (if b then some j else find_big size (suc j) qs) ≡ some k
        → (i : ℕ) × (k ≡ j + i)
          × ((p : MemoryPool) × (nth_pool (q ∷ qs) i ≡ some p) × (p.block_size ≡ size))
    split f true h e = let s : j ≡ k = cc in (0, omega arith, (q, refl, ground (arith, h)))
    split f false h e = let (i, l, r) = f e in (suc i, omega arith, r)

find_big-append :
    (size j : ℕ) (q : MemoryPool) (qs : List MemoryPool)
    → find_big size j qs ≡ none
    → q.block_size ≡ size
    → find_big size j (qs ++ q ∷ []) ≡ some (j + count_pools qs)
unfolding find_big count_pools
find_big-append size j q [] e b =
    if_true (q.block_size == size) _ _ (ground (arith, b)) ∙ ap some (omega arith)
find_big-append size j q (p ∷ qs) e b =
    split (λ n. find_big-append size (suc j) q qs n b) (p.block_size == size) e
  where
    split :
        (find_big size (suc j) qs ≡ none
          → find_big size (suc j) (qs ++ q ∷ []) ≡ some (suc j + count_pools qs))
        → (b : Bool) → (if b then some j else find_big size (suc j) qs) ≡ none
        → (if b then some j else find_big size (suc j) (qs ++ q ∷ []))
          ≡ some (j + suc (count_pools qs))
    split f true e = cc
    split f false e = f e ∙ ap some (omega arith)

nth-append :
    (q : MemoryPool) (qs : List MemoryPool) → nth_pool (qs ++ q ∷ []) (count_pools qs) ≡ some q
unfolding nth_pool count_pools
nth-append q [] = refl
nth-append q (p ∷ qs) = nth-append q qs

-- The pool of a large size: found among those that are there, or behind them.
big_found :
    (base : Option ℕ) (m : Memory) (size j : ℕ) (tp : ThreadPools)
    → find_big size 0 tp.big ≡ some j
    → big_pool_for base m size tp ≡ some (big_pool j, m, tp)
unfolding big_pool_for
big_found base m size j tp e =
    ap
      (λ (o : Option ℕ). elim o as (λ _. Option (PoolName × Memory × ThreadPools)) [
        | some j ↦ some (big_pool j, m, tp)
        | none ↦ elim (new_pool size 16 base m) as (λ _. Option (PoolName × Memory × ThreadPools)) [
          | none ↦ none
          | some (m', q) ↦
              some (big_pool (count_pools tp.big), m', record tp { big = tp.big ++ q ∷ [] })
        ]
      ])
      e

big_new :
    (base : ℕ) (m m' : Memory) (size : ℕ) (tp : ThreadPools) (q : MemoryPool)
    → find_big size 0 tp.big ≡ none
    → new_pool size 16 (some base) m ≡ some (m', q)
    → big_pool_for (some base) m size tp
      ≡ some (big_pool (count_pools tp.big), m', record tp { big = tp.big ++ q ∷ [] })
unfolding big_pool_for
big_new base m m' size tp q e n =
    ap
      (λ (o : Option ℕ). elim o as (λ _. Option (PoolName × Memory × ThreadPools)) [
        | some j ↦ some (big_pool j, m, tp)
        | none ↦
            elim (new_pool size 16 (some base) m)
              as (λ _. Option (PoolName × Memory × ThreadPools)) [
                | none ↦ none
                | some (m', q) ↦
                    some (big_pool (count_pools tp.big), m', record tp { big = tp.big ++ q ∷ [] })
              ]
      ])
      e
    ∙ ap
        (λ (o : Option (Memory × MemoryPool)).
          elim o as (λ _. Option (PoolName × Memory × ThreadPools)) [
            | none ↦ none
            | some (m', q) ↦
                some (big_pool (count_pools tp.big), m', record tp { big = tp.big ++ q ∷ [] })
          ])
        n

big_pool_for-Chosen :
    (want size base : ℕ) (m : Memory) (tp : ThreadPools)
    → IsValid tp
    → want ≤ size
    → normalize_block_size size ≡ size
    → Chosen want (some base) m tp (λ b m tp. big_pool_for b m size tp)
unfolding pool_of IsValid
big_pool_for-Chosen want size base m tp v l n = split (find_big size 0 tp.big) refl
  where
    split :
        (o : Option ℕ)
        → find_big size 0 tp.big ≡ o
        → Chosen want (some base) m tp (λ b m tp. big_pool_for b m size tp)
    split (some j) e =
        let (i, s, (q, t, b)) = find_big-nth size 0 j tp.big e in
        let place : j ≡ i = omega (arith, s) in
        (
          big_pool j,
          m,
          tp,
          big_found _ m size j tp e,
          v,
          (q, ap (nth_pool tp.big) place ∙ t, omega (arith, b)),
          λ b2 m2. big_found b2 m2 size j tp e,
        )
    split none e =
        let (m', q, f, b) = fresh size 16 base m in
        let tp' : ThreadPools = record tp { big = tp.big ++ q ∷ [] } in
        (
          big_pool (count_pools tp.big),
          m',
          tp',
          big_new base m m' size tp q e f,
          v,
          (q, nth-append q tp.big, omega (arith, b, n)),
          λ b2 m2.
              big_found b2 m2 size (count_pools tp.big) tp'
                (find_big-append size 0 q tp.big e (b ∙ n) ∙ ap some (omega arith)),
        )

normalized_again :
    (size : ℕ)
    → size < 2 ^ 63
    → (size ≤ normalize_block_size size)
      × (normalize_block_size (normalize_block_size size) ≡ normalize_block_size size)
unfolding normalize_block_size round_up
normalized_again size h = (ground arith, ground arith)

-- For a size below 2^63, and pools of a thread whose small ones have the block size of their
-- class, `tlsPoolFor` gives a pool whose blocks are large enough, if the system has memory, and
-- keeps this; and it gives the same pool, and makes none, when it is asked for that size again.
pub tls_pool_for_lem :
    (size base : ℕ) (m : Memory) (tp : ThreadPools)
    → size < 2 ^ 63
    → IsValid tp
    → (name : PoolName) × (m' : Memory) × (tp' : ThreadPools) × (tls_pool_for (some base) m size tp
        ≡ some (name, m', tp'))
      × IsValid tp'
      × ((q : MemoryPool) × (pool_of name tp' ≡ some q) × (size ≤ q.block_size))
      × ((base2 : Option ℕ) (m2 : Memory) → tls_pool_for base2 m2 size tp' ≡ some (name, m2, tp'))
unfolding tls_pool_for
tls_pool_for_lem size base m tp h v =
    split (class_for size 0 size_classes) (class_for-Found size 0 size_classes size_classes-Normal)
  where
    split :
        (o : Option (ℕ × ℕ))
        → Found size 0 size_classes o
        → Chosen size (some base) m tp (λ b m tp.
          elim o as (λ _. Option (PoolName × Memory × ThreadPools)) [
            | some (i, c) ↦ small_pool_for b m i c tp
            | none ↦ big_pool_for b m (normalize_block_size size) tp
          ])
    split none f =
        let n = normalized_again size h in
        big_pool_for-Chosen size (normalize_block_size size) base m tp v n.0 n.1
    split (some (i, c)) f = small_pool_for-Chosen size base i c m tp v f.0 f.1 (
        let e : f.2.0 ≡ i = omega (arith, f.2.1) in subst (λ k. size_at size_classes k ≡ c) e f.2.2)
