-- ===== src/MemoryPool/Allocator/Reuse.antt =====
-- An object that is given back goes to the pool that it came from.
use cxx_epoll_http_server.Common.{
  ℕ, zero, suc, ◌^◌, ◌<◌, ◌≡◌, ◌≢◌, refl, sym, ap, subst, ◌∙◌, Option, none, some, List, [], ◌∷◌,
  ◌++◌, ◌==◌, if◌then◌else◌, if_true, if_false, add_size, sub_size, arith,
}
use native.Mathlib.Decide.{ℕ_discrete}
use cxx_epoll_http_server.MemoryPool.{
  Memory, MemoryPool, store, normalize_block_size, grow, new_pool, take_block, allocate, deallocate,
}
use cxx_epoll_http_server.MemoryPool.Classes.{
  size_classes, ThreadPools, PoolName, small_pool, big_pool, class_for, find_big, set_small,
  nth_pool, count_pools, pool_of, small_pool_for, big_pool_for, tls_pool_for,
}
use cxx_epoll_http_server.MemoryPool.Classes.Small.{small_same}
use cxx_epoll_http_server.MemoryPool.Allocator.{
  set_nth, put_pool, allocate_object, deallocate_object, allocator_allocate, allocator_deallocate,
}

nth_pool-set_nth :
    (j : ℕ) (p q : MemoryPool) (qs : List MemoryPool)
    → nth_pool qs j ≡ some q
    → nth_pool (set_nth j p qs) j ≡ some p
unfolding nth_pool set_nth
nth_pool-set_nth j p q [] e = cc
nth_pool-set_nth zero p q (x ∷ xs) e = refl
nth_pool-set_nth (suc j) p q (x ∷ xs) e = nth_pool-set_nth j p q xs e

pool_of-put_pool :
    (name : PoolName) (p q : MemoryPool) (tp : ThreadPools)
    → pool_of name tp ≡ some q
    → pool_of name (put_pool name p tp) ≡ some p
unfolding pool_of put_pool
pool_of-put_pool (small_pool i) p q tp e = small_same i (some p) tp
pool_of-put_pool (big_pool j) p q tp e = nth_pool-set_nth j p q tp.big e

find_big-set_nth :
    (size i j : ℕ) (p q : MemoryPool) (qs : List MemoryPool)
    → nth_pool qs j ≡ some q
    → p.block_size ≡ q.block_size
    → find_big size i (set_nth j p qs) ≡ find_big size i qs
unfolding nth_pool set_nth find_big
find_big-set_nth size i j p q [] e b = cc
find_big-set_nth size i zero p q (x ∷ xs) e b =
    let s : q ≡ x = cc in
    ap (λ k. if k == size then some i else find_big size (suc i) xs) (b ∙ ap (λ x. x.block_size) s)
find_big-set_nth size i (suc j) p q (x ∷ xs) e b =
    ap (λ o. if x.block_size == size then some i else o)
      (find_big-set_nth size (suc i) j p q xs e b)

abbrev Answer : Type 0
Answer = Option (PoolName × Memory × ThreadPools)

-- The name of the pool in an answer.
abbrev name_in : PoolName → Answer → PoolName
name_in n none = n
name_in n (some x) = x.0

-- A pool that `tlsPoolFor` finds without making one, it finds again behind a change that keeps its
-- block size.
module _ (m m2 : Memory) (tp : ThreadPools) (name : PoolName) (p q : MemoryPool)
    (here : pool_of name tp ≡ some q) (b : p.block_size ≡ q.block_size) (base : Option ℕ) where
  abbrev Again : (Option ℕ → Memory → ThreadPools → Answer) → Type 0
  Again f =
      f none m tp ≡ some (name, m, tp)
      → f base m2 (put_pool name p tp) ≡ some (name, m2, put_pool name p tp)

  small_pool_for-Again : (i c : ℕ) → Again (λ b m tp. small_pool_for b m i c tp)
  unfolding small_pool_for new_pool grow put_pool
  small_pool_for-Again i c = split (tp.small i)
    where
      -- The answer where the array has `o`.
      answer : Option ℕ → Memory → ThreadPools → Option MemoryPool → Answer
      answer base m tp o = elim o as (λ _. Answer) [
        | some q ↦ some (small_pool i, m, tp)
        | none ↦ elim (new_pool c 512 base m) as (λ _. Answer) [
          | none ↦ none
          | some (m', q) ↦ some (small_pool i, m', set_small i (some q) tp)
        ]
      ]

      split :
          (o : Option MemoryPool)
          → answer none m tp o ≡ some (name, m, tp)
          → answer base m2 (put_pool name p tp) ((put_pool name p tp).small i)
            ≡ some (name, m2, put_pool name p tp)
      split none e = cc
      split (some x) e =
          subst
            (λ n.
              answer base m2 (put_pool n p tp) ((put_pool n p tp).small i)
              ≡ some (n, m2, put_pool n p tp))
            (ap (name_in name) e)
            (ap (answer base m2 (set_small i (some p) tp)) (small_same i (some p) tp))

  big_pool_for-Again : (size : ℕ) → Again (λ b m tp. big_pool_for b m size tp)
  unfolding big_pool_for new_pool grow put_pool pool_of
  big_pool_for-Again size = split (find_big size 0 tp.big) refl
    where
      -- The answer where the search among the larger pools has found `o`.
      answer : Option ℕ → Memory → ThreadPools → Option ℕ → Answer
      answer base m tp o = elim o as (λ _. Answer) [
        | some j ↦ some (big_pool j, m, tp)
        | none ↦ elim (new_pool size 16 base m) as (λ _. Answer) [
          | none ↦ none
          | some (m', q) ↦
              some (big_pool (count_pools tp.big), m', record tp { big = tp.big ++ q ∷ [] })
        ]
      ]

      found : (j : ℕ) → name ≡ big_pool j → nth_pool tp.big j ≡ some q
      found j n = subst (λ n. pool_of n tp ≡ some q) n here

      split :
          (o : Option ℕ)
          → find_big size 0 tp.big ≡ o
          → answer none m tp o ≡ some (name, m, tp)
          → answer base m2 (put_pool name p tp) (find_big size 0 (put_pool name p tp).big)
            ≡ some (name, m2, put_pool name p tp)
      split none f e = cc
      split (some j) f e =
          let n : big_pool j ≡ name = ap (name_in name) e in
          subst
            (λ n.
              answer base m2 (put_pool n p tp) (find_big size 0 (put_pool n p tp).big)
              ≡ some (n, m2, put_pool n p tp))
            n
            (ap (answer base m2 (put_pool (big_pool j) p tp))
              (find_big-set_nth size 0 j p q tp.big (found j (sym n)) b ∙ f))

  tls_pool_for-Again : (size : ℕ) → Again (λ b m tp. tls_pool_for b m size tp)
  unfolding tls_pool_for
  tls_pool_for-Again size = split (class_for size 0 size_classes)
    where
      split :
          (o : Option (ℕ × ℕ))
          → Again (λ b m tp. elim o as (λ _. Answer) [
            | some (i, c) ↦ small_pool_for b m i c tp
            | none ↦ big_pool_for b m (normalize_block_size size) tp
          ])
      split none = big_pool_for-Again (normalize_block_size size)
      split (some (i, c)) = small_pool_for-Again i c

-- Taking the first block and giving it back leaves the pool and the memory.
taken : Memory → MemoryPool → MemoryPool
taken m q = record q { free_list = m q.free_list; in_use = add_size q.in_use 1 }

allocate-taken :
    (base : Option ℕ) (m : Memory) (q : MemoryPool)
    → q.free_list ≢ 0
    → allocate base m q ≡ some (q.free_list, m, taken m q)
unfolding allocate take_block taken
allocate-taken base m q n = if_false (q.free_list == 0) _ _ (ground (arith, n))

deallocate-taken :
    (m : Memory) (q : MemoryPool)
    → q.free_list ≢ 0
    → q.in_use < 2 ^ 64
    → deallocate q.free_list m (taken m q) ≡ (store m q.free_list (m q.free_list), q)
unfolding deallocate taken
deallocate-taken m q n l =
    if_false (q.free_list == 0) _ _ (ground (arith, n))
    ∙ ap (λ u. (store m q.free_list (m q.free_list), record q { in_use = u })) count
  where
    count : sub_size (add_size q.in_use 1) 1 ≡ q.in_use
    count = omega (arith, l)

store_own : (m : Memory) (a x : ℕ) → store m a (m a) x ≡ m x
unfolding store
store_own m a x = elim (ℕ_discrete x a) [
  | yes e ↦ if_true (x == a) _ _ (ground (arith, e)) ∙ ap m (sym e)
  | no n ↦ if_false (x == a) _ _ (ground (arith, n))
]

allocate_object-found :
    (base base' : Option ℕ) (m : Memory) (size : ℕ) (tp : ThreadPools) (name : PoolName)
    (q : MemoryPool)
    → tls_pool_for base m size tp ≡ some (name, m, tp)
    → pool_of name tp ≡ some q
    → q.free_list ≢ 0
    → allocate_object base base' m size tp ≡ some (q.free_list, m, put_pool name (taken m q) tp)
unfolding allocate_object
allocate_object-found base base' m size tp name q e h n =
    rw (allocate_object, e, h, allocate-taken base' m q n) refl

deallocate_object-found :
    (base : Option ℕ) (p : ℕ) (m : Memory) (size : ℕ) (tp : ThreadPools) (name : PoolName)
    (q : MemoryPool)
    → tls_pool_for base m size tp ≡ some (name, m, tp)
    → pool_of name tp ≡ some q
    → deallocate_object base p m size tp
      ≡ some ((deallocate p m q).0, put_pool name (deallocate p m q).1 tp)
unfolding deallocate_object
deallocate_object-found base p m size tp name q e h = rw (deallocate_object, e, h) refl

-- Where the pool of a size exists and has a free block, `allocate` of one object gives its first
-- block, and `deallocate` of it gives it back to this pool, which is then as it was, and so is the
-- memory at each address; neither calls `operator delete`. The count of blocks in use is a size_t.
pub allocate-deallocate :
    (operator_new : ℕ → Option ℕ) (base base' base2 : Option ℕ) (m : Memory) (size : ℕ)
    (tp : ThreadPools) (name : PoolName) (q : MemoryPool)
    → ((base : Option ℕ) → tls_pool_for base m size tp ≡ some (name, m, tp))
    → pool_of name tp ≡ some q
    → q.free_list ≢ 0
    → q.in_use < 2 ^ 64
    → (tp1 : ThreadPools) × (m2 : Memory) × (tp2 : ThreadPools) × (allocator_allocate operator_new
          base base' m size 1 tp
        ≡ some (q.free_list, m, tp1))
      × (allocator_deallocate base2 q.free_list m size 1 tp1 ≡ some (m2, tp2, []))
      × (pool_of name tp2 ≡ some q)
      × ((x : ℕ) → m2 x ≡ m x)
unfolding allocator_allocate allocator_deallocate taken
allocate-deallocate operator_new base base' base2 m size tp name q f h n l =
    let tp1 = put_pool name (taken m q) tp in
    let h1 = pool_of-put_pool name (taken m q) q tp h in
    let e1 = tls_pool_for-Again m m tp name (taken m q) q h refl base2 size (f none) in
    (
      tp1,
      store m q.free_list (m q.free_list),
      put_pool name q tp1,
      allocate_object-found base base' m size tp name q (f base) h n,
      rw
          (
            deallocate_object-found base2 q.free_list m size tp1 name (taken m q) e1 h1,
            deallocate-taken m q n l,
          )
          refl,
      pool_of-put_pool name q (taken m q) tp1 h1,
      store_own m q.free_list,
    )
