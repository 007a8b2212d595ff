-- ===== src/MemoryPool/Classes/Small.antt =====
-- The classes of sizes, and the pools of small sizes.
use cxx_epoll_http_server.Common.{
  ℕ, zero, suc, ◌+◌, ◌≤◌, ◌≡◌, refl, sym, ap, ◌∙◌, Option, none, some, List, [], ◌∷◌, leb, ◌==◌,
  ==_refl, if◌then◌else◌, if_cases, if_false, arith,
}
use native.Mathlib.Decide.{ℕ_discrete}
use cxx_epoll_http_server.MemoryPool.{
  MemoryPool, Memory, round_up, normalize_block_size, new_pool, grow,
}
use cxx_epoll_http_server.MemoryPool.Classes.{
  size_classes, ThreadPools, PoolName, small_pool, class_for, set_small, pool_of, small_pool_for,
}

-- The class in a place.
abbrev pub size_at : List ℕ → ℕ → ℕ
size_at [] i = 0
size_at (c ∷ cs) zero = c
size_at (c ∷ cs) (suc i) = size_at cs i

abbrev pub Normal : List ℕ → Type 0
Normal [] = Unit {0}
Normal (c ∷ cs) = (normalize_block_size c ≡ c) × Normal cs

-- What the search from place `i` finds: a class in its place that is large enough.
abbrev pub Found : ℕ → ℕ → List ℕ → Option (ℕ × ℕ) → Type 0
Found size i cs none = Unit {0}
Found size i cs (some (j, c)) =
    (size ≤ c) × (normalize_block_size c ≡ c) × ((k : ℕ) × (j ≡ i + k) × (size_at cs k ≡ c))

next-Found :
    (size i c : ℕ) (cs : List ℕ) (o : Option (ℕ × ℕ))
    → Found size (suc i) cs o
    → Found size i (c ∷ cs) o
next-Found size i c cs none f = tt
next-Found size i c cs (some (j, d)) f = (f.0, f.1, (suc f.2.0, omega (arith, f.2.1), f.2.2))

pub class_for-Found : (size i : ℕ) (cs : List ℕ) → Normal cs → Found size i cs (class_for size i cs)
unfolding class_for
class_for-Found size i [] n = tt
class_for-Found size i (c ∷ cs) n =
    let rest =
      next-Found size i c cs (class_for size (suc i) cs) (class_for-Found size (suc i) cs n.1) in
    if_cases (Found size i (c ∷ cs)) (leb size c)
      (λ l. (ground (arith, l), n.0, (0, omega arith, refl))) (λ _. rest)

pub size_classes-Normal : Normal size_classes
unfolding normalize_block_size round_up
size_classes-Normal = (refl, (refl, (refl, (refl, (refl, (refl, (refl, (refl, (refl, tt)))))))))

-- Each small pool has the block size of its class.
unfoldable pub IsValid : ThreadPools → Type 0
IsValid tp = (i : ℕ) (q : MemoryPool) → tp.small i ≡ some q → q.block_size ≡ size_at size_classes i

pub fresh :
    (c n base : ℕ) (m : Memory)
    → (m' : Memory) × (q : MemoryPool) × (new_pool c n (some base) m ≡ some (m', q))
      × (q.block_size ≡ normalize_block_size c)
unfolding new_pool grow
fresh c n base m = (_, _, refl, refl)

small_again :
    (base : Option ℕ) (m : Memory) (i c : ℕ) (tp : ThreadPools) (q : MemoryPool)
    → tp.small i ≡ some q
    → small_pool_for base m i c tp ≡ some (small_pool i, m, tp)
unfolding small_pool_for
small_again base m i c tp q e =
    ap
      (λ (o : Option MemoryPool). elim o as (λ _. Option (PoolName × Memory × ThreadPools)) [
        | some q ↦ some (small_pool i, m, tp)
        | none ↦ elim (new_pool c 512 base m) as (λ _. Option (PoolName × Memory × ThreadPools)) [
          | none ↦ none
          | some (m', q) ↦ some (small_pool i, m', set_small i (some q) tp)
        ]
      ])
      e

small_new :
    (base : ℕ) (m m' : Memory) (i c : ℕ) (tp : ThreadPools) (q : MemoryPool)
    → tp.small i ≡ none
    → new_pool c 512 (some base) m ≡ some (m', q)
    → small_pool_for (some base) m i c tp ≡ some (small_pool i, m', set_small i (some q) tp)
unfolding small_pool_for
small_new base m m' i c tp q e n =
    ap
      (λ (o : Option MemoryPool). elim o as (λ _. Option (PoolName × Memory × ThreadPools)) [
        | some q ↦ some (small_pool i, m, tp)
        | none ↦
            elim (new_pool c 512 (some base) m) as (λ _. Option (PoolName × Memory × ThreadPools)) [
              | none ↦ none
              | some (m', q) ↦ some (small_pool i, m', set_small i (some q) tp)
            ]
      ])
      e
    ∙ ap
        (λ (o : Option (Memory × MemoryPool)).
          elim o as (λ _. Option (PoolName × Memory × ThreadPools)) [
            | none ↦ none
            | some (m', q) ↦ some (small_pool i, m', set_small i (some q) tp)
          ])
        n

-- A pool for `size`, in pools that are valid, which is found again.
abbrev pub Chosen :
    ℕ
    → Option ℕ
    → Memory
    → ThreadPools
    → (Option ℕ → Memory → ThreadPools → Option (PoolName × Memory × ThreadPools))
    → Type 0
Chosen size base m tp get =
    (name : PoolName) × (m' : Memory) × (tp' : ThreadPools) × (get base m tp ≡ some (name, m', tp'))
    × IsValid tp'
    × ((q : MemoryPool) × (pool_of name tp' ≡ some q) × (size ≤ q.block_size))
    × ((base2 : Option ℕ) (m2 : Memory) → get base2 m2 tp' ≡ some (name, m2, tp'))

pub small_same : (i : ℕ) (o : Option MemoryPool) (tp : ThreadPools) → (set_small i o tp).small i ≡ o
unfolding set_small
small_same i o tp = ap (λ b. if b then o else tp.small i) (==_refl i)

set_small-IsValid :
    (i : ℕ) (q : MemoryPool) (tp : ThreadPools)
    → IsValid tp
    → q.block_size ≡ size_at size_classes i
    → IsValid (set_small i (some q) tp)
unfolding IsValid set_small
set_small-IsValid i q tp v e k p h = elim (ℕ_discrete k i) [
  | yes x ↦
      let s : some q ≡ some p =
        sym (small_same i (some q) tp) ∙ ap (set_small i (some q) tp).small (sym x) ∙ h in
      let s' : q ≡ p = cc in
      ap (λ (r : MemoryPool). r.block_size) (sym s') ∙ e ∙ ap (size_at size_classes) (sym x)
  | no n ↦ v k p (sym (if_false (k == i) (some q) (tp.small k) (ground (arith, n))) ∙ h)
]

pub small_pool_for-Chosen :
    (size base i c : ℕ) (m : Memory) (tp : ThreadPools)
    → IsValid tp
    → size ≤ c
    → normalize_block_size c ≡ c
    → size_at size_classes i ≡ c
    → Chosen size (some base) m tp (λ b m tp. small_pool_for b m i c tp)
unfolding IsValid pool_of
small_pool_for-Chosen size base i c m tp v l n a = split (tp.small i) refl
  where
    split :
        (o : Option MemoryPool)
        → tp.small i ≡ o
        → Chosen size (some base) m tp (λ b m tp. small_pool_for b m i c tp)
    split (some q) e = (
      small_pool i,
      m,
      tp,
      small_again _ m i c tp q e,
      v,
      (q, e, omega (arith, v i q e, a)),
      λ b2 m2. small_again b2 m2 i c tp q e,
    )
    split none e =
        let (m', q, f, b) = fresh c 512 base m in
        let tp' = set_small i (some q) tp in
        (
          small_pool i,
          m',
          tp',
          small_new base m m' i c tp q e f,
          set_small-IsValid i q tp v (b ∙ n ∙ sym a),
          (q, small_same i (some q) tp, omega (arith, b, n)),
          λ b2 m2. small_again b2 m2 i c tp' q (small_same i (some q) tp),
        )
