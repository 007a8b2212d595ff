-- ===== src/Timer/World.antt =====
-- What `expire` keeps: what each round of its loop keeps, and what the callbacks keep of the rest of
-- the world.
use cxx_epoll_http_server.Common.{
  ℕ, zero, suc, ◌≤◌, ◌≡◌, refl, ap, subst, Option, none, some, List, [], ◌∷◌, length, leb, if_cases,
  if◌then◌else◌, arith,
}
use cxx_epoll_http_server.Timer.{
  Entry, TimerHeap, contains, Expiring, run_cb, expire_entry, expire_round, expire_loop, expire,
}

module _ {K W : Type 0} (exec : K → TimerHeap K → W → TimerHeap K × W) (t : ℕ)
    (P : Expiring K W → Type 0) where
  Holds : Option (Expiring K W) → Type 0
  Holds none = Unit {0}
  Holds (some s) = P s

  -- A round keeps what running the first entry keeps.
  expire_round-Holds :
      (s : Expiring K W)
      → ((e : Entry K) (rest : List (Entry K))
          → s.timers.heap ≡ e ∷ rest
          → P (expire_entry exec t e (record s { timers = record s.timers { heap = rest } })))
      → Holds (expire_round exec t s)
  unfolding expire_round Holds
  expire_round-Holds s k = split s.timers.heap refl
    where
      split :
          (es : List (Entry K))
          → s.timers.heap ≡ es
          → Holds (elim es as (λ _. Option (Expiring K W)) [
            | [] ↦ none
            | e ∷ rest ↦
                if leb e.when t
                then some
                    (expire_entry exec t e (record s { timers = record s.timers { heap = rest } }))
                else none
          ])
      split [] q = tt
      split (e ∷ rest) q = if_cases Holds (leb e.when t) (λ _. k e rest q) (λ _. tt)

  module _ (step : (s : Expiring K W) → P s → Holds (expire_round exec t s)) where
    expire_loop-Holds : (f : ℕ) (s : Expiring K W) → P s → Holds (expire_loop exec t f s)
    unfolding expire_loop Holds
    expire_loop-Holds zero s p = tt
    expire_loop-Holds (suc f) s p = split (expire_round exec t s) (step s p) (expire_loop-Holds f)
      where
        split :
            (o : Option (Expiring K W))
            → Holds o
            → ((s' : Expiring K W) → P s' → Holds (expire_loop exec t f s'))
            → Holds (elim o as (λ _. Option (Expiring K W)) [
              | none ↦ some s
              | some s' ↦ expire_loop exec t f s'
            ])
        split none h k = p
        split (some s') h k = k s' h

    expire-Holds :
        (f : ℕ) (h : TimerHeap K) (w : W) (x : Expiring K W)
        → P (record { timers = h; world = w; fired = 0 })
        → expire exec t f h w ≡ some x
        → P x
    unfolding expire Holds
    expire-Holds f h w x p e = subst Holds e (expire_loop-Holds f _ p)

module _ {K W : Type 0} (exec : K → TimerHeap K → W → TimerHeap K × W) (t : ℕ) where
  run_cb-keeps :
      (P : W → Type 0)
      → ((k : K) (h : TimerHeap K) (w : W) → P w → P (exec k h w).1)
      → (cb : Option K) (h : TimerHeap K) (w : W) → P w
      → P (run_cb exec t cb h w).1
  unfolding run_cb
  run_cb-keeps P keeps none h w p = p
  run_cb-keeps P keeps (some k) h w p = keeps k h w p

  -- What the callbacks keep of the rest of the world, `expire` keeps.
  pub expire-keeps :
      (P : W → Type 0)
      → ((k : K) (h : TimerHeap K) (w : W) → P w → P (exec k h w).1)
      → (f : ℕ) (h : TimerHeap K) (w : W) (x : Expiring K W) → P w
      → expire exec t f h w ≡ some x
      → P x.world
  unfolding expire_entry
  expire-keeps P keeps =
      expire-Holds exec t (λ x. P x.world)
        (λ s p. expire_round-Holds exec t _ s (λ e rest q.
          if_cases (λ (x : Expiring K W). P x.world) (contains s.timers.cancelled e.id) (λ _. p)
            (λ _. run_cb-keeps P keeps e.cb _ s.world p)))

  run_cb-length :
      ((k : K) (h : TimerHeap K) (w : W) → length (exec k h w).0.heap ≤ suc (length h.heap))
      → (cb : Option K) (h : TimerHeap K) (w : W)
      → length (run_cb exec t cb h w).0.heap ≤ suc (length h.heap)
  unfolding run_cb
  run_cb-length grows none h w = omega arith
  run_cb-length grows (some k) h w = grows k h w

  -- Callbacks that add one timer at most leave no more timers than there were.
  pub expire-length :
      ((k : K) (h : TimerHeap K) (w : W) → length (exec k h w).0.heap ≤ suc (length h.heap))
      → (n f : ℕ) (h : TimerHeap K) (w : W) (x : Expiring K W) → length h.heap ≤ n
      → expire exec t f h w ≡ some x
      → length x.timers.heap ≤ n
  unfolding expire_entry
  expire-length grows n =
      expire-Holds exec t (λ x. length x.timers.heap ≤ n)
        (λ s p. expire_round-Holds exec t _ s (λ e rest q.
          if_cases (λ (x : Expiring K W). length x.timers.heap ≤ n)
            (contains s.timers.cancelled e.id) (λ _. omega (arith, p, ap length q))
            (λ _. omega (
              arith,
              p,
              ap length q,
              run_cb-length grows e.cb (record s.timers { heap = rest }) s.world,
            ))))
