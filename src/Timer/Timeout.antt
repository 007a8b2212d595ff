-- ===== src/Timer/Timeout.antt =====
-- `nextTimeoutMs`: how long the loop sleeps in `epoll_wait`.
use cxx_epoll_http_server.Common.{
  ℕ, suc, ◌+◌, ◌-◌, ◌*◌, ◌/◌, ◌%◌, ◌^◌, ◌≤◌, ◌<◌, ◌≡◌, ap, ◌∙◌, some, List, ◌∷◌, arith, ◌⊎◌, inl,
  inr, Bool-cases, leb,
}
use cxx_epoll_http_server.Decimal.{pos}
use cxx_epoll_http_server.Timer.{Entry, TimerHeap, expire, next_timeout_ms, ns_per_ms, to_int}
use cxx_epoll_http_server.Timer.Order.{AllFrom, AllFrom-mono, IsSorted}
use cxx_epoll_http_server.Timer.Expiry.{loop_end, round_not_due}

to_int_lem : (ms : ℕ) → ms < 2 ^ 31 → to_int ms ≡ pos ms
unfolding to_int
to_int_lem ms l = let q : ms % 2 ^ 32 ≡ ms = omega arith in rw q ground arith

module _ {K : Type 0} (now : ℕ) where
  abbrev timers : List (Entry K) → List ℕ → ℕ → TimerHeap K
  timers es c n = record { heap = es; cancelled = c; next_id = n }

  next_timeout_of :
      (e : Entry K) (es : List (Entry K)) (c : List ℕ) (n : ℕ)
      → e.when < now + 2 ^ 31 * ns_per_ms
      → next_timeout_ms now (timers (e ∷ es) c n) ≡ pos ((e.when - now) / ns_per_ms)
  unfolding next_timeout_ms
  next_timeout_of e es c n l =
      let q = to_int_lem ((e.when - now) / ns_per_ms) (omega arith) in rw q (ground arith)

  -- With sorted timers of which the first is due in less than 2^31 ms, `nextTimeoutMs` answers a
  -- number of milliseconds that, unless it is 0, ends before any timer is due, and that is less
  -- than one millisecond short of the first.
  pub next_timeout_ms_lem :
      (e : Entry K) (es : List (Entry K)) (c : List ℕ) (n : ℕ)
      → IsSorted (e ∷ es)
      → e.when < now + 2 ^ 31 * ns_per_ms
      → (r : ℕ) × (next_timeout_ms now (timers (e ∷ es) c n) ≡ pos r)
        × ((r ≡ 0) ⊎ AllFrom (now + r * ns_per_ms) (e ∷ es))
        × (e.when < now + (r + 1) * ns_per_ms)
  next_timeout_ms_lem e es c n s l =
      let r = (e.when - now) / ns_per_ms in (r, next_timeout_of e es c n l, early, omega arith)
    where
      early :
          ((e.when - now) / ns_per_ms ≡ 0)
          ⊎ AllFrom (now + (e.when - now) / ns_per_ms * ns_per_ms) (e ∷ es)
      early = elim (Bool-cases (leb e.when now)) [
        | inl b ↦ inl (ground arith)
        | inr b ↦
            let m : now + (e.when - now) / ns_per_ms * ns_per_ms ≤ e.when = ground arith in
            inr (m, AllFrom-mono es m s.0)
      ]

  module _ {W : Type 0} (exec : K → TimerHeap K → W → TimerHeap K × W) where
    -- While the first timer is due in less than a millisecond, `nextTimeoutMs` answers 0 and
    -- `expire` runs nothing and leaves the timers as they were: the loop spins.
    pub wakes_before_due :
        (e : Entry K) (es : List (Entry K)) (c : List ℕ) (n f : ℕ) (w : W)
        → now < e.when
        → e.when < now + ns_per_ms
        → (next_timeout_ms now (timers (e ∷ es) c n) ≡ pos 0)
          × (expire exec now (suc f) (timers (e ∷ es) c n) w
              ≡ some (record { timers = timers (e ∷ es) c n; world = w; fired = 0 }))
    unfolding expire
    wakes_before_due e es c n f w l h = (
      next_timeout_of e es c n (omega arith) ∙ ap pos (omega arith),
      loop_end exec now f _ (round_not_due exec now e es c n w 0 (ground arith)),
    )
