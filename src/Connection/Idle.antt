-- ===== src/Connection/Idle.antt =====
-- The idle timer: when its callback closes the connection, and what it leaves in the timers.
use cxx_epoll_http_server.Common.{
  ℕ, suc, ◌+◌, ◌-◌, ◌*◌, ◌≤◌, ◌<◌, ◌≡◌, ◌⊎◌, refl, true, false, ◌||◌, List, [], ◌∷◌, length, leb,
  ◌==◌, arith, if_cases, inl, inr, add_size,
}
use cxx_epoll_http_server.Timer.{Entry, push, add, add_after, size}
use cxx_epoll_http_server.Connection.{
  Scene, close, cancel_idle, arm_idle_timer, on_idle_timer, ns_per_s,
}

pub length-push :
    {K : Type 0} (e : Entry K) (es : List (Entry K)) → length (push e es) ≡ suc (length es)
unfolding push
length-push e [] = refl
length-push e (x ∷ xs) = ground (arith, length-push e xs)

arm_idle_timer-size :
    (t : ℕ) (s : Scene)
    → s.conn.is_closed ≡ false
    → 0 < s.conn.idle_timeout_s
    → ((arm_idle_timer t s).conn.is_closed ≡ false)
      × (size (arm_idle_timer t s).timers ≡ suc (size s.timers))
unfolding arm_idle_timer add_after add size
arm_idle_timer-size t s o l =
    if_cases Armed (s.conn.is_closed || s.conn.idle_timeout_s == 0)
      (λ e. absurd (ground (arith, e))) (λ _. (o, length-push _ s.timers.heap))
  where
    Armed : Scene → Type 0
    Armed s' = (s'.conn.is_closed ≡ false) × (size s'.timers ≡ suc (size s.timers))

-- Closing without a timer to cancel leaves the timers alone.
close-size :
    (s : Scene)
    → s.conn.idle_timer ≡ 0
    → ((close s).conn.is_closed ≡ true) × (size (close s).timers ≡ size s.timers)
unfolding close cancel_idle size
close-size s z = if_cases Done s.conn.is_closed (λ c. (c, refl)) (λ _. (refl, ground (arith, z)))
  where
    Done : Scene → Type 0
    Done s' = (s'.conn.is_closed ≡ true) × (size s'.timers ≡ size s.timers)

-- The callback of the idle timer, on an open connection with a timeout: either the time since the
-- last activity has reached the timeout, and the connection is closed and no timer added; or it
-- has not, the connection stays open, and exactly one timer is added for the one that was spent.
pub on_idle_timer_lem :
    (t : ℕ) (s : Scene)
    → s.conn.is_closed ≡ false
    → 0 < s.conn.idle_timeout_s
    → let s' = on_idle_timer t s in
      let due = s.conn.last_activity + s.conn.idle_timeout_s * ns_per_s in
      ((due ≤ t) × (s'.conn.is_closed ≡ true) × (size s'.timers ≡ size s.timers))
      ⊎ ((t < due) × (s'.conn.is_closed ≡ false) × (size s'.timers ≡ suc (size s.timers)))
unfolding on_idle_timer size
on_idle_timer_lem t s o l =
    if_cases Outcome (leb (s.conn.idle_timeout_s * ns_per_s) (t - s.conn.last_activity))
      (λ b. inl (let c = close-size timed_out refl in (ground arith, c.0, c.1)))
      (λ b. inr (let a = arm_idle_timer-size t s o l in (ground arith, a.0, a.1)))
  where
    Outcome : Scene → Type 0
    Outcome s' =
        let due = s.conn.last_activity + s.conn.idle_timeout_s * ns_per_s in
        ((due ≤ t) × (s'.conn.is_closed ≡ true) × (size s'.timers ≡ size s.timers))
        ⊎ ((t < due) × (s'.conn.is_closed ≡ false) × (size s'.timers ≡ suc (size s.timers)))

    timed_out : Scene
    timed_out = record s {
      conn = record s.conn { idle_timer = 0 };
      counters = record s.counters { timeouts_closed = add_size s.counters.timeouts_closed 1 };
    }
