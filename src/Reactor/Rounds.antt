-- ===== src/Reactor/Rounds.antt =====
-- A whole round of a loop: it ends, and keeps the table of connections.
use cxx_epoll_http_server.Common.{
  ℕ, suc, ◌+◌, ◌-◌, ◌*◌, ◌≤◌, ◌<◌, ◌≡◌, ◌≢◌, ap, ◌∙◌, ◌||◌, Option, none, some, List, [], ◌∷◌,
  length, ◌==◌, leb, add_size, if_cases, arith,
}
use cxx_epoll_http_server.Http.{HttpRequest, HttpResponse}
use cxx_epoll_http_server.Timer.{Entry, TimerHeap, ns_per_ms, push, add, add_after, size, Expiring}
use cxx_epoll_http_server.Timer.World.{expire-keeps}
use cxx_epoll_http_server.Timer.Expiry.{due_count, AddsNoDue, expire_total}
use cxx_epoll_http_server.Connection.{Connection, Scene, ns_per_s, on_idle_timer, arm_idle_timer}
use cxx_epoll_http_server.Connection.TimerCount.{close-heap}
use cxx_epoll_http_server.Reactor.{
  Reactor, Event, ready, find_connection, scene_of, put_back, run_timer, do_pending_functors,
  after_events, loop_round,
}
use cxx_epoll_http_server.Reactor.Table.{IsValid}
use cxx_epoll_http_server.Reactor.Events.{RoomForAll, dispatch_all-IsValid}
use cxx_epoll_http_server.Reactor.Entries.{run_timer-IsValid, attach_all-IsValid}

module _ (t : ℕ) where
  due_count-push :
      (e : Entry ℕ) (es : List (Entry ℕ)) → t < e.when → due_count t (push e es) ≤ due_count t es
  unfolding push due_count
  due_count-push e [] l = ground arith
  due_count-push e (x ∷ xs) l = ground (arith, due_count-push e xs l)

  arm_idle_timer-due :
      (t' : ℕ) (s : Scene)
      → t ≤ t'
      → due_count t (arm_idle_timer t' s).timers.heap ≤ due_count t s.timers.heap
  unfolding arm_idle_timer add_after add
  arm_idle_timer-due t' s l =
      if_cases (λ (x : Scene). due_count t x.timers.heap ≤ due_count t s.timers.heap)
        (s.conn.is_closed || (s.conn.idle_timeout_s == 0)) (λ _. omega arith)
        (λ n. due_count-push _ s.timers.heap (later (s.conn.idle_timeout_s) (ground (arith, n))))
    where
      later : (n : ℕ) → n ≢ 0 → t < t' + n * 1000 * ns_per_ms
      later n z = omega arith

  on_idle_timer-due :
      (t' : ℕ) (s : Scene)
      → t ≤ t'
      → due_count t (on_idle_timer t' s).timers.heap ≤ due_count t s.timers.heap
  unfolding on_idle_timer
  on_idle_timer-due t' s l =
      if_cases (λ (x : Scene). due_count t x.timers.heap ≤ due_count t s.timers.heap)
        (leb (s.conn.idle_timeout_s * ns_per_s) (t' - s.conn.last_activity))
        (λ _. omega (
          arith,
          ap (due_count t) (
              close-heap (record s {
                conn = record s.conn { idle_timer = 0 };
                counters = record s.counters {
                  timeouts_closed = add_size s.counters.timeouts_closed 1;
                };
              })),
        ))
        (λ _. arm_idle_timer-due t' s l)

  run_timer-AddsNoDue : (t' : ℕ) → t ≤ t' → AddsNoDue (run_timer t') t
  unfolding AddsNoDue run_timer put_back scene_of
  run_timer-AddsNoDue t' l fd h r = split (find_connection fd r)
    where
      split :
          (o : Option Connection)
          → due_count t
              (elim o as (λ _. TimerHeap ℕ × Reactor) [
                | none ↦ (h, r)
                | some c ↦
                    let r' =
                      put_back fd
                        (on_idle_timer t' (scene_of (record r { timers = h }) fd c [] []))
                        r in
                    (r'.timers, r')
              ]).0.heap
            ≤ due_count t h.heap
      split none = omega arith
      split (some c) = on_idle_timer-due t' _ l

due_count-le : (t : ℕ) (es : List (Entry ℕ)) → due_count t es ≤ length es
unfolding due_count
due_count-le t [] = omega arith
due_count-le t (e ∷ es) = ground (arith, due_count-le t es)

after_events-IsValid :
    (idle_timeout_s t t' : ℕ) (r : Reactor)
    → t ≤ t'
    → IsValid r
    → (r' : Reactor) × (after_events idle_timeout_s t t' r ≡ some r') × IsValid r'
unfolding after_events do_pending_functors IsValid
after_events-IsValid idle_timeout_s t t' r l v =
    let f = suc (length r.timers.heap) in
    let (x, e) =
      expire_total (run_timer t') t (run_timer-AddsNoDue t t' l) f r.timers r
        (omega (arith, due_count-le t r.timers.heap)) in
    let w =
      expire-keeps (run_timer t') t IsValid (λ k h w p. run_timer-IsValid t' k h w p) f r.timers r x
        v e in
    (
      _,
      ap
          (λ (o : Option (Expiring ℕ Reactor)). elim o as (λ _. Option Reactor) [
            | none ↦ none
            | some x ↦ some (
                do_pending_functors idle_timeout_s t'
                  (record x.world { timers = x.timers; pending_timers = size x.timers }))
          ])
          e,
      attach_all-IsValid idle_timeout_s t' x.world.pending _ w,
    )

-- A round of the loop over events whose bytes have room ends, with fuel for one timer more than
-- there are, where the clock does not go back, and keeps this: each entry of the table is an open
-- connection with the descriptor of its key and a valid input buffer. The acceptor is to keep it
-- too.
pub loop_round-IsValid :
    (handler : Scene → HttpRequest → HttpResponse → HttpResponse) (acceptor : Reactor → Reactor)
    (idle_timeout_s t t' : ℕ) (es : List Event) (r : Reactor)
    → ((r : Reactor) → IsValid r → IsValid (acceptor r))
    → t ≤ t'
    → IsValid r
    → RoomForAll handler acceptor es r
    → (r' : Reactor) × (loop_round handler acceptor idle_timeout_s t t' (ready es) r ≡ some r')
      × IsValid r'
unfolding loop_round
loop_round-IsValid handler acceptor idle_timeout_s t t' es r k l v f =
    let (r1, e, w) = dispatch_all-IsValid handler acceptor k es r v f in
    let (r2, q, u) = after_events-IsValid idle_timeout_s t t' r1 l w in
    (
      r2,
      ap
            (λ (o : Option Reactor). elim o as (λ _. Option Reactor) [
              | none ↦ none
              | some r' ↦ after_events idle_timeout_s t t' r'
            ])
            e
          ∙ q,
      u,
    )
