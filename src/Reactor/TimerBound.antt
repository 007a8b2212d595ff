-- ===== src/Reactor/TimerBound.antt =====
-- How many timers a round of a loop leaves: requests add none, and the callback of a timer at most
-- the one that takes its place.
use cxx_epoll_http_server.Common.{
  ℕ, suc, ◌+◌, ◌≤◌, ◌≡◌, refl, ap, subst, ◌∙◌, true, ◌&&◌, Option, none, some, List, [], ◌∷◌,
  length, ◌==◌, if_cases, arith,
}
use cxx_epoll_http_server.Http.{HttpRequest, HttpResponse}
use cxx_epoll_http_server.Timer.{TimerHeap, size, Expiring, expire}
use cxx_epoll_http_server.Timer.World.{expire-keeps, expire-length}
use cxx_epoll_http_server.Connection.{Connection, Scene, on_idle_timer}
use cxx_epoll_http_server.Connection.Handlers.{Result}
use cxx_epoll_http_server.Connection.TimerCount.{
  SameHeap, handle_error-SameHeap, handle_write-SameHeap, handle_read-SameHeap,
  arm_idle_timer-length, on_idle_timer-length,
}
use cxx_epoll_http_server.Reactor.{
  Reactor, Event, ready, find_connection, scene_of, put_back, has_fd, is_acceptor, then_write,
  on_event, dispatch, dispatch_all, run_timer, attach_connection, attach_all, add_connection,
  do_pending_functors, after_events, loop_round,
}
use cxx_epoll_http_server.Reactor.Table.{IsValid}
use cxx_epoll_http_server.Reactor.Events.{RoomForAll}
use cxx_epoll_http_server.Reactor.Rounds.{loop_round-IsValid}

module _ (handler : Scene → HttpRequest → HttpResponse → HttpResponse) where
  on_event-SameHeap : (e : Event) (s : Scene) → Result SameHeap s (on_event handler e s)
  unfolding on_event then_write
  on_event-SameHeap e s =
      if_cases (Result SameHeap s) e.hup_or_err (λ _. handle_error-SameHeap s)
        (λ _. written _ (
          if_cases (Result SameHeap s) e.readable (λ _. handle_read-SameHeap handler e.time s)
            (λ _. refl)))
    where
      written :
          (o : Option Scene)
          → Result SameHeap s o
          → Result SameHeap s
              (elim o as (λ _. Option Scene) [ none ↦ none | some s' ↦ some (then_write e.out s') ])
      written none h = tt
      written (some s') h =
          if_cases (SameHeap s) (has_fd s'.conn.fd && e.out) (λ _. handle_write-SameHeap s' ∙ h)
            (λ _. h)

  module _ (acceptor : Reactor → Reactor) where
    -- What the events of a loop that does not listen leave alone.
    abbrev Same : Reactor → Reactor → Type 0
    Same r r' =
        (r'.timers.heap ≡ r.timers.heap)
        × (r'.pending ≡ r.pending)
        × (r'.acceptor_fd ≡ r.acceptor_fd)

    abbrev IfSame : Reactor → Option Reactor → Type 0
    IfSame r none = Unit {0}
    IfSame r (some r') = Same r r'

    dispatch-Same :
        (e : Event) (r : Reactor) → r.acceptor_fd ≡ none → IfSame r (dispatch handler acceptor e r)
    unfolding dispatch scene_of put_back is_acceptor
    dispatch-Same e r n =
        if_cases (IfSame r) (e.fd == r.wakeup_fd) (λ _. (refl, refl, refl))
          (λ _.
            if_cases (IfSame r) (is_acceptor r.acceptor_fd e.fd) (λ a. absurd (listens a))
              (λ _. split (find_connection e.fd r)))
      where
        listens : is_acceptor r.acceptor_fd e.fd ≡ true → ⊥
        listens a =
            let q : is_acceptor none e.fd ≡ true = subst (λ o. is_acceptor o e.fd ≡ true) n a in cc

        handled :
            (c : Connection) (o : Option Scene)
            → Result SameHeap (scene_of r e.fd c e.reads e.writes) o
            → IfSame r (elim o as (λ _. Option Reactor) [
              | none ↦ none
              | some s ↦ some (put_back e.fd s r)
            ])
        handled c none h = tt
        handled c (some s) h = (h, refl, refl)

        split :
            (o : Option Connection)
            → IfSame r (elim o as (λ _. Option Reactor) [
              | none ↦ some r
              | some c ↦
                  elim (on_event handler e (scene_of r e.fd c e.reads e.writes))
                    as (λ _. Option Reactor) [ none ↦ none | some s ↦ some (put_back e.fd s r) ]
            ])
        split none = (refl, refl, refl)
        split (some c) = handled c _ (on_event-SameHeap e _)

    dispatch_all-Same :
        (es : List Event) (r : Reactor)
        → r.acceptor_fd ≡ none
        → IfSame r (dispatch_all handler acceptor es r)
    unfolding dispatch_all
    dispatch_all-Same [] r n = (refl, refl, refl)
    dispatch_all-Same (e ∷ es) r n =
        split (dispatch handler acceptor e r) (dispatch-Same e r n) (dispatch_all-Same es)
      where
        after : Option Reactor → Option Reactor
        after o = elim o as (λ _. Option Reactor) [
          | none ↦ none
          | some r' ↦ dispatch_all handler acceptor es r'
        ]

        on : (r' : Reactor) (o : Option Reactor) → Same r r' → IfSame r' o → IfSame r o
        on r' none s h = tt
        on r' (some u) s h = (h.0 ∙ s.0, h.1 ∙ s.1, h.2 ∙ s.2)

        split :
            (o : Option Reactor)
            → IfSame r o
            → ((r' : Reactor)
                → r'.acceptor_fd ≡ none
                → IfSame r' (dispatch_all handler acceptor es r'))
            → IfSame r (after o)
        split none h k = tt
        split (some r') h k = on r' _ h (k r' (h.2 ∙ n))

run_timer-length :
    (t fd : ℕ) (h : TimerHeap ℕ) (r : Reactor)
    → length (run_timer t fd h r).0.heap ≤ suc (length h.heap)
unfolding run_timer put_back scene_of
run_timer-length t fd h r = split (find_connection fd r)
  where
    split :
        (o : Option Connection)
        → length
            (elim o as (λ _. TimerHeap ℕ × Reactor) [
              | none ↦ (h, r)
              | some c ↦
                  let r' =
                    put_back fd
                      (on_idle_timer t (scene_of (record r { timers = h }) fd c [] []))
                      r in
                  (r'.timers, r')
            ]).0.heap
          ≤ suc (length h.heap)
    split none = omega arith
    split (some c) = on_idle_timer-length t (scene_of (record r { timers = h }) fd c [] [])

run_timer-pending :
    (p : List ℕ) (t fd : ℕ) (h : TimerHeap ℕ) (r : Reactor)
    → r.pending ≡ p
    → (run_timer t fd h r).1.pending ≡ p
unfolding run_timer put_back
run_timer-pending p t fd h r q = split (find_connection fd r)
  where
    split :
        (o : Option Connection)
        → (elim o as (λ _. TimerHeap ℕ × Reactor) [
          | none ↦ (h, r)
          | some c ↦
              let r' =
                put_back fd (on_idle_timer t (scene_of (record r { timers = h }) fd c [] [])) r in
              (r'.timers, r')
        ]).1.pending
          ≡ p
    split none = q
    split (some c) = q

attach_all-length :
    (idle_timeout_s t : ℕ) (fds : List ℕ) (r : Reactor)
    → length (attach_all idle_timeout_s t fds r).timers.heap ≤ length r.timers.heap + length fds
unfolding attach_all attach_connection put_back scene_of add_connection
attach_all-length idle_timeout_s t [] r = omega arith
attach_all-length idle_timeout_s t (fd ∷ fds) r = omega (
  arith,
  attach_all-length idle_timeout_s t fds (attach_connection idle_timeout_s t fd r),
  attached,
)
  where
    attached :
        length (attach_connection idle_timeout_s t fd r).timers.heap ≤ suc (length r.timers.heap)
    attached = arm_idle_timer-length t _

-- The timers that are due, and then the queue.
after_events-length :
    (idle_timeout_s t t' : ℕ) (r r' : Reactor)
    → after_events idle_timeout_s t t' r ≡ some r'
    → length r'.timers.heap ≤ length r.timers.heap + length r.pending
unfolding after_events do_pending_functors
after_events-length idle_timeout_s t t' r r' q =
    split (expire (run_timer t') t (suc (length r.timers.heap)) r.timers r) refl q
  where
    after : Expiring ℕ Reactor → Reactor
    after x =
        do_pending_functors idle_timeout_s t'
          (record x.world { timers = x.timers; pending_timers = size x.timers })

    bounded :
        (x : Expiring ℕ Reactor)
        → expire (run_timer t') t (suc (length r.timers.heap)) r.timers r ≡ some x
        → length (after x).timers.heap ≤ length r.timers.heap + length r.pending
    bounded x e = omega (
      arith,
      attach_all-length idle_timeout_s t' x.world.pending _,
      expire-length (run_timer t') t (run_timer-length t') (length r.timers.heap) _ r.timers r x
          (omega arith) e,
      ap length (
          expire-keeps (run_timer t') t (λ w. w.pending ≡ r.pending)
            (λ k h w p. run_timer-pending r.pending t' k h w p) _ r.timers r x refl e),
    )

    split :
        (o : Option (Expiring ℕ Reactor))
        → expire (run_timer t') t (suc (length r.timers.heap)) r.timers r ≡ o
        → (elim o as (λ _. Option Reactor) [ none ↦ none | some x ↦ some (after x) ]) ≡ some r'
        → length r'.timers.heap ≤ length r.timers.heap + length r.pending
    split none e h = cc
    split (some x) e h =
        let w : after x ≡ r' = cc in
        subst (λ u. length u.timers.heap ≤ length r.timers.heap + length r.pending) w (bounded x e)

-- A round of a loop that does not listen, over events whose bytes have room, with the clock not
-- going back and an acceptor that keeps the table, ends with no more timers than there were and
-- connections waiting in the queue: however many requests the events bring, they add none, and a
-- timer that runs is followed by one at most.
pub loop_round-timers :
    (handler : Scene → HttpRequest → HttpResponse → HttpResponse) (acceptor : Reactor → Reactor)
    (idle_timeout_s t t' : ℕ) (es : List Event) (r : Reactor)
    → ((r : Reactor) → IsValid r → IsValid (acceptor r))
    → t ≤ t'
    → IsValid r
    → RoomForAll handler acceptor es r
    → r.acceptor_fd ≡ none
    → (r' : Reactor) × (loop_round handler acceptor idle_timeout_s t t' (ready es) r ≡ some r')
      × (length r'.timers.heap ≤ length r.timers.heap + length r.pending)
unfolding loop_round
loop_round-timers handler acceptor idle_timeout_s t t' es r k l v f n =
    let (r', e, w) = loop_round-IsValid handler acceptor idle_timeout_s t t' es r k l v f in
    (r', e, split r' _ (dispatch_all-Same handler acceptor es r n) e)
  where
    split :
        (r' : Reactor) (o : Option Reactor)
        → IfSame handler acceptor r o
        → (elim o as (λ _. Option Reactor) [
          | none ↦ none
          | some r1 ↦ after_events idle_timeout_s t t' r1
        ])
          ≡ some r'
        → length r'.timers.heap ≤ length r.timers.heap + length r.pending
    split r' none s q = cc
    split r' (some r1) s q =
        omega (arith, after_events-length idle_timeout_s t t' r1 r' q, ap length s.0, ap length s.1)
