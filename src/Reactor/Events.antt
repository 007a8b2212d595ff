-- ===== src/Reactor/Events.antt =====
-- The events of a round: what becomes of the table of connections.
use cxx_epoll_http_server.Common.{
  ℕ, ◌≡◌, ◌≢◌, refl, ap, ◌∙◌, false, Option, none, some, List, [], ◌∷◌, ◌==◌, if_cases, if_false,
  arith,
}
use cxx_epoll_http_server.Buffer.Invariant.{Fits}
use cxx_epoll_http_server.Http.{HttpRequest, HttpResponse}
use cxx_epoll_http_server.Connection.{Connection, Scene}
use cxx_epoll_http_server.Connection.Total.{total_bytes}
use cxx_epoll_http_server.Reactor.{
  Reactor, Event, find_connection, scene_of, put_back, is_acceptor, on_event, dispatch,
  dispatch_all,
}
use cxx_epoll_http_server.Reactor.Table.{
  IsValid, Fate, on_event-Leaves, put_back-Fate, put_back-others, one_entry-IsValid,
}

module _ (handler : Scene → HttpRequest → HttpResponse → HttpResponse)
    (acceptor : Reactor → Reactor) where
  -- What the answers of `readv` bring has room behind the bytes that the connection has.
  abbrev pub Room : Event → Reactor → Type 0
  Room e r = (c : Connection) → r.connections e.fd ≡ some c → Fits c.input (total_bytes e.reads)

  abbrev Kept : Option Reactor → Type 0
  Kept o = (r' : Reactor) × (o ≡ some r') × IsValid r'

  -- An event of a connection in a table of open connections, whose buffer has room for what
  -- `readv` brings, is handled: the connection is then open as before, with a valid buffer, or it
  -- is gone from the table and its descriptor is taken off the poller and closed, in this order
  -- and once; the entry of any other descriptor is as it was.
  pub dispatch_connection :
      (e : Event) (r : Reactor) (c : Connection) (x : ℕ)
      → IsValid r
      → r.connections e.fd ≡ some c
      → Room e r
      → e.fd ≢ r.wakeup_fd
      → is_acceptor r.acceptor_fd e.fd ≡ false
      → x ≢ e.fd
      → (r' : Reactor) × (dispatch handler acceptor e r ≡ some r')
        × Fate e.fd r r'
        × (r'.connections x ≡ r.connections x)
  unfolding dispatch find_connection IsValid scene_of
  dispatch_connection e r c x v h f n a o =
      let g = v e.fd c h in
      let (s', q, l, w) =
        on_event-Leaves handler e (scene_of r e.fd c e.reads e.writes) g.2 (f c h) in
      (
        put_back e.fd s' r,
        answer s' q,
        put_back-Fate e.fd c e.reads e.writes r s' g l w,
        put_back-others e.fd x s' r o,
      )
    where
      after : Option Scene → Option Reactor
      after o = elim o as (λ _. Option Reactor) [ none ↦ none | some s ↦ some (put_back e.fd s r) ]

      answer :
          (s' : Scene)
          → on_event handler e (scene_of r e.fd c e.reads e.writes) ≡ some s'
          → dispatch handler acceptor e r ≡ some (put_back e.fd s' r)
      answer s' q =
          if_false (e.fd == r.wakeup_fd) _ _ (ground (arith, n))
          ∙ if_false (is_acceptor r.acceptor_fd e.fd) _ _ a
          ∙ ap
              (λ (o : Option Connection). elim o as (λ _. Option Reactor) [
                | none ↦ some r
                | some c ↦ after (on_event handler e (scene_of r e.fd c e.reads e.writes))
              ])
              h
          ∙ ap after q

  dispatch-IsValid :
      ((r : Reactor) → IsValid r → IsValid (acceptor r))
      → (e : Event) (r : Reactor) → IsValid r
      → Room e r
      → Kept (dispatch handler acceptor e r)
  unfolding dispatch find_connection IsValid scene_of
  dispatch-IsValid k e r v f =
      if_cases Kept (e.fd == r.wakeup_fd) (λ _. (_, refl, woken))
        (λ n.
          if_cases Kept (is_acceptor r.acceptor_fd e.fd) (λ _. (_, refl, k r v))
            (λ a. split (r.connections e.fd) refl))
    where
      woken : IsValid (record r { wake = 0 })
      woken = v

      split :
          (o : Option Connection)
          → r.connections e.fd ≡ o
          → Kept (elim o as (λ _. Option Reactor) [
            | none ↦ some r
            | some c ↦
                elim (on_event handler e (scene_of r e.fd c e.reads e.writes))
                  as (λ _. Option Reactor) [ none ↦ none | some s ↦ some (put_back e.fd s r) ]
          ])
      split none h = (r, refl, v)
      split (some c) h =
          let g = v e.fd c h in
          let (s', q, l, w) =
            on_event-Leaves handler e (scene_of r e.fd c e.reads e.writes) g.2 (f c h) in
          (
            put_back e.fd s' r,
            ap
                (λ (o : Option Scene). elim o as (λ _. Option Reactor) [
                  | none ↦ none
                  | some s ↦ some (put_back e.fd s r)
                ])
                q,
            one_entry-IsValid e.fd r (put_back e.fd s' r) v
                (put_back-Fate e.fd c e.reads e.writes r s' g l w)
                (λ x o. put_back-others e.fd x s' r o),
          )

  -- Room for the events in turn.
  abbrev pub RoomForAll : List Event → Reactor → Type 0
  RoomForAll [] r = Unit {0}
  RoomForAll (e ∷ es) r =
      Room e r × ((r' : Reactor) → dispatch handler acceptor e r ≡ some r' → RoomForAll es r')

  -- Dealing out a list of events ends, and keeps the table.
  pub dispatch_all-IsValid :
      ((r : Reactor) → IsValid r → IsValid (acceptor r))
      → (es : List Event) (r : Reactor) → IsValid r
      → RoomForAll es r
      → (r' : Reactor) × (dispatch_all handler acceptor es r ≡ some r') × IsValid r'
  unfolding dispatch_all
  dispatch_all-IsValid k [] r v f = (r, refl, v)
  dispatch_all-IsValid k (e ∷ es) r v f =
      let (r1, q, w) = dispatch-IsValid k e r v f.0 in
      let (r2, p, u) = dispatch_all-IsValid k es r1 w (f.1 r1 q) in
      (
        r2,
        ap
              (λ (o : Option Reactor). elim o as (λ _. Option Reactor) [
                | none ↦ none
                | some r ↦ dispatch_all handler acceptor es r
              ])
              q
            ∙ p,
        u,
      )
