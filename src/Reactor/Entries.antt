-- ===== src/Reactor/Entries.antt =====
-- What timers and new connections do to the table.
use cxx_epoll_http_server.Common.{
  length-replicate, ℕ, ◌-◌, ◌*◌, ◌≡◌, refl, sym, ap, subst, ◌∙◌, ◌||◌, Option, none, some, List, [],
  ◌∷◌, ◌++◌, ◌==◌, leb, if_cases, arith,
}
use native.Mathlib.Decide.{ℕ_discrete}
use cxx_epoll_http_server.Buffer.{Buffer, ReadResult, ensure_writable_bytes, initial_size}
use cxx_epoll_http_server.Buffer
use cxx_epoll_http_server.Buffer.Invariant
use cxx_epoll_http_server.Buffer.Invariant.{
  make-IsValid, ensure_writable_bytes-MadeRoom, length-resize,
}
use cxx_epoll_http_server.Timer.{TimerHeap}
use cxx_epoll_http_server.Connection.{
  Connection, Scene, new_connection, poller_add, ns_per_s, on_idle_timer, arm_idle_timer,
}
use cxx_epoll_http_server.Connection.Lifecycle.{Life}
use cxx_epoll_http_server.Connection.Release.{on_idle_timer-Life, arm_idle_timer-Life}
use cxx_epoll_http_server.Connection.Total.{close-input}
use cxx_epoll_http_server.Reactor.{
  Reactor, find_connection, add_connection, update, scene_of, put_back, run_timer,
  attach_connection, attach_all,
}
use cxx_epoll_http_server.Reactor.Table.{
  Good, IsValid, put_back-Fate, put_back-others, one_entry-IsValid, update_same, update_other,
}

arm_idle_timer-input : (t : ℕ) (s : Scene) → (arm_idle_timer t s).conn.input ≡ s.conn.input
unfolding arm_idle_timer
arm_idle_timer-input t s =
    if_cases (λ (x : Scene). x.conn.input ≡ s.conn.input)
      (s.conn.is_closed || (s.conn.idle_timeout_s == 0)) (λ _. refl) (λ _. refl)

on_idle_timer-input : (t : ℕ) (s : Scene) → (on_idle_timer t s).conn.input ≡ s.conn.input
unfolding on_idle_timer
on_idle_timer-input t s =
    if_cases (λ (x : Scene). x.conn.input ≡ s.conn.input)
      (leb (s.conn.idle_timeout_s * ns_per_s) (t - s.conn.last_activity)) (λ _. close-input _)
      (λ _. arm_idle_timer-input t s)

-- What a method of the connection of `fd` leaves of the table.
method-IsValid :
    (fd : ℕ) (c : Connection) (r : Reactor) (s' : Scene)
    → IsValid r
    → Good fd c
    → Life (scene_of r fd c [] []) s'
    → s'.conn.input ≡ c.input
    → IsValid (put_back fd s' r)
method-IsValid fd c r s' v g l i =
    one_entry-IsValid fd r (put_back fd s' r) v
      (put_back-Fate fd c [] [] r s' g l (subst Invariant.IsValid (sym i) g.2))
      (λ x n. put_back-others fd x s' r n)

pub run_timer-IsValid :
    (t fd : ℕ) (h : TimerHeap ℕ) (r : Reactor) → IsValid r → IsValid (run_timer t fd h r).1
unfolding run_timer find_connection IsValid put_back scene_of
run_timer-IsValid t fd h r v = split (r.connections fd) refl
  where
    split :
        (o : Option Connection)
        → r.connections fd ≡ o
        → IsValid
            (elim o as (λ _. TimerHeap ℕ × Reactor) [
              | none ↦ (h, r)
              | some c ↦
                  let r' =
                    put_back fd
                      (on_idle_timer t (scene_of (record r { timers = h }) fd c [] []))
                      r in
                  (r'.timers, r')
            ]).1
    split none e = v
    split (some c) e =
        let r1 : Reactor = record r { timers = h } in
        method-IsValid fd c r1 _ v (v fd c e) (on_idle_timer-Life t _) (on_idle_timer-input t _)

pub new_connection-Good : (fd idle_timeout_s t : ℕ) → Good fd (new_connection fd idle_timeout_s t)
unfolding new_connection Buffer.make
new_connection-Good fd idle_timeout_s t =
    (refl, refl, (ensure_writable_bytes-MadeRoom (Buffer.make initial_size) 2048 made fits).valid)
  where
    made : Invariant.IsValid (Buffer.make initial_size)
    made = make-IsValid initial_size (omega arith)

    fits : Invariant.Fits (Buffer.make initial_size) 2048
    fits = omega (arith, length-replicate {A = ℕ} initial_size 0)

pub add_connection-IsValid :
    (fd : ℕ) (c : Connection) (r : Reactor)
    → IsValid r
    → Good fd c
    → IsValid (add_connection fd c r)
unfolding add_connection IsValid
add_connection-IsValid fd c r v g x d h = elim (ℕ_discrete x fd) [
  | yes e ↦
      let q : c ≡ d = some_same (
        sym (update_same fd (some c) r.connections)
        ∙ ap (update fd (some c) r.connections) (sym e)
        ∙ h) in
      subst (λ y. Good y d) (sym e) (subst (Good fd) q g)
  | no n ↦ v x d (sym (update_other fd x (some c) r.connections n) ∙ h)
]
  where
    some_same : {a b : Connection} → some a ≡ some b → a ≡ b
    some_same e = cc

pub attach_connection-IsValid :
    (idle_timeout_s t fd : ℕ) (r : Reactor)
    → IsValid r
    → IsValid (attach_connection idle_timeout_s t fd r)
unfolding attach_connection IsValid scene_of put_back
attach_connection-IsValid idle_timeout_s t fd r v =
    let c = new_connection fd idle_timeout_s t in
    let g = new_connection-Good fd idle_timeout_s t in
    method-IsValid fd c
      (record (add_connection fd c r) {
        calls = (add_connection fd c r).calls ++ poller_add fd ∷ [];
      })
      _ (add_connection-IsValid fd c r v g) g (arm_idle_timer-Life t _) (arm_idle_timer-input t _)

pub attach_all-IsValid :
    (idle_timeout_s t : ℕ) (fds : List ℕ) (r : Reactor)
    → IsValid r
    → IsValid (attach_all idle_timeout_s t fds r)
unfolding attach_all
attach_all-IsValid idle_timeout_s t [] r v = v
attach_all-IsValid idle_timeout_s t (fd ∷ fds) r v =
    attach_all-IsValid idle_timeout_s t fds _ (attach_connection-IsValid idle_timeout_s t fd r v)
