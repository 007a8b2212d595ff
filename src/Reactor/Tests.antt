-- ===== src/Reactor/Tests.antt =====
-- A loop with two connections, and its theorems there.
use cxx_epoll_http_server.Common.{
  ℕ, ◌+◌, ◌≤◌, ◌≡◌, refl, true, false, none, some, [], ◌∷◌, length, codes, length-replicate, subst,
  arith,
}
use cxx_epoll_http_server.Buffer
use cxx_epoll_http_server.Buffer.{received}
use cxx_epoll_http_server.Buffer.Invariant
use cxx_epoll_http_server.Buffer.Invariant.{Fits, ensure_writable_bytes-MadeRoom}
use cxx_epoll_http_server.Http.{HttpRequest, HttpResponse}
use cxx_epoll_http_server.Stats.{new_counters}
use cxx_epoll_http_server.Timer.{new_heap}
use cxx_epoll_http_server.Connection.{Scene, Connection, new_connection}
use cxx_epoll_http_server.Reactor.{
  Reactor, Event, update, is_acceptor, dispatch, loop_round, ready, attach_all, add_connection,
}
use cxx_epoll_http_server.Reactor.Table.{IsValid, Fate}
use cxx_epoll_http_server.Reactor.Entries.{
  new_connection-Good, add_connection-IsValid, attach_all-IsValid,
}
use cxx_epoll_http_server.Reactor.Events.{Room, dispatch_connection}
use cxx_epoll_http_server.Reactor.Rounds.{loop_round-IsValid}
use cxx_epoll_http_server.Reactor.TimerBound.{loop_round-timers}

abbrev plain : Scene → HttpRequest → HttpResponse → HttpResponse
plain s req resp = record resp { body = codes "yes" }

abbrev empty_loop : Reactor
empty_loop = record {
  wakeup_fd = 3;
  acceptor_fd = some 4;
  wake = 0;
  connections = λ fd. none;
  timers = new_heap;
  pending_timers = 0;
  pending = 8 ∷ [];
  counters = new_counters;
  calls = [];
  sent = [];
}

abbrev peer : ℕ → Connection
peer fd = new_connection fd 60 1

abbrev two_connections : Reactor
two_connections = add_connection 7 (peer 7) (add_connection 6 (peer 6) empty_loop)

two_connections-IsValid : IsValid two_connections
unfolding IsValid
two_connections-IsValid =
    add_connection-IsValid 7 (peer 7) _
      (add_connection-IsValid 6 (peer 6) empty_loop (λ fd c e. cc) (new_connection-Good 6 60 1))
      (new_connection-Good 7 60 1)

peer-Fits : (fd : ℕ) → Fits (peer fd).input 4
unfolding new_connection Buffer.make
peer-Fits fd =
    let b = Buffer.make Buffer.initial_size in
    let l = length-replicate {A = ℕ} Buffer.initial_size 0 in
    let made : Invariant.IsValid b = omega (arith, l) in
    omega (arith, l, (ensure_writable_bytes-MadeRoom b 2048 made (omega (arith, l))).bounded)

abbrev request_comes : Event
request_comes = record {
  fd = 6;
  hup_or_err = false;
  readable = true;
  out = false;
  time = 9;
  reads = received (codes "GET ") ∷ [];
  writes = [];
}

request-Room : Room plain (attach_all 60 1 (9 ∷ [])) request_comes two_connections
unfolding add_connection update
request-Room c e = let q : peer 6 ≡ c = cc in subst (λ c. Fits c.input 4) q (peer-Fits 6)

dispatch_connection_example :
    (r' : Reactor) × (dispatch plain (attach_all 60 1 (9 ∷ [])) request_comes two_connections
      ≡ some r')
    × Fate 6 two_connections r'
    × (r'.connections 7 ≡ some (peer 7))
unfolding add_connection update is_acceptor
dispatch_connection_example =
    dispatch_connection plain (attach_all 60 1 (9 ∷ [])) request_comes two_connections (peer 6) 7
      two_connections-IsValid refl request-Room (λ e. cc) refl (λ e. cc)

loop_round-IsValid_example :
    (r' : Reactor) × (loop_round plain
        (attach_all 60 1 (9 ∷ []))
        60
        2
        3
        (ready (request_comes ∷ []))
        two_connections
      ≡ some r')
    × IsValid r'
loop_round-IsValid_example =
    loop_round-IsValid plain (attach_all 60 1 (9 ∷ [])) 60 2 3 (request_comes ∷ []) two_connections
      (attach_all-IsValid 60 1 (9 ∷ [])) (omega arith) two_connections-IsValid
      (request-Room, λ r e. tt)

-- A loop that does not listen, with a descriptor in its queue.
abbrev worker : Reactor
worker = record two_connections { acceptor_fd = none; pending = 9 ∷ [] }

worker-IsValid : IsValid worker
unfolding IsValid
worker-IsValid = two_connections-IsValid

worker-Room : Room plain (λ r. r) request_comes worker
unfolding add_connection update
worker-Room = request-Room

loop_round-timers_example :
    (r' : Reactor) × (loop_round plain (λ r. r) 60 2 3 (ready (request_comes ∷ [])) worker
      ≡ some r')
    × (length r'.timers.heap ≤ length worker.timers.heap + length worker.pending)
loop_round-timers_example =
    loop_round-timers plain (λ r. r) 60 2 3 (request_comes ∷ []) worker (λ r v. v) (omega arith)
      worker-IsValid (worker-Room, λ r e. tt) refl
