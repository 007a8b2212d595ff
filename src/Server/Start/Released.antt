-- ===== src/Server/Start/Released.antt =====
-- What `start` has released when it returns: the listening socket and the threads.
use cxx_epoll_http_server.Common.{
  ℕ, ◌≡◌, refl, sym, ap, subst, ◌∙◌, Bool, true, false, not, Option, none, some, List, [], ◌∷◌,
  ◌++◌, map, append-nil, if◌then◌else◌, if_cases,
}
use cxx_epoll_http_server.Decimal.{ℤ}
use cxx_epoll_http_server.Server.Start.{
  SocketAnswers, Listener, close_socket, set_up, init_listen_socket, LoopCall, make_loop,
  start_thread, set_acceptor, run_main_loop, quit_main_loop, quit_loop, join_thread, count_from,
  rounds, acceptor_calls, close_listener, run_server, start,
}

-- The sub-reactors that are made.
abbrev pub made : List LoopCall → List ℕ
made [] = []
made (make_loop i ∷ cs) = i ∷ made cs
made (start_thread i ∷ cs) = made cs
made (set_acceptor fd ∷ cs) = made cs
made (run_main_loop ∷ cs) = made cs
made (quit_main_loop ∷ cs) = made cs
made (quit_loop i ∷ cs) = made cs
made (join_thread i ∷ cs) = made cs

-- The sub-reactors whose threads are started, told to quit and joined, in order.
abbrev pub started : List LoopCall → List ℕ
started [] = []
started (make_loop i ∷ cs) = started cs
started (start_thread i ∷ cs) = i ∷ started cs
started (set_acceptor fd ∷ cs) = started cs
started (run_main_loop ∷ cs) = started cs
started (quit_main_loop ∷ cs) = started cs
started (quit_loop i ∷ cs) = started cs
started (join_thread i ∷ cs) = started cs

abbrev pub quitted : List LoopCall → List ℕ
quitted [] = []
quitted (make_loop i ∷ cs) = quitted cs
quitted (start_thread i ∷ cs) = quitted cs
quitted (set_acceptor fd ∷ cs) = quitted cs
quitted (run_main_loop ∷ cs) = quitted cs
quitted (quit_main_loop ∷ cs) = quitted cs
quitted (quit_loop i ∷ cs) = i ∷ quitted cs
quitted (join_thread i ∷ cs) = quitted cs

abbrev pub joined : List LoopCall → List ℕ
joined [] = []
joined (make_loop i ∷ cs) = joined cs
joined (start_thread i ∷ cs) = joined cs
joined (set_acceptor fd ∷ cs) = joined cs
joined (run_main_loop ∷ cs) = joined cs
joined (quit_main_loop ∷ cs) = joined cs
joined (quit_loop i ∷ cs) = joined cs
joined (join_thread i ∷ cs) = i ∷ joined cs

-- What these calls make, start, tell to quit and join.
abbrev Threads : List ℕ → List ℕ → List ℕ → List ℕ → List LoopCall → Type 0
Threads m s q j cs = (made cs ≡ m) × (started cs ≡ s) × (quitted cs ≡ q) × (joined cs ≡ j)

joining : (ls : List ℕ) → Threads [] [] [] ls (map join_thread ls)
joining [] = (refl, refl, refl, refl)
joining (i ∷ ls) = let r = joining ls in (r.0, r.1, r.2, ap (λ q. i ∷ q) r.3)

quitting : (ls ms : List ℕ) → Threads [] [] ls ms (map quit_loop ls ++ map join_thread ms)
quitting [] ms = joining ms
quitting (i ∷ ls) ms = let r = quitting ls ms in (r.0, r.1, ap (λ q. i ∷ q) r.2, r.3)

running :
    (fd : Option ℕ) (ls ms : List ℕ)
    → Threads [] ls ms ms (
        map start_thread ls
        ++ (acceptor_calls fd ++ (run_main_loop ∷ (map quit_loop ms ++ map join_thread ms))))
unfolding acceptor_calls
running none [] ms = quitting ms ms
running (some fd) [] ms = quitting ms ms
running fd (i ∷ ls) ms = let r = running fd ls ms in (r.0, ap (λ q. i ∷ q) r.1, r.2, r.3)

making :
    (fd : Option ℕ) (ls ms : List ℕ)
    → Threads ls ms ms ms (
        map make_loop ls
        ++ (map start_thread ms
            ++ (acceptor_calls fd ++ (run_main_loop ∷ (map quit_loop ms ++ map join_thread ms)))))
making fd [] ms = running fd ms ms
making fd (i ∷ ls) ms = let r = making fd ls ms in (ap (λ q. i ∷ q) r.0, r.1, r.2, r.3)

-- The listening sockets that were opened and closed, from another state on.
abbrev Balanced : Listener → Listener → Type 0
Balanced s s' =
    (fds : List ℕ) × (s'.sockets_opened ≡ s.sockets_opened ++ fds)
    × (s'.sockets_closed ≡ s.sockets_closed ++ fds)

-- What `initListenSocket` leaves: nothing open where it fails, the listening socket where not.
Ready : Listener → Bool × Listener → Type 0
Ready s (false, s') = (s'.listen_fd ≡ none) × Balanced s s'
Ready s (true, s') =
    (fd : ℕ) × (s'.listen_fd ≡ some fd)
    × (s'.sockets_opened ≡ s.sockets_opened ++ fd ∷ [])
    × (s'.sockets_closed ≡ s.sockets_closed)

set_up-Ready :
    (k : SocketAnswers) (port fd : ℕ) (s : Listener)
    → s.listen_fd ≡ none
    → Ready s (set_up k port fd (record s { sockets_opened = s.sockets_opened ++ fd ∷ [] }))
unfolding set_up close_socket Ready
set_up-Ready k port fd s n =
    if_cases (Ready s) (not k.binds) (λ _. (n, (fd ∷ [], refl, refl)))
      (λ _.
        if_cases (Ready s) (not k.listens) (λ _. (n, (fd ∷ [], refl, refl)))
          (λ _. (fd, refl, refl, refl)))

init_listen_socket-Ready :
    (k : SocketAnswers) (port : ℕ) (s : Listener)
    → s.listen_fd ≡ none
    → Ready s (init_listen_socket k port s)
unfolding init_listen_socket Ready
init_listen_socket-Ready k port s n = split k.socket
  where
    split :
        (o : Option ℕ)
        → Ready s (elim o as (λ _. Bool × Listener) [
          | none ↦ (false, s)
          | some fd ↦ set_up k port fd (record s { sockets_opened = s.sockets_opened ++ fd ∷ [] })
        ])
    split none = (n, ([], sym (append-nil _), sym (append-nil _)))
    split (some fd) = set_up-Ready k port fd s n

abbrev Done : List ℕ → Listener → Bool × List LoopCall × Listener → Type 0
Done ls s (ok, cs, s') =
    (s'.listen_fd ≡ none)
    × Balanced s s'
    × (started cs ≡ (if ok then ls else []))
    × (made cs ≡ started cs)
    × (quitted cs ≡ started cs)
    × (joined cs ≡ started cs)

close_listener_lem :
    (s s' : Listener) (fd : ℕ)
    → s'.listen_fd ≡ some fd
    → s'.sockets_opened ≡ s.sockets_opened ++ fd ∷ []
    → s'.sockets_closed ≡ s.sockets_closed
    → ((close_listener s').listen_fd ≡ none) × Balanced s (close_listener s')
unfolding close_listener close_socket
close_listener_lem s s' fd e o c =
    subst (λ (x : Listener). (x.listen_fd ≡ none) × Balanced s x) (sym closed)
      (refl, (fd ∷ [], o, ap (λ q. q ++ fd ∷ []) c))
  where
    closed : close_listener s' ≡ record (close_socket fd s') { listen_fd = none }
    closed =
        ap
          (λ (o : Option ℕ). elim o as (λ _. Listener) [
            | none ↦ s'
            | some fd ↦ record (close_socket fd s') { listen_fd = none }
          ])
          e

run_server-Done :
    (ls : List ℕ) (s : Listener) (r : Bool × Listener) → Ready s r → Done ls s (run_server ls r)
unfolding run_server Ready
run_server-Done ls s (false, s') h = (h.0, h.1, refl, refl, refl, refl)
run_server-Done ls s (true, s') h =
    let t = making s'.listen_fd ls ls in
    let c = close_listener_lem s s' h.0 h.1 h.2 h.3 in
    (c.0, c.1, t.1, t.0 ∙ sym t.1, t.2 ∙ sym t.1, t.3 ∙ sym t.1)

-- `start` of a server with no listening socket and no loops, whatever `socket`, `bind`, `listen`
-- and `getsockname` answer: when it returns, it has closed the listening socket if it opened one,
-- and holds none; the loops whose threads it started are all of `io_threads` if it returns true
-- and none if not, they are the loops that it made, and it has told each of them to quit and
-- joined each. The loops themselves, their descriptors and their connections are left to the
-- destructor.
pub start-Released :
    (k : SocketAnswers) (port : ℕ) (io_threads : ℤ) (s : Listener)
    → s.listen_fd ≡ none
    → let (ok, cs, s') = start k port io_threads s in
      (s'.listen_fd ≡ none)
      × ((fds : List ℕ) × (s'.sockets_opened ≡ s.sockets_opened ++ fds)
          × (s'.sockets_closed ≡ s.sockets_closed ++ fds))
      × (started cs ≡ (if ok then count_from 0 (rounds io_threads) else []))
      × (made cs ≡ started cs)
      × (quitted cs ≡ started cs)
      × (joined cs ≡ started cs)
unfolding start
start-Released k port io_threads s n =
    run_server-Done (count_from 0 (rounds io_threads)) s (init_listen_socket k port s)
      (init_listen_socket-Ready k port s n)
