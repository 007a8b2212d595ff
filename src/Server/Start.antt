-- ===== src/Server/Start.antt =====
-- The life of a server, `initListenSocket`, `start` and `stop` of src/server.cpp. What the system
-- calls answer is an argument; the listening sockets that were opened and closed, and the calls on
-- loops and threads are lists, oldest first. The descriptors of a loop are its own, from when it is
-- made until the server goes. A sub-reactor is a number.
pub mod Released
use cxx_epoll_http_server.Common.{
  ℕ, zero, suc, Bool, true, false, not, Option, none, some, List, [], ◌∷◌, ◌++◌, map, if◌then◌else◌,
}
use cxx_epoll_http_server.Decimal.{ℤ, pos, negsuc}

-- `socket`, `bind`, `listen`, and the port that `getsockname` tells.
pub record SocketAnswers : Type 0 where
  pub socket : Option ℕ
  pub binds : Bool
  pub listens : Bool
  pub name : Option ℕ

-- `none` is the descriptor -1.
pub record Listener : Type 0 where
  pub listen_fd : Option ℕ
  pub listen_port : ℕ
  pub sockets_opened : List ℕ
  pub sockets_closed : List ℕ

abbrev pub new_listener : Listener
new_listener = record {
  listen_fd = none;
  listen_port = 0;
  sockets_opened = [];
  sockets_closed = [];
}

unfoldable pub close_socket : ℕ → Listener → Listener
close_socket fd s = record s { sockets_closed = s.sockets_closed ++ fd ∷ [] }

unfoldable pub port_of : Option ℕ → ℕ → ℕ
port_of none port = port
port_of (some p) port = p

-- With the descriptor that `socket` gave.
unfoldable pub set_up : SocketAnswers → ℕ → ℕ → Listener → Bool × Listener
set_up k port fd s =
    if not k.binds
    then (false, close_socket fd s)
    else if not k.listens
    then (false, close_socket fd s)
    else (true, record s { listen_fd = some fd; listen_port = port_of k.name port })

unfoldable pub init_listen_socket : SocketAnswers → ℕ → Listener → Bool × Listener
init_listen_socket k port s = elim k.socket [
  | none ↦ (false, s)
  | some fd ↦ set_up k port fd (record s { sockets_opened = s.sockets_opened ++ fd ∷ [] })
]

pub data LoopCall : Type 0 where
  make_loop : ℕ → LoopCall
  start_thread : ℕ → LoopCall
  set_acceptor : ℕ → LoopCall
  run_main_loop : LoopCall
  quit_main_loop : LoopCall
  quit_loop : ℕ → LoopCall
  join_thread : ℕ → LoopCall

-- The indices of a loop up to `n`.
unfoldable pub count_from : ℕ → ℕ → List ℕ
count_from i zero = []
count_from i (suc n) = i ∷ count_from (suc i) n

-- How many rounds the loop over `io_threads` has.
unfoldable pub rounds : ℤ → ℕ
rounds (pos n) = n
rounds (negsuc n) = 0

unfoldable pub acceptor_calls : Option ℕ → List LoopCall
acceptor_calls none = []
acceptor_calls (some fd) = set_acceptor fd ∷ []

unfoldable pub close_listener : Listener → Listener
close_listener s = elim s.listen_fd [
  | none ↦ s
  | some fd ↦ record (close_socket fd s) { listen_fd = none }
]

-- `start` behind `initListenSocket`, with these sub-reactors: what it returns, and what it has
-- called.
unfoldable pub run_server : List ℕ → Bool × Listener → Bool × List LoopCall × Listener
run_server loops (false, s) = (false, [], s)
run_server loops (true, s) = (
  true,
  map make_loop loops
      ++ (map start_thread loops
          ++ (acceptor_calls s.listen_fd
              ++ (run_main_loop ∷ (map quit_loop loops ++ map join_thread loops)))),
  close_listener s,
)

-- `start` of a server that has no loops yet.
unfoldable pub start : SocketAnswers → ℕ → ℤ → Listener → Bool × List LoopCall × Listener
start k port io_threads s =
    run_server (count_from 0 (rounds io_threads)) (init_listen_socket k port s)

-- `stop`, with these sub-reactors.
unfoldable pub stop : List ℕ → List LoopCall
stop loops = quit_main_loop ∷ map quit_loop loops
