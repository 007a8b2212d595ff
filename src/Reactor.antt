-- ===== src/Reactor.antt =====
-- One loop of src/event_loop.cpp with its connections: a round of `loop`, which deals the events out
-- to the connections of src/connection.cpp, and `attachConnection` of src/server.cpp. The tasks that
-- are queued for a loop are descriptors to attach, as these are the only ones that the server has.
-- The table of connections is a function from descriptors; a connection sees its own entry alone.
-- An event brings what the kernel answers while it is handled, and the time.
pub mod Table
pub mod Events
pub mod Rounds
pub mod Entries
pub mod TimerBound
mod Tests
use cxx_epoll_http_server.Common.{
  ℕ, zero, suc, ◌+◌, ◌-◌, Bool, true, false, not, ◌&&◌, ◌||◌, Option, none, some, List, [], ◌∷◌,
  ◌++◌, Bytes, length, ◌==◌, if◌then◌else◌, add_size,
}
use cxx_epoll_http_server.Buffer.{ReadResult}
use cxx_epoll_http_server.Decimal.{ℤ, pos, negsuc}
use cxx_epoll_http_server.Http.{HttpRequest, HttpResponse}
use cxx_epoll_http_server.Kernel.{WriteResult}
use cxx_epoll_http_server.Stats.{ServerCounters}
use cxx_epoll_http_server.Timer.{TimerHeap, contains, size, expire, Expiring, next_timeout_ms}
use cxx_epoll_http_server.Connection.{
  Connection, Scene, Call, poller_add, new_connection, handle_error, handle_read, handle_write,
  on_idle_timer, arm_idle_timer,
}

abbrev pub Connections : Type 0
Connections = ℕ → Option Connection

-- `sent` has what the kernel took, with the descriptor, oldest first.
pub record Reactor : Type 0 where
  pub wakeup_fd : ℕ
  pub acceptor_fd : Option ℕ
  pub wake : ℕ
  pub connections : Connections
  pub timers : TimerHeap ℕ
  pub pending_timers : ℕ
  pub pending : List ℕ
  pub counters : ServerCounters
  pub calls : List Call
  pub sent : List (ℕ × Bytes)

pub record Event : Type 0 where
  pub fd : ℕ
  pub hup_or_err : Bool
  pub readable : Bool
  pub out : Bool
  pub time : ℕ
  pub reads : List ReadResult
  pub writes : List WriteResult

unfoldable pub update : ℕ → Option Connection → Connections → Connections
update fd o m x = if x == fd then o else m x

-- `addConnection`, `removeConnection` and `findConnection`.
unfoldable pub add_connection : ℕ → Connection → Reactor → Reactor
add_connection fd c r = record r { connections = update fd (some c) r.connections }

unfoldable pub find_connection : ℕ → Reactor → Option Connection
find_connection fd r = r.connections fd

-- What the methods of a connection act on, and the loop behind them.
unfoldable pub scene_of : Reactor → ℕ → Connection → List ReadResult → List WriteResult → Scene
scene_of r fd c rs ws = record {
  conn = c;
  timers = r.timers;
  connections = fd ∷ [];
  counters = r.counters;
  calls = r.calls;
  reads = rs;
  writes = ws;
  sent = [];
}

unfoldable pub put_back : ℕ → Scene → Reactor → Reactor
put_back fd s r = record r {
  connections = update fd (if contains s.connections fd then some s.conn else none) r.connections;
  timers = s.timers;
  counters = s.counters;
  calls = s.calls;
  sent = r.sent ++ (fd, s.sent) ∷ [];
}

unfoldable pub has_fd : Option ℕ → Bool
has_fd none = false
has_fd (some fd) = true

unfoldable pub is_acceptor : Option ℕ → ℕ → Bool
is_acceptor none fd = false
is_acceptor (some a) fd = fd == a

-- `handleWrite` behind the reading, where the connection is still open.
unfoldable pub then_write : Bool → Scene → Scene
then_write out s = if has_fd s.conn.fd && out then handle_write s else s

module _ (handler : Scene → HttpRequest → HttpResponse → HttpResponse) where
  unfoldable pub on_event : Event → Scene → Option Scene
  on_event e s =
      if e.hup_or_err
      then some (handle_error s)
      else elim (if e.readable then handle_read handler e.time s else some s) [
        | none ↦ none
        | some s' ↦ some (then_write e.out s')
      ]

  module _ (acceptor : Reactor → Reactor) where
    -- The body of the loop over the events.
    unfoldable pub dispatch : Event → Reactor → Option Reactor
    dispatch e r =
        if e.fd == r.wakeup_fd
        then some (record r { wake = 0 })
        else if is_acceptor r.acceptor_fd e.fd
        then some (acceptor r)
        else elim (find_connection e.fd r) [
          | none ↦ some r
          | some c ↦ elim (on_event e (scene_of r e.fd c e.reads e.writes)) [
            | none ↦ none
            | some s ↦ some (put_back e.fd s r)
          ]
        ]

    unfoldable pub dispatch_all : List Event → Reactor → Option Reactor
    dispatch_all [] r = some r
    dispatch_all (e ∷ es) r = elim (dispatch e r) [ none ↦ none | some r' ↦ dispatch_all es r' ]

-- The callback of a timer, which finds the connection by a weak pointer. Here it is the entry of its
-- descriptor: `close` cancels the timer, so none is left for a descriptor that is used again.
unfoldable pub run_timer : ℕ → ℕ → TimerHeap ℕ → Reactor → TimerHeap ℕ × Reactor
run_timer t fd h r = elim (find_connection fd r) [
  | none ↦ (h, r)
  | some c ↦
      let r' = put_back fd (on_idle_timer t (scene_of (record r { timers = h }) fd c [] [])) r in
      (r'.timers, r')
]

-- `attachConnection`.
unfoldable pub attach_connection : ℕ → ℕ → ℕ → Reactor → Reactor
attach_connection idle_timeout_s t fd r =
    let r1 = add_connection fd (new_connection fd idle_timeout_s t) r in
    let r2 = record r1 { calls = r1.calls ++ poller_add fd ∷ [] } in
    let r3 =
      put_back fd (arm_idle_timer t (scene_of r2 fd (new_connection fd idle_timeout_s t) [] []))
        r2 in
    record r3 {
      counters = record r3.counters {
        accepted = add_size r3.counters.accepted 1;
        opened = add_size r3.counters.opened 1;
      };
    }

unfoldable pub attach_all : ℕ → ℕ → List ℕ → Reactor → Reactor
attach_all idle_timeout_s t [] r = r
attach_all idle_timeout_s t (fd ∷ fds) r =
    attach_all idle_timeout_s t fds (attach_connection idle_timeout_s t fd r)

-- `runInLoop` with the task that attaches `fd`: at once where it runs on the thread of a loop that
-- has begun, through the queue where not.
unfoldable pub run_in_loop : Bool → ℕ → ℕ → ℕ → Reactor → Reactor
run_in_loop at_once idle_timeout_s t fd r =
    if at_once
    then attach_connection idle_timeout_s t fd r
    else record r { pending = r.pending ++ fd ∷ [] }

unfoldable pub set_acceptor : ℕ → Reactor → Reactor
set_acceptor fd r = record r { acceptor_fd = some fd; calls = r.calls ++ poller_add fd ∷ [] }

-- `doPendingFunctors`.
unfoldable pub do_pending_functors : ℕ → ℕ → Reactor → Reactor
do_pending_functors idle_timeout_s t r =
    attach_all idle_timeout_s t r.pending (record r { pending = [] })

-- The timeout of `epoll_wait`.
unfoldable pub wait_timeout : ℕ → Reactor → ℤ
wait_timeout now r = elim (next_timeout_ms now r.timers) [ pos ms ↦ pos ms | negsuc n ↦ pos 200 ]

pub data WaitResult : Type 0 where
  wait_failed : WaitResult
  ready : List Event → WaitResult

-- What is behind the events: the timers and the queue. The clock is read at `t` for the timers that
-- are due, and at `t'` in the callbacks. The fuel is one more than there are timers.
unfoldable pub after_events : ℕ → ℕ → ℕ → Reactor → Option Reactor
after_events idle_timeout_s t t' r =
    elim (expire (run_timer t') t (suc (length r.timers.heap)) r.timers r) [
      | none ↦ none
      | some x ↦ some (
          do_pending_functors idle_timeout_s t'
            (record x.world { timers = x.timers; pending_timers = size x.timers }))
    ]

module _ (handler : Scene → HttpRequest → HttpResponse → HttpResponse)
    (acceptor : Reactor → Reactor) where
  -- A round of `loop`. `none` is that fuel ran out.
  unfoldable pub loop_round : ℕ → ℕ → ℕ → WaitResult → Reactor → Option Reactor
  loop_round idle_timeout_s t t' wait_failed r = some r
  loop_round idle_timeout_s t t' (ready es) r = elim (dispatch_all handler acceptor es r) [
    | none ↦ none
    | some r' ↦ after_events idle_timeout_s t t' r'
  ]
