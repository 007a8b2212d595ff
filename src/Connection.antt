-- ===== src/Connection.antt =====
-- include/ws/connection.h and src/connection.cpp: a connection. Its methods run on the thread of
-- its loop alone, and act on the connection, the timers of the loop, the shared counters and the
-- kernel. All of these are the fields of `Scene`. The kernel's answers to `readv` and `write` are
-- lists which the calls take from the front; where a list ends, the answer is EAGAIN. What `epoll`
-- and `close` are told is a list of calls, oldest first. The request handler is a parameter.
pub mod Output
pub mod Watch
pub mod Requests
pub mod Replies
pub mod Reading
pub mod Idle
pub mod Lifecycle
pub mod Handlers
pub mod Release
pub mod TimerCount
pub mod History
pub mod Total
mod Tests
use cxx_epoll_http_server.Common.{
  ℕ, zero, suc, ◌+◌, ◌-◌, ◌*◌, Bool, true, false, not, ◌&&◌, ◌||◌, Option, none, some, List, [],
  ◌∷◌, ◌++◌, Bytes, codes, length, min, ltb, leb, ◌==◌, if◌then◌else◌, add_size,
}
use cxx_epoll_http_server.Buffer.{Buffer, ReadResult, failed, received}
use cxx_epoll_http_server.Buffer
use cxx_epoll_http_server.Http
use cxx_epoll_http_server.Http.{
  HttpRequest, HttpResponse, new_response, set_header, keep_alive, text_plain,
}
use cxx_epoll_http_server.Input.{buffer_input}
pub use cxx_epoll_http_server.Kernel.{eintr, eagain, WriteResult, took, refused}
use cxx_epoll_http_server.Parser.{Ret, ok, incomplete, error, HttpParser, parse, reset, new_parser}
use cxx_epoll_http_server.Stats.{ServerCounters}
use cxx_epoll_http_server.Timer.{TimerHeap, add_after, cancel, erase_id}

-- `del` and `mod` of the poller, where the flag tells whether EPOLLOUT is among the events, and
-- `close` of the descriptor.
pub data Call : Type 0 where
  poller_add : ℕ → Call
  poller_del : ℕ → Call
  poller_mod : ℕ → Bool → Call
  close_fd : ℕ → Call

-- `none` is the descriptor -1.
pub record Connection : Type 0 where
  pub fd : Option ℕ
  pub input : Buffer
  pub output : Buffer
  pub parser : HttpParser
  pub idle_timeout_s : ℕ
  pub idle_timer : ℕ
  pub last_activity : ℕ
  pub is_closed : Bool
  pub writing : Bool
  pub close_after_write : Bool
  pub stays : Bool

-- A timer's callback holds a weak pointer to the connection, which is named by its descriptor.
pub record Scene : Type 0 where
  pub conn : Connection
  pub timers : TimerHeap ℕ
  pub connections : List ℕ
  pub counters : ServerCounters
  pub calls : List Call
  pub reads : List ReadResult
  pub writes : List WriteResult
  pub sent : Bytes

-- `Connection(loop, fd, …)`, at the time `t`.
unfoldable pub new_connection : ℕ → ℕ → ℕ → Connection
new_connection fd idle_timeout_s t = record {
  fd = some fd;
  input = Buffer.ensure_writable_bytes (Buffer.make Buffer.initial_size) 2048;
  output = Buffer.make Buffer.initial_size;
  parser = new_parser;
  idle_timeout_s = idle_timeout_s;
  idle_timer = 0;
  last_activity = t;
  is_closed = false;
  writing = false;
  close_after_write = false;
  stays = true;
}

abbrev with_conn : Scene → Connection → Scene
with_conn s c = record s { conn = c }

abbrev add_error : Scene → Scene
add_error s = record s { counters = record s.counters { errors = add_size s.counters.errors 1 } }

unfoldable pub cancel_idle : ℕ → TimerHeap ℕ → TimerHeap ℕ
cancel_idle id h = if id == 0 then h else cancel id h

unfoldable pub release_calls : Option ℕ → List Call
release_calls none = []
release_calls (some fd) = poller_del fd ∷ close_fd fd ∷ []

-- `EventLoop::removeConnection`.
unfoldable pub remove_connection : Option ℕ → List ℕ → List ℕ
remove_connection none m = m
remove_connection (some fd) m = erase_id m fd

unfoldable pub close : Scene → Scene
close s = if s.conn.is_closed then s else record s {
  conn = record s.conn { is_closed = true; idle_timer = 0; fd = none };
  timers = cancel_idle s.conn.idle_timer s.timers;
  calls = s.calls ++ release_calls s.conn.fd;
  connections = remove_connection s.conn.fd s.connections;
  counters = record s.counters { closed = add_size s.counters.closed 1 };
}

-- The destructor, which runs when the last shared pointer goes.
unfoldable pub destroy : Scene → Scene
destroy s = record s {
  conn = record s.conn { fd = none };
  calls = s.calls ++ release_calls s.conn.fd;
}

unfoldable pub handle_error : Scene → Scene
handle_error s = close (add_error s)

unfoldable pub mod_calls : Option ℕ → Bool → List Call
mod_calls none on = []
mod_calls (some fd) on = poller_mod fd on ∷ []

unfoldable pub enable_writing : Bool → Scene → Scene
enable_writing on s = if s.conn.is_closed then s else record s {
  conn = record s.conn { writing = on };
  calls = s.calls ++ mod_calls s.conn.fd on;
}

-- What `handleWrite` does behind the call of `write`.
unfoldable pub after_write : Scene → Scene
after_write s =
    if Buffer.readable_bytes s.conn.output == 0
    then (let s' = (if s.conn.writing then enable_writing false s else s) in
        if s.conn.close_after_write then close s' else s')
    else if s.conn.writing
    then s
    else enable_writing true s

-- The kernel took `n` bytes of the output, as many as there are at most.
unfoldable pub wrote : ℕ → Scene → Scene
wrote n s =
    let m = min n (Buffer.readable_bytes s.conn.output) in
    if m == 0 then s else record s {
      conn = record s.conn { output = Buffer.retrieve s.conn.output m };
      counters = record s.counters { bytes_written = add_size s.counters.bytes_written m };
      sent = s.sent ++ Buffer.peek_string s.conn.output m;
    }

unfoldable pub on_write_result : WriteResult → Scene → Scene
on_write_result (took n) s = after_write (wrote n s)
on_write_result (refused e) s =
    if e == eintr then s else if e == eagain then after_write s else handle_error s

-- `::write`.
unfoldable pub next_write : List WriteResult → WriteResult × List WriteResult
next_write [] = (refused eagain, [])
next_write (r ∷ rs) = (r, rs)

unfoldable pub handle_write : Scene → Scene
handle_write s =
    if s.conn.is_closed
    then s
    else if Buffer.readable_bytes s.conn.output == 0
    then after_write s
    else (let (r, rs) = next_write s.writes in on_write_result r (record s { writes = rs }))

unfoldable pub is_empty : Bytes → Bool
is_empty [] = true
is_empty (c ∷ d) = false

unfoldable pub send : Bytes → Scene → Scene
send d s =
    if s.conn.is_closed || is_empty d
    then s
    else handle_write (record s { conn = record s.conn { output = Buffer.append s.conn.output d } })

-- A round of the loop of `handleRequest`: it returns, or goes on with the next request.
pub data Round : Type 0 where
  done more : Scene → Round

unfoldable pub bad_request : HttpResponse
bad_request =
    set_header (Http.make 400 (codes "400 Bad Request\n") text_plain) (codes "Connection")
      (codes "close")

unfoldable pub on_bad_request : Scene → Scene
on_bad_request s =
    send (Http.to_string bad_request)
      (add_error (record s { conn = record s.conn { close_after_write = true; stays = false } }))

-- Whether the connection stays open behind a response, and the response that is sent.
unfoldable pub stays_after : HttpRequest → HttpResponse → Bool
stays_after req resp = keep_alive req && not resp.close_connection

unfoldable pub answer : HttpRequest → HttpResponse → HttpResponse
answer req resp =
    if stays_after req resp then resp else set_header resp (codes "Connection") (codes "close")

abbrev count_request : Scene → Scene
count_request s = record s {
  counters = record s.counters { requests = add_size s.counters.requests 1 };
}

-- The handler may look at the counters and the timers.
module _ (handler : Scene → HttpRequest → HttpResponse → HttpResponse) where
  -- What follows a request that is complete, up to the reset of the parser.
  unfoldable pub on_request : Scene → Scene
  on_request s =
      let req = s.conn.parser.request in
      let s0 = count_request s in
      let resp = handler s0 req new_response in
      let s1 = record s0 {
        conn = record s.conn {
          stays = stays_after req resp;
          close_after_write = s.conn.close_after_write || not (stays_after req resp);
        };
      } in
      let s2 = send (Http.to_string (answer req resp)) s1 in
      record s2 {
        conn = record s2.conn { parser = reset s2.conn.parser };
        counters = record s2.counters { responses = add_size s2.counters.responses 1 };
      }

  unfoldable pub on_parsed : Ret → Scene → Round
  on_parsed incomplete s = done s
  on_parsed error s = done (on_bad_request s)
  on_parsed ok s =
      let s' = on_request s in
      if not s'.conn.stays || (Buffer.readable_bytes s'.conn.input == 0) then done s' else more s'

  -- The outer option is `none` where the parser ran out of fuel.
  unfoldable pub request_round : Scene → Option Round
  request_round s = elim (parse buffer_input s.conn.parser s.conn.input) [
    | none ↦ none
    | some (r, p, b) ↦
        some (on_parsed r (record s { conn = record s.conn { parser = p; input = b } }))
  ]

  unfoldable pub request_loop : ℕ → Scene → Option Scene
  request_loop zero s = none
  request_loop (suc f) s = elim (request_round s) [
    | none ↦ none
    | some (done s') ↦ some s'
    | some (more s') ↦ request_loop f s'
  ]

  -- Each round but the first takes a byte away at least.
  unfoldable pub handle_request : Scene → Option Scene
  handle_request s = request_loop (suc (suc (Buffer.readable_bytes s.conn.input))) s

  unfoldable pub touch : ℕ → Scene → Scene
  touch t s = record s { conn = record s.conn { last_activity = t } }

  -- The loop of `handleRead` over the answers of `readv`.
  unfoldable pub read_loop : ℕ → List ReadResult → Scene → Option Scene
  read_loop t [] s = handle_request (touch t (record s { reads = [] }))
  read_loop t (received [] ∷ rs) s = some (close (record s { reads = rs }))
  read_loop t (received (c ∷ d) ∷ rs) s = read_loop t rs (record s {
    conn = record s.conn { input = Buffer.read_fd s.conn.input (received (c ∷ d)) };
    counters = record s.counters { bytes_read = add_size s.counters.bytes_read (length (c ∷ d)) };
  })
  read_loop t (failed e ∷ rs) s =
      let again = read_loop t rs s in
      if e == eagain
      then handle_request (touch t (record s { reads = rs }))
      else if e == eintr
      then again
      else some (handle_error (record s { reads = rs }))

  unfoldable pub handle_read : ℕ → Scene → Option Scene
  handle_read t s = read_loop t s.reads s

-- `armIdleTimer` of a connection that a shared pointer owns.
unfoldable pub arm_idle_timer : ℕ → Scene → Scene
arm_idle_timer t s =
    if s.conn.is_closed || s.conn.idle_timeout_s == 0
    then s
    else (let (id, h) = add_after t (s.conn.idle_timeout_s * 1000) s.conn.fd s.timers in
        record s { conn = record s.conn { idle_timer = id }; timers = h })

abbrev pub ns_per_s : ℕ
ns_per_s = 1000000000

-- The timer's callback, of a connection that is still there.
unfoldable pub on_idle_timer : ℕ → Scene → Scene
on_idle_timer t s =
    if leb (s.conn.idle_timeout_s * ns_per_s) (t - s.conn.last_activity)
    then close (record s {
      conn = record s.conn { idle_timer = 0 };
      counters = record s.counters { timeouts_closed = add_size s.counters.timeouts_closed 1 };
    })
    else arm_idle_timer t s
