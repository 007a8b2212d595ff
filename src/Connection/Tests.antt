-- ===== src/Connection/Tests.antt =====
-- Runs of a connection, and inputs at which its theorems hold.
use cxx_epoll_http_server.Common.{
  ◌≤◌, suc, ◌*◌, ◌⊎◌, ◌<◌, ◌≡◌, refl, Bool, true, false, some, List, [], ◌∷◌, ◌++◌, Bytes, codes,
  length, arith, beq,
}
use cxx_epoll_http_server.Buffer
use cxx_epoll_http_server.Buffer.{
  Buffer, ReadResult, failed, received, append, make, readable_bytes,
}
use cxx_epoll_http_server.Buffer.Invariant.{IsValid}
use cxx_epoll_http_server.Http.{HttpRequest, HttpResponse, set_header}
use cxx_epoll_http_server.Http
use cxx_epoll_http_server.Input.{buffer_input}
use cxx_epoll_http_server.Headers
use cxx_epoll_http_server.Decimal.{to_string as decimal}
use cxx_epoll_http_server.Parser.{
  error, fail, parse, new_parser, is_empty, request_of_line, is_final, go_on, peek_line,
  on_request_line, parse_request_line, parse_state, parse_loop,
}
use cxx_epoll_http_server.Stats.{new_counters}
use cxx_epoll_http_server.Timer.{new_heap}
use cxx_epoll_http_server.Connection.{
  WriteResult, took, Scene, next_write, handle_write, send, request_round, Round, bad_request,
  handle_read,
}
use cxx_epoll_http_server.Connection.Output.{stream, send_lem}
use cxx_epoll_http_server.Connection.Watch.{watched, Told, Settled, handle_write-Settled}
use cxx_epoll_http_server.Connection.Replies.{scene_of, refusal, request_round-stream}
use cxx_epoll_http_server.Connection.{
  on_idle_timer, ns_per_s, poller_del, close_fd, destroy, handle_error,
}
use cxx_epoll_http_server.Connection.Total.{handle_read_total}
use cxx_epoll_http_server.Connection.Lifecycle.{mods, Lives, Dies}
use cxx_epoll_http_server.Connection.History.{
  History, start, next, writable, hung_up, alive_or_gone, released_once,
}
use cxx_epoll_http_server.Timer.{size}
use cxx_epoll_http_server.Connection.Idle.{on_idle_timer_lem}

abbrev small : Bytes → Buffer
small s = record { buf = s; read_idx = 0; write_idx = length s }

-- A connection whose input and output hold these bytes.
abbrev scene : Bytes → Bytes → List ReadResult → List WriteResult → Scene
scene i o rs ws = record {
  conn = record {
    fd = some 5;
    input = small i;
    output = small o;
    parser = new_parser;
    idle_timeout_s = 60;
    idle_timer = 0;
    last_activity = 0;
    is_closed = false;
    writing = false;
    close_after_write = false;
    stays = true;
  };
  timers = new_heap;
  connections = 5 ∷ [];
  counters = new_counters;
  calls = [];
  reads = rs;
  writes = ws;
  sent = [];
}

abbrev plain : Scene → HttpRequest → HttpResponse → HttpResponse
plain s req resp = record resp { body = codes "yes" }

small-IsValid : (s : Bytes) → length s < 100 → IsValid (small s)
small-IsValid s h = omega arith

abbrev hello : Bytes
hello = 71 ∷ 69 ∷ 84 ∷ []

send_lem_example :
    let s = scene [] hello [] (took 1 ∷ []) in
    (stream (send hello s) ≡ stream s ++ hello) × IsValid (send hello s).conn.output
send_lem_example =
    send_lem hello (scene [] hello [] (took 1 ∷ [])) refl (small-IsValid hello (omega arith))
      (omega arith)

scene-Told : Told 5 (scene [] hello [] (took 1 ∷ []))
unfolding watched
scene-Told = (refl, refl)

handle_write-Settled_example : Settled 5 (handle_write (scene [] hello [] (took 1 ∷ [])))
unfolding next_write
handle_write-Settled_example =
    handle_write-Settled 5 (scene [] hello [] (took 1 ∷ [])) scene-Told (λ h. cc)

-- An empty request line.
abbrev blank : Bytes
blank = 13 ∷ 10 ∷ []

blank_is_refused :
    parse buffer_input new_parser (small blank) ≡ some (error, fail new_parser, small blank)
unfolding Buffer.search_crlf Buffer.find_crlf Buffer.peek_string parse is_empty request_of_line
    is_final go_on peek_line on_request_line parse_request_line parse_state parse_loop
blank_is_refused = refl

length-bad_request : length (Http.to_string bad_request) ≡ 124
unfolding bad_request set_header Http.make Headers.set Headers.find beq decimal Http.to_string
    Http.status_line Http.header_line Http.header_lines Http.added_lines Http.is_empty
    Http.reason_phrase
length-bad_request = refl

request_round-stream_example :
    let s = scene blank hello [] [] in
    (x : Round) × (bytes : Bytes) × (request_round plain s ≡ some x)
    × (stream (scene_of x) ≡ stream s ++ bytes)
    × (bytes ≡ refusal)
request_round-stream_example =
    request_round-stream plain (scene blank hello [] []) error (fail new_parser) (small blank) refl
      (small-IsValid hello (omega arith)) (omega (arith, length-bad_request)) blank_is_refused

on_idle_timer_lem_example :
    let s = scene [] [] [] [] in
    let s' = on_idle_timer 5 s in
    ((60 * ns_per_s ≤ 5) × (s'.conn.is_closed ≡ true) × (size s'.timers ≡ size s.timers))
    ⊎ ((5 < 60 * ns_per_s) × (s'.conn.is_closed ≡ false) × (size s'.timers ≡ suc (size s.timers)))
on_idle_timer_lem_example = on_idle_timer_lem 5 (scene [] [] [] []) refl (omega arith)

-- The kernel takes one byte, and then the peer is gone.
abbrev hung : Scene
hung = handle_error (handle_write (record (scene [] hello [] []) { writes = took 1 ∷ [] }))

hung_reached : History plain (scene [] hello [] []) hung
hung_reached = next (next start (writable (took 1 ∷ []))) hung_up

alive_or_gone_example : Lives 5 (scene [] hello [] []) hung ⊎ Dies 5 (scene [] hello [] []) hung
alive_or_gone_example = alive_or_gone plain 5 (scene [] hello [] []) hung (refl, refl) hung_reached

released_once_example :
    (bs : List Bool) × ((destroy hung).calls ≡ mods 5 bs ++ poller_del 5 ∷ close_fd 5 ∷ [])
released_once_example = released_once plain 5 (scene [] hello [] []) hung (refl, refl) hung_reached

handle_read_total_example :
    let s = scene [] [] (received hello ∷ failed 11 ∷ []) [] in
    (r : Scene) × (handle_read plain 7 s ≡ some r) × IsValid r.conn.input
handle_read_total_example =
    handle_read_total plain 7 (scene [] [] (received hello ∷ failed 11 ∷ []) [])
      (small-IsValid [] (omega arith)) (omega arith)
