-- ===== src/Server/Tests.antt =====
-- Runs of the server's routes and acceptor, and inputs at which their theorems hold.
use cxx_epoll_http_server.Common.{
  none, if◌then◌else◌, List, ℕ, ◌≡◌, ◌↔◌, refl, ap, ◌∙◌, true, false, some, [], ◌∷◌, ◌++◌, Bytes,
  codes, arith, beq,
}
use cxx_epoll_http_server.Headers
use cxx_epoll_http_server.Decimal.{pos, to_string as decimal}
use cxx_epoll_http_server.Http
use cxx_epoll_http_server.Http.{HttpRequest, HttpResponse, empty_request, new_response, set_header}
use cxx_epoll_http_server.Stats.{new_counters, active_connections, to_int64}
use cxx_epoll_http_server.Server.{
  FileSystem, Stats, has_dots, find_last, type_of_extension, content_type_of, relative_name,
  forbidden, not_found, file_response, has_method, finish, serve_static, route, handle_request,
  signed_decimal, Acceptor, accepted, refused, pick_sub_loop, attach_connection, run_in_loop,
  at_limit, on_accepted, on_accept, sum_sizes, snapshot,
}
use cxx_epoll_http_server.Server.Routes.{handle_request_head, without_body}
use cxx_epoll_http_server.Server.Static.{
  IsDotted, dotted-has_dots, IsServed, IsFile, parent_path_refused, serve_static_iff,
}
use cxx_epoll_http_server.Server.Accepting.{deal, Counted, on_accept-Counted}
use cxx_epoll_http_server.Server.Start.{new_listener, count_from, rounds, start}
use cxx_epoll_http_server.Server.Start.Released.{made, started, quitted, joined, start-Released}

-- What a run of the server computes with.
whole_server : ℕ
unfolding beq Headers.set Headers.find set_header Http.make has_dots find_last type_of_extension
    content_type_of relative_name forbidden not_found file_response has_method finish serve_static
    route handle_request sum_sizes snapshot active_connections to_int64 pick_sub_loop
    attach_connection run_in_loop at_limit on_accepted on_accept deal decimal signed_decimal
whole_server = 0

-- Every name is a file that holds one byte.
abbrev files : FileSystem
files = record { is_regular = λ n. true; read_file = λ n. some (b'!' ∷ []) }

abbrev get : Bytes → HttpRequest
get p = record empty_request { method = codes "GET"; path = p }

abbrev stats : Stats
stats = record {
  accepted = 1;
  requests = 2;
  responses = 2;
  errors = 0;
  timeouts_closed = 0;
  bytes_read = 80;
  bytes_written = 90;
  active_connections = pos 1;
  pending_timers = 1;
}

style_sheet : content_type_of (codes "./www/a.css") ≡ codes "text/css; charset=utf-8"
unfolding whole_server
style_sheet = refl

counted : snapshot (record new_counters { opened = 3; closed = 1 }) 4 (5 ∷ 6 ∷ []) ≡ record {
  accepted = 0;
  requests = 0;
  responses = 0;
  errors = 0;
  timeouts_closed = 0;
  bytes_read = 0;
  bytes_written = 0;
  active_connections = pos 2;
  pending_timers = 15;
}
unfolding whole_server
counted = refl

handle_request_head_example :
    handle_request files
      (codes "./www")
      stats
      (record (get (codes "/a.css")) { method = codes "HEAD" })
      new_response
    ≡ without_body files (codes "./www") stats (
        handle_request files
          (codes "./www")
          stats
          (record (get (codes "/a.css")) { method = codes "GET" })
          new_response)
handle_request_head_example =
    handle_request_head files (codes "./www") stats (get (codes "/a.css")) new_response

parent_path_refused_example :
    handle_request files (codes "./www") stats (get (codes "/../x")) new_response
    ≡ finish false forbidden
unfolding whole_server
parent_path_refused_example =
    parent_path_refused files (codes "./www") stats (get (codes "/../x")) new_response refl
      (codes "/", codes "/x", refl)

serve_static_iff_example :
    (((serve_static files (codes "./www") (get (codes "/")) new_response).status ≡ 200)
      ↔ ((content : Bytes) × IsServed files (codes "./www") (relative_name (codes "/")) content))
    × ((content : Bytes)
        → IsServed files (codes "./www") (relative_name (codes "/")) content
        → IsFile
            (codes "./www" ++ relative_name (codes "/"))
            content
            new_response
            (serve_static files (codes "./www") (get (codes "/")) new_response))
serve_static_iff_example = serve_static_iff files (codes "./www") (get (codes "/")) new_response

-- `-old/x` has no two dots in a row.
plain_name : IsDotted (codes "-old/x") → ⊥
unfolding whole_server
plain_name (a, b, e) = let q = ap has_dots e ∙ dotted-has_dots a b in absurd (cc)

abbrev acceptor : ℕ → Acceptor
acceptor n = record {
  max_connections = pos 1;
  sub_loops = n;
  next_sub = 0;
  counters = new_counters;
  tasks = [];
  attached = [];
  closed_fds = [];
}

on_accept-Counted_example :
    Counted (on_accept (accepted 7 ∷ refused 4 ∷ accepted 8 ∷ []) (acceptor 0))
on_accept-Counted_example =
    on_accept-Counted (accepted 7 ∷ refused 4 ∷ accepted 8 ∷ []) (acceptor 0) refl (omega arith)
      (omega arith) (omega arith, omega arith)

-- The port is taken.
start-Released_example :
    let (ok, cs, s') =
      start
        (record { socket = some 5; binds = false; listens = true; name = none })
        80
        (pos 2)
        new_listener in
    (s'.listen_fd ≡ none)
    × ((fds : List ℕ) × (s'.sockets_opened ≡ fds) × (s'.sockets_closed ≡ fds))
    × (started cs ≡ (if ok then count_from 0 (rounds (pos 2)) else []))
    × (made cs ≡ started cs)
    × (quitted cs ≡ started cs)
    × (joined cs ≡ started cs)
start-Released_example =
    start-Released (record { socket = some 5; binds = false; listens = true; name = none }) 80
      (pos 2) new_listener refl
