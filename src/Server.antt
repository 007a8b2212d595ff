-- ===== src/Server.antt =====
-- include/ws/server.h and src/server.cpp: which response a request gets, static files, and the
-- acceptor, which deals the connections out to the loops. The file system is a parameter: what
-- `stat` and `std::ifstream` answer for a name. The answers of `accept4` are a list; where it
-- ends, the answer is EAGAIN.
pub mod Routes
pub mod Static
pub mod Accepting
pub mod Start
mod Tests
use cxx_epoll_http_server.Common.{
  ℕ, zero, suc, ◌+◌, ◌-◌, ◌%◌, Bool, true, false, not, ◌&&◌, ◌||◌, Option, none, some, List, [],
  ◌∷◌, ◌++◌, Bytes, codes, beq, length, drop, take, ltb, leb, ◌==◌, if◌then◌else◌, add_size,
}
use cxx_epoll_http_server.Decimal.{ℤ, pos, negsuc, to_string as decimal}
use cxx_epoll_http_server.Http
use cxx_epoll_http_server.Http.{HttpRequest, HttpResponse, set_header, text_plain}
use cxx_epoll_http_server.Stats.{ServerCounters, active_connections}

-- What `stat` with `S_ISREG`, and reading a file to its end, answer for a name.
pub record FileSystem : Type 0 where
  pub is_regular : Bytes → Bool
  pub read_file : Bytes → Option Bytes

-- `std::string::rfind(c)`.
unfoldable pub find_last : ℕ → Bytes → Option ℕ
find_last c [] = none
find_last c (x ∷ s) = elim (find_last c s) [
  | none ↦ if x == c then some 0 else none
  | some i ↦ some (suc i)
]

-- `find("..") != npos`.
unfoldable pub has_dots : Bytes → Bool
has_dots [] = false
has_dots (x ∷ []) = false
has_dots (x ∷ y ∷ s) = let rest = has_dots (y ∷ s) in if x == b'.' && y == b'.' then true else rest

abbrev octets : Bytes
octets = codes "application/octet-stream"

-- The type by the extension, with its dot.
unfoldable pub type_of_extension : Bytes → Bytes
type_of_extension ext =
    if beq ext (codes ".html") || beq ext (codes ".htm")
    then codes "text/html; charset=utf-8"
    else if beq ext (codes ".css")
    then codes "text/css; charset=utf-8"
    else if beq ext (codes ".js")
    then codes "application/javascript; charset=utf-8"
    else if beq ext (codes ".json")
    then codes "application/json; charset=utf-8"
    else if beq ext (codes ".txt")
    then codes "text/plain; charset=utf-8"
    else if beq ext (codes ".png")
    then codes "image/png"
    else if beq ext (codes ".jpg") || beq ext (codes ".jpeg")
    then codes "image/jpeg"
    else if beq ext (codes ".svg")
    then codes "image/svg+xml"
    else octets

unfoldable pub content_type_of : Bytes → Bytes
content_type_of path = elim (find_last b'.' path) [
  | none ↦ octets
  | some dot ↦ type_of_extension (drop dot path)
]

pub record Stats : Type 0 where
  pub accepted : ℕ
  pub requests : ℕ
  pub responses : ℕ
  pub errors : ℕ
  pub timeouts_closed : ℕ
  pub bytes_read : ℕ
  pub bytes_written : ℕ
  pub active_connections : ℤ
  pub pending_timers : ℕ

unfoldable pub sum_sizes : ℕ → List ℕ → ℕ
sum_sizes n [] = n
sum_sizes n (m ∷ ms) = sum_sizes (add_size n m) ms

-- The counters, the timers of the main loop, and those of each other loop.
unfoldable pub snapshot : ServerCounters → ℕ → List ℕ → Stats
snapshot c main subs = record {
  accepted = c.accepted;
  requests = c.requests;
  responses = c.responses;
  errors = c.errors;
  timeouts_closed = c.timeouts_closed;
  bytes_read = c.bytes_read;
  bytes_written = c.bytes_written;
  active_connections = active_connections c;
  pending_timers = sum_sizes main subs;
}

-- `%lld`.
unfoldable pub signed_decimal : ℤ → Bytes
signed_decimal (pos n) = decimal n
signed_decimal (negsuc n) = b'-' ∷ decimal (n + 1)

-- The format of `snprintf`: the text before each number, and the number.
unfoldable pub stats_fields : Stats → List (Bytes × Bytes)
stats_fields s =
    (codes "{\"accepted\":", decimal s.accepted)
    ∷ (codes ",\"requests\":", decimal s.requests)
    ∷ (codes ",\"responses\":", decimal s.responses)
    ∷ (codes ",\"errors\":", decimal s.errors)
    ∷ (codes ",\"timeouts_closed\":", decimal s.timeouts_closed)
    ∷ (codes ",\"bytes_read\":", decimal s.bytes_read)
    ∷ (codes ",\"bytes_written\":", decimal s.bytes_written)
    ∷ (codes ",\"active_connections\":", signed_decimal s.active_connections)
    ∷ (codes ",\"pending_timers\":", decimal s.pending_timers)
    ∷ []

unfoldable pub print_fields : List (Bytes × Bytes) → Bytes
print_fields [] = codes "}\n"
print_fields ((label, digits) ∷ fields) = label ++ (digits ++ print_fields fields)

-- The text that `snprintf` is to write.
unfoldable pub stats_text : Stats → Bytes
unfolding stats_fields print_fields
stats_text s = print_fields (stats_fields s)

-- `snprintf` into 512 bytes, of which the last is the NUL.
unfoldable pub stats_body : Stats → Bytes
stats_body s = take 511 (stats_text s)

unfoldable pub not_found : HttpResponse
not_found = Http.make 404 (codes "404 Not Found\n") text_plain

unfoldable pub not_allowed : HttpResponse
not_allowed = Http.make 405 (codes "405 Method Not Allowed\n") text_plain

unfoldable pub forbidden : HttpResponse
forbidden = Http.make 403 (codes "403 Forbidden\n") text_plain

unfoldable pub file_response : Bytes → Bytes → HttpResponse → HttpResponse
file_response full content resp =
    set_header
      (set_header (record resp { status = 200; body = content }) (codes "Content-Type")
        (content_type_of full))
      (codes "Content-Length") (decimal (length content))

-- The name below the document root.
unfoldable pub relative_name : Bytes → Bytes
relative_name path = if beq path (codes "/") then codes "/index.html" else path

unfoldable pub has_method : HttpRequest → Bytes → Bool
has_method req m = beq req.method m

-- What `handleRequest` adds to every response, and takes away from that to HEAD.
unfoldable pub finish : Bool → HttpResponse → HttpResponse
finish is_head resp =
    let r = set_header resp (codes "Server") (codes "ws-server/1.0") in
    if is_head
    then record (set_header r (codes "Content-Length") (decimal (length r.body))) { body = [] }
    else r

module _ (fs : FileSystem) (doc_root : Bytes) where
  unfoldable pub serve_static : HttpRequest → HttpResponse → HttpResponse
  serve_static req resp =
      let rel = relative_name req.path in
      let full = doc_root ++ rel in
      if has_dots rel
      then forbidden
      else if not (fs.is_regular full)
      then not_found
      else elim (fs.read_file full) [
        | none ↦ not_found
        | some content ↦ file_response full content resp
      ]

  -- The branches of `handleRequest`.
  unfoldable pub route : Stats → HttpRequest → HttpResponse → HttpResponse
  route s req resp =
      let get_like = has_method req (codes "GET") || has_method req (codes "HEAD") in
      if beq req.path (codes "/stats")
      then Http.make 200 (stats_body s) (codes "application/json; charset=utf-8")
      else if beq req.path (codes "/echo")
      then (if has_method req (codes "POST") || has_method req (codes "PUT")
          then Http.make 200 req.body (codes "text/plain; charset=utf-8")
          else not_allowed)
      else if get_like && (beq req.path (codes "/hello") || beq req.path (codes "/healthz"))
      then Http.make 200 (codes "Hello from ws-server\n") text_plain
      else if get_like
      then serve_static req resp
      else not_allowed

  unfoldable pub handle_request : Stats → HttpRequest → HttpResponse → HttpResponse
  handle_request s req resp = finish (has_method req (codes "HEAD")) (route s req resp)

-- What `accept4` answers: a descriptor, or an `errno`.
pub data AcceptResult : Type 0 where
  accepted : ℕ → AcceptResult
  refused : ℕ → AcceptResult

-- The acceptor's view of the server. A loop is a number, that of the sub-reactor, or 0 for the main
-- loop where there is no other. `tasks` are those queued for the loops, oldest first.
pub record Acceptor : Type 0 where
  pub max_connections : ℤ
  pub sub_loops : ℕ
  pub next_sub : ℕ
  pub counters : ServerCounters
  pub tasks : List (ℕ × ℕ)
  pub attached : List (ℕ × ℕ)
  pub closed_fds : List ℕ

unfoldable pub pick_sub_loop : Acceptor → ℕ × Acceptor
pick_sub_loop a =
    if a.sub_loops == 0
    then (0, a)
    else (a.next_sub % a.sub_loops, record a { next_sub = add_size a.next_sub 1 })

-- What `attachConnection` does to the counters and to the loop's table.
unfoldable pub attach_connection : ℕ → ℕ → Acceptor → Acceptor
attach_connection loop fd a = record a {
  attached = a.attached ++ (loop, fd) ∷ [];
  counters = record a.counters {
    accepted = add_size a.counters.accepted 1;
    opened = add_size a.counters.opened 1;
  };
}

-- `runInLoop` on the main thread: at once on the main loop, through the queue on any other.
unfoldable pub run_in_loop : ℕ → ℕ → Acceptor → Acceptor
run_in_loop loop fd a =
    if a.sub_loops == 0
    then attach_connection loop fd a
    else record a { tasks = a.tasks ++ (loop, fd) ∷ [] }

-- `a <= b` of signed numbers.
unfoldable pub at_most : ℤ → ℤ → Bool
at_most (pos m) (pos n) = leb m n
at_most (pos m) (negsuc n) = false
at_most (negsuc m) (pos n) = true
at_most (negsuc m) (negsuc n) = leb n m

unfoldable pub at_limit : Acceptor → Bool
at_limit a = at_most a.max_connections (active_connections a.counters)

unfoldable pub on_accepted : ℕ → Acceptor → Acceptor
on_accepted fd a =
    if at_limit a
    then record a {
      counters = record a.counters { errors = add_size a.counters.errors 1 };
      closed_fds = a.closed_fds ++ fd ∷ [];
    }
    else (let (loop, a') = pick_sub_loop a in run_in_loop loop fd a')

unfoldable pub on_accept : List AcceptResult → Acceptor → Acceptor
on_accept [] a = a
on_accept (accepted fd ∷ rs) a = on_accept rs (on_accepted fd a)
on_accept (refused e ∷ rs) a = let again = on_accept rs a in if e == 4 then again else a
