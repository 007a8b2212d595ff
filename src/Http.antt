-- ===== src/Http.antt =====
-- include/ws/http.h and src/http.cpp: requests, responses, and how a response is written out. A
-- status is a number that is not negative, as all that the program sets are.
pub mod Compare
pub mod Framing
mod Tests
use cxx_epoll_http_server.Common.{
  ℕ, zero, suc, Bool, true, false, not, ◌&&◌, Option, none, some, List, [], ◌∷◌, ◌++◌, Bytes, codes,
  beq, to_lower, length, ◌==◌, if◌then◌else◌,
}
use cxx_epoll_http_server.Headers
use cxx_epoll_http_server.Headers.{Headers}
use cxx_epoll_http_server.Decimal.{to_string as decimal}

pub record HttpRequest : Type 0 where
  pub method : Bytes
  pub path : Bytes
  pub query : Bytes
  pub version : Bytes
  pub headers : Headers
  pub body : Bytes

pub record HttpResponse : Type 0 where
  pub status : ℕ
  pub reason : Bytes
  pub headers : Headers
  pub body : Bytes
  pub close_connection : Bool

unfoldable pub same_lower : Bytes → Bytes → Bool
same_lower [] ys = true
same_lower (x ∷ xs) [] = true
same_lower (x ∷ xs) (y ∷ ys) = to_lower x == to_lower y && same_lower xs ys

unfoldable pub iequals : Bytes → Bytes → Bool
iequals a b = if length a == length b then same_lower a b else false

unfoldable pub get_header : HttpRequest → Bytes → Bytes
get_header r k = elim (Headers.find k r.headers) [ none ↦ [] | some v ↦ v ]

unfoldable pub has_header : HttpRequest → Bytes → Bool
has_header r k = elim (Headers.find k r.headers) [ none ↦ false | some v ↦ true ]

unfoldable pub keep_alive : HttpRequest → Bool
keep_alive r =
    let conn = get_header r (codes "connection") in
    if beq r.version (codes "HTTP/1.0")
    then iequals conn (codes "keep-alive")
    else not (iequals conn (codes "close"))

-- `HttpRequest{}`, and what `clear` leaves.
abbrev pub empty_request : HttpRequest
empty_request = record { method = []; path = []; query = []; version = []; headers = []; body = [] }

unfoldable pub clear : HttpRequest → HttpRequest
clear r = record r { method = []; path = []; query = []; version = []; headers = []; body = [] }

-- `HttpResponse()`.
abbrev pub new_response : HttpResponse
new_response = record {
  status = 200;
  reason = [];
  headers = [];
  body = [];
  close_connection = false;
}

unfoldable pub reason_phrase : ℕ → Bytes
reason_phrase status =
    if status == 100
    then codes "Continue"
    else if status == 200
    then codes "OK"
    else if status == 201
    then codes "Created"
    else if status == 204
    then codes "No Content"
    else if status == 301
    then codes "Moved Permanently"
    else if status == 302
    then codes "Found"
    else if status == 304
    then codes "Not Modified"
    else if status == 400
    then codes "Bad Request"
    else if status == 403
    then codes "Forbidden"
    else if status == 404
    then codes "Not Found"
    else if status == 405
    then codes "Method Not Allowed"
    else if status == 408
    then codes "Request Timeout"
    else if status == 411
    then codes "Length Required"
    else if status == 413
    then codes "Payload Too Large"
    else if status == 414
    then codes "URI Too Long"
    else if status == 431
    then codes "Request Header Fields Too Large"
    else if status == 500
    then codes "Internal Server Error"
    else if status == 501
    then codes "Not Implemented"
    else if status == 503
    then codes "Service Unavailable"
    else codes "Unknown"

unfoldable pub set_header : HttpResponse → Bytes → Bytes → HttpResponse
set_header r k v = record r { headers = Headers.set k v r.headers }

-- The content type that `make` takes when it is given none.
abbrev pub text_plain : Bytes
text_plain = codes "text/plain; charset=utf-8"

unfoldable pub make : ℕ → Bytes → Bytes → HttpResponse
unfolding set_header
make status body content_type =
    set_header (record new_response { status = status; body = body }) (codes "Content-Type")
      content_type

abbrev pub crlf : Bytes
crlf = 13 ∷ 10 ∷ []

unfoldable pub header_line : Bytes × Bytes → Bytes
header_line (k, v) = k ++ (codes ": " ++ v)

-- The header lines, each with its line end, and then `rest`.
unfoldable pub header_lines : Headers → Bytes → Bytes
header_lines [] rest = rest
header_lines (kv ∷ m) rest = header_line kv ++ (crlf ++ header_lines m rest)

unfoldable pub is_empty : Bytes → Bool
is_empty [] = true
is_empty (c ∷ s) = false

unfoldable pub status_line : HttpResponse → Bytes
status_line r =
    codes "HTTP/1.1 "
    ++ (decimal r.status
        ++ (codes " " ++ (if is_empty r.reason then reason_phrase r.status else r.reason)))

-- The line that `toString` adds where the headers have no `Content-Length`.
unfoldable pub added_lines : HttpResponse → Headers
added_lines r = elim (Headers.find (codes "Content-Length") r.headers) [
  | none ↦ (codes "Content-Length", decimal (length r.body)) ∷ []
  | some v ↦ []
]

unfoldable pub to_string : HttpResponse → Bytes
to_string r =
    status_line r
    ++ (crlf ++ header_lines r.headers (header_lines (added_lines r) (crlf ++ r.body)))
