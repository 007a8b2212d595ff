-- ===== src/Server/Routes.antt =====
-- The routes: HEAD against GET, what the methods are allowed, and the text of `/stats`.
use cxx_epoll_http_server.Common.{
  ℕ, ◌+◌, ◌^◌, ◌≤◌, ◌<◌, ◌≡◌, refl, List, [], ◌∷◌, ◌++◌, Bytes, codes, beq, length, take_all,
  length-append, arith,
}
use cxx_epoll_http_server.Decimal.{ℤ, pos, negsuc, to_string as decimal}
use cxx_epoll_http_server.Decimal.RoundTrip.{length-to_string}
use cxx_epoll_http_server.Http.{HttpRequest, HttpResponse, set_header}
use cxx_epoll_http_server.Server.{
  FileSystem, Stats, stats_text, stats_fields, print_fields, stats_body, signed_decimal, has_method,
  finish, serve_static, route, handle_request,
}

-- The numbers of `int64_t`.
abbrev pub Int64 : ℤ → Type 0
Int64 (pos n) = n < 2 ^ 63
Int64 (negsuc n) = n < 2 ^ 63

-- The counters that fit their types.
pub record Fits (s : Stats) : Type 0 where
  pub accepted : s.accepted < 2 ^ 64
  pub requests : s.requests < 2 ^ 64
  pub responses : s.responses < 2 ^ 64
  pub errors : s.errors < 2 ^ 64
  pub timeouts_closed : s.timeouts_closed < 2 ^ 64
  pub bytes_read : s.bytes_read < 2 ^ 64
  pub bytes_written : s.bytes_written < 2 ^ 64
  pub active : Int64 s.active_connections
  pub pending_timers : s.pending_timers < 2 ^ 64

digits : (n : ℕ) → n < 2 ^ 64 → length (decimal n) ≤ 20
digits n h = length-to_string 20 n (omega arith) (omega arith)

signed_digits : (z : ℤ) → Int64 z → length (signed_decimal z) ≤ 20
unfolding signed_decimal
signed_digits (pos n) h = digits n (omega arith)
signed_digits (negsuc n) h = omega (arith, length-to_string 19 (n + 1) (omega arith) (omega arith))

Short : List (Bytes × Bytes) → Type 0
Short [] = Unit {0}
Short ((l, d) ∷ fields) = (length d ≤ 20) × Short fields

labels_length : List (Bytes × Bytes) → ℕ
labels_length [] = 2
labels_length ((l, d) ∷ fields) = length l + 20 + labels_length fields

length-print_fields :
    (fields : List (Bytes × Bytes))
    → Short fields
    → length (print_fields fields) ≤ labels_length fields
unfolding print_fields Short labels_length
length-print_fields [] h = omega arith
length-print_fields ((l, d) ∷ fields) h = omega (
  arith,
  length-append l (d ++ print_fields fields),
  length-append d (print_fields fields),
  length-print_fields fields h.1,
)

stats_fields-Short : (s : Stats) → Fits s → Short (stats_fields s)
unfolding Short stats_fields
stats_fields-Short s f = (
  digits s.accepted f.accepted,
  (
    digits s.requests f.requests,
    (
      digits s.responses f.responses,
      (
        digits s.errors f.errors,
        (
          digits s.timeouts_closed f.timeouts_closed,
          (
            digits s.bytes_read f.bytes_read,
            (
              digits s.bytes_written f.bytes_written,
              (
                signed_digits s.active_connections f.active,
                (digits s.pending_timers f.pending_timers, tt),
              ),
            ),
          ),
        ),
      ),
    ),
  ),
)

stats_labels : (s : Stats) → labels_length (stats_fields s) ≤ 400
unfolding labels_length stats_fields
stats_labels s = omega arith

length-stats_text : (s : Stats) → Fits s → length (stats_text s) ≤ 400
unfolding stats_text
length-stats_text s f =
    omega (arith, length-print_fields (stats_fields s) (stats_fields-Short s f), stats_labels s)

-- With counters that fit their types, the text of `/stats` fits into the buffer of 512 bytes:
-- `snprintf` cuts nothing off.
pub stats_body-stats_text : (s : Stats) → Fits s → stats_body s ≡ stats_text s
unfolding stats_body
stats_body-stats_text s f =
    take_all 511 (stats_text s) (let l = length-stats_text s f in omega arith)

module _ (fs : FileSystem) (doc_root : Bytes) (s : Stats) where
  abbrev with_method : Bytes → HttpRequest → HttpRequest
  with_method m req = record req { method = m }

  -- What a response to GET becomes for HEAD.
  abbrev pub without_body : HttpResponse → HttpResponse
  without_body r = record (set_header r (codes "Content-Length") (decimal (length r.body))) {
    body = [];
  }

  -- The response to HEAD is the response to GET for the same request, with its body taken away and
  -- `Content-Length` set to that body's length.
  pub handle_request_head :
      (req : HttpRequest) (resp : HttpResponse)
      → handle_request fs doc_root s (record req { method = codes "HEAD" }) resp
        ≡ without_body (handle_request fs doc_root s (record req { method = codes "GET" }) resp)
  unfolding handle_request finish has_method route serve_static beq
  handle_request_head req resp = refl
