-- ===== src/Http/Tests.antt =====
-- The theorems on HTTP messages, at concrete ones.
use cxx_epoll_http_server.Common.{
  ◌≡◌, codes, map, ◌+◌, refl, some, [], ◌∷◌, ◌++◌, Bytes, length, arith, beq,
}
use cxx_epoll_http_server.Decimal.{pos, strtoll}
use cxx_epoll_http_server.Headers
use cxx_epoll_http_server.Http.{HttpResponse, new_response, status_line, header_line, to_string}
use cxx_epoll_http_server.Http.Framing.{split_lines, to_string_lem}

abbrev greeting : HttpResponse
greeting = record new_response {
  headers = (codes "Content-Type", codes "text/plain") ∷ [];
  body = codes "hello";
}

to_string_lem_example :
    (v : Bytes) × (split_lines (length greeting.headers + 3) (to_string greeting)
      ≡ some (
        status_line greeting
            ∷ (map header_line greeting.headers ++ header_line (codes "Content-Length", v) ∷ []),
        greeting.body,
      ))
    × (strtoll v ≡ some (pos (length greeting.body)))
unfolding header_line Headers.find beq
to_string_lem_example = to_string_lem greeting tt (ground arith) refl (omega arith)
