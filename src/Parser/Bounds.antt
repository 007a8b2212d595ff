-- ===== src/Parser/Bounds.antt =====
-- What a parser that answers OK has read: the limits of include/ws/http_parser.h.
use cxx_epoll_http_server.Common.{◌≤◌, ◌≡◌, refl, sym, ap, ◌∙◌, some, Bytes, length, arith, subst}
use cxx_epoll_http_server.Http.{clear}
use cxx_epoll_http_server.Input.{bytes_input, buffer_input}
use cxx_epoll_http_server.Buffer.{Buffer}
use cxx_epoll_http_server.Buffer.Invariant.{IsValid}
use cxx_epoll_http_server.Buffer.Contents.{contents}
use cxx_epoll_http_server.Parser.Stream.{seen, seen-parse}
use cxx_epoll_http_server.Parser.Calls.{parse_bytes-complete}
use cxx_epoll_http_server.Parser.{
  Ret, ok, complete, HttpParser, parse, new_parser, reset, max_body, max_header_count,
}
use cxx_epoll_http_server.Parser.Request.{HasLine, Stage, IsSound}
use cxx_epoll_http_server.Parser.Sound.{ResultSound, loop-IsSound}

pub new_parser-IsSound : IsSound new_parser
new_parser-IsSound = record { count = omega arith; sorted = tt; stage = (refl, refl) }

pub reset-IsSound : (p : HttpParser) → IsSound (reset p)
unfolding reset clear
reset-IsSound p = record { count = omega arith; sorted = tt; stage = (refl, refl) }

parse_bytes-IsSound : (p : HttpParser) (s : Bytes) → IsSound p → ResultSound (parse bytes_input p s)
unfolding parse
parse_bytes-IsSound p s v = loop-IsSound 4 p s v

pub parse-IsSound :
    (p q : HttpParser) (b c : Buffer) (r : Ret)
    → IsValid b
    → IsSound p
    → parse buffer_input p b ≡ some (r, q, c)
    → IsSound q
parse-IsSound p q b c r w v e =
    subst ResultSound (sym (seen-parse p b w) ∙ ap seen e) (parse_bytes-IsSound p (contents b) v)

-- Where a sound parser (a new or reset one, and any that `parse` leaves) answers OK on a valid
-- buffer, its state is COMPLETE, the method and the path are not empty, the version begins HTTP/1.
-- and has eight bytes or more, there are at most 100 headers, and the body has exactly the length
-- announced, at most 8 MiB.
pub parse_ok_lem :
    (p q : HttpParser) (b c : Buffer)
    → IsValid b
    → IsSound p
    → parse buffer_input p b ≡ some (ok, q, c)
    → (q.state ≡ complete)
      × HasLine q.request
      × (length q.request.headers ≤ max_header_count)
      × (length q.request.body ≡ q.content_length)
      × (q.content_length ≤ max_body)
parse_ok_lem p q b c w v e =
    let done =
      parse_bytes-complete p q (contents b) (contents c) (sym (seen-parse p b w) ∙ ap seen e) in
    let sound = parse-IsSound p q b c ok w v e in
    let st = subst (λ st. Stage st q) done sound.stage in (done, st.0, sound.count, st.1, st.2)
