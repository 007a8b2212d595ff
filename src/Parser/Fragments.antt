-- ===== src/Parser/Fragments.antt =====
-- Where the answer depends on how the bytes were cut up on their way: the limit on a line that has
-- not ended counts bytes that the limit on a whole line does not.
use cxx_epoll_http_server.Common.{
  ℕ, ◌+◌, ◌<◌, ◌≡◌, refl, sym, ap, ◌∙◌, none, some, [], ◌∷◌, ◌++◌, Bytes, length, drop, arith,
  Lacks, length-append, lt→ltb, take-append_eq, drop-append_eq, drop-drop,
}
use cxx_epoll_http_server.Buffer.Search.{search_crlf-Lacks, search_crlf-line, search_crlf-split}
use cxx_epoll_http_server.Http.{HttpRequest}
use cxx_epoll_http_server.Input.{bytes_input}
use cxx_epoll_http_server.Parser.{
  ok, error, State, HttpParser, max_request_line, request_of_line, header_of_line, fail, peek_line,
  await_line, parse_request_line, on_request_line, header_round, on_header_line, done, more,
}
use cxx_epoll_http_server.Parser.Steps.{line_of, request_step, round, round_of_line}

line_of-none : (s : Bytes) → Lacks 13 s → line_of s ≡ none
unfolding peek_line
line_of-none s l = rw (search_crlf-Lacks s l, peek_line)

pub line_of-line :
    (s t : Bytes) → Lacks 13 s → line_of (s ++ (13 ∷ 10 ∷ t)) ≡ some (s, length s + 2)
unfolding peek_line
line_of-line s t l =
    rw (search_crlf-line s t l, peek_line)
      (ap (λ u. some (u, length s + 2)) (take-append_eq (length s) s (13 ∷ 10 ∷ t) refl))

pub drop_line : (s t : Bytes) → drop (length s + 2) (s ++ (13 ∷ 10 ∷ t)) ≡ t
drop_line s t =
    sym (drop-drop 2 (length s) (length s + 2) (s ++ (13 ∷ 10 ∷ t)) refl)
    ∙ ap (drop 2) (drop-append_eq (length s) s (13 ∷ 10 ∷ t) refl)

await_line_long :
    (p : HttpParser) (s : Bytes)
    → max_request_line < length s
    → await_line bytes_input p s ≡ (error, fail p, s)
unfolding await_line
await_line_long p s h = rw (lt→ltb 8192 (length s) h)

on_header_line_of :
    (p q : HttpParser) (c : ℕ) (s rest : Bytes)
    → header_of_line p (c ∷ s) ≡ some q
    → on_header_line p rest (c ∷ s) ≡ more q rest
unfolding on_header_line
on_header_line_of p q c s rest e = rw (e, on_header_line)

pub request_step_of_line :
    (p : HttpParser) (r : HttpRequest) (line rest : Bytes)
    → Lacks 13 line
    → request_of_line p.request line ≡ some r
    → request_step p (line ++ (13 ∷ 10 ∷ rest))
      ≡ (ok, record p { state = State.headers; request = r }, rest)
unfolding parse_request_line on_request_line
request_step_of_line p r line rest l e =
    rw (line_of-line line rest l, parse_request_line, e, on_request_line)
      (ap (λ u. (ok, record p { state = State.headers; request = r }, u)) (drop_line line rest))

-- A header line with no carriage return and more than 8192 bytes that `parseHeaders` would accept
-- is accepted if its line end has arrived with it, and is an error if the parser runs before the
-- line end has arrived.
pub long_header_depends_on_arrival :
    (p q : HttpParser) (c : ℕ) (s rest : Bytes)
    → Lacks 13 (c ∷ s)
    → max_request_line < length (c ∷ s)
    → header_of_line p (c ∷ s) ≡ some q
    → (round p ((c ∷ s) ++ (13 ∷ 10 ∷ rest)) ≡ more q rest)
      × (round p (c ∷ s) ≡ done (error, fail p, c ∷ s))
unfolding header_round
long_header_depends_on_arrival p q c s rest l h e = (
  round_of_line p _ (c ∷ s) _ (line_of-line (c ∷ s) rest l)
      ∙ ap (λ u. on_header_line p u (c ∷ s)) (drop_line (c ∷ s) rest)
      ∙ on_header_line_of p q c s rest e,
  rw (line_of-none (c ∷ s) l, header_round) (ap done (await_line_long p (c ∷ s) h)),
)

-- A request line that is as long as the limit allows is accepted if its line end arrived in one
-- piece, and is an error if the parser runs between the two bytes of the line end.
pub full_request_line_depends_on_arrival :
    (p : HttpParser) (r : HttpRequest) (line rest : Bytes)
    → Lacks 13 line
    → length line ≡ max_request_line
    → request_of_line p.request line ≡ some r
    → (request_step p (line ++ (13 ∷ 10 ∷ rest))
        ≡ (ok, record p { state = State.headers; request = r }, rest))
      × (request_step p (line ++ (13 ∷ [])) ≡ (error, fail p, line ++ (13 ∷ [])))
unfolding parse_request_line peek_line
full_request_line_depends_on_arrival p r line rest l h e = (
  request_step_of_line p r line rest l e,
  rw (search_crlf-split line l, peek_line, parse_request_line)
      (await_line_long p _ (omega (arith, length-append line (13 ∷ [])))),
)
