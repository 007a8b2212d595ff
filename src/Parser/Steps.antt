-- ===== src/Parser/Steps.antt =====
-- One step of the parser over a plain list of bytes: what it leaves unread, which state it goes
-- to, and that bytes which arrive behind those that it read make no difference to it.
use cxx_epoll_http_server.Common.{
  ℕ, ◌-◌, ◌≤◌, ◌<◌, ◌≡◌, refl, sym, ap, ◌∙◌, Option, some, [], ◌∷◌, ◌++◌, Bytes, length, take, drop,
  arith, ◌⊎◌, inl, inr, Option-cases, length-drop, length-append, take-append_le, drop-append_le,
}
use cxx_epoll_http_server.Buffer.{search_crlf}
use cxx_epoll_http_server.Buffer.Search.{search_crlf-lt, search_crlf-append}
use cxx_epoll_http_server.Input.{bytes_input}
use cxx_epoll_http_server.Parser.{
  Ret, ok, incomplete, State, request_line, headers, body, complete, failed, HttpParser,
  header_of_line, end_of_headers, peek_line, await_line, parse_request_line, parse_body, Round,
  done, more, on_request_line, on_header_line, header_round,
}

-- The parser over a list of bytes.
abbrev pub line_of : Bytes → Option (Bytes × ℕ)
line_of = peek_line bytes_input

abbrev pub request_step : HttpParser → Bytes → Ret × HttpParser × Bytes
request_step = parse_request_line bytes_input

abbrev pub round : HttpParser → Bytes → Round Bytes
round = header_round bytes_input

abbrev pub body_step : HttpParser → Bytes → Ret × HttpParser × Bytes
body_step = parse_body bytes_input

pub line_of-some :
    (s line : Bytes) (n : ℕ)
    → line_of s ≡ some (line, n)
    → (2 ≤ n) × (n ≤ length s) × (line ≡ take (n - 2) s) × (search_crlf s ≡ some (n - 2))
unfolding peek_line
line_of-some s line n h = elim (Option-cases (search_crlf s)) [
  | inl e ↦ ground arith
  | inr (i, e) ↦ ground (arith, search_crlf-lt s i e)
]

pub line_of-append :
    (s t line : Bytes) (n : ℕ) → line_of s ≡ some (line, n) → line_of (s ++ t) ≡ some (line, n)
unfolding peek_line
line_of-append s t line n h =
    ground
      (arith, line_of-some s line n h, search_crlf-append s t (n - 2), take-append_le (n - 2) s t)

-- Retrieving a line leaves the bytes behind it, with those that arrive later at the end.
drop-line :
    (s t line : Bytes) (n : ℕ) → line_of s ≡ some (line, n) → drop n (s ++ t) ≡ drop n s ++ t
drop-line s t line n h = drop-append_le n s t (line_of-some s line n h).1

pub await_line-ne-ok :
    (p q : HttpParser) (s u : Bytes) → await_line bytes_input p s ≡ (ok, q, u) → ⊥
unfolding await_line
await_line-ne-ok p q s u h = ground arith

pub await_line-incomplete :
    (p q : HttpParser) (s u : Bytes)
    → await_line bytes_input p s ≡ (incomplete, q, u)
    → (q ≡ p) × (u ≡ s)
unfolding await_line
await_line-incomplete p q s u h = ground arith

-- A request line that was read is read the same with more bytes behind it.
pub request_step-ok :
    (p q : HttpParser) (s t u : Bytes)
    → request_step p s ≡ (ok, q, u)
    → (request_step p (s ++ t) ≡ (ok, q, u ++ t)) × (q.state ≡ headers) × (length u < length s)
unfolding parse_request_line on_request_line
request_step-ok p q s t u h = elim (Option-cases (line_of s)) [
  | inl e ↦ absurd (await_line-ne-ok p q s u (ground (arith, e)))
  | inr ((line, n), e) ↦ ground (
    arith,
    line_of-append s t line n e,
    drop-line s t line n e,
    length-drop n s,
    line_of-some s line n e,
  )
]

pub request_step-incomplete :
    (p q : HttpParser) (s u : Bytes) → request_step p s ≡ (incomplete, q, u) → (q ≡ p) × (u ≡ s)
unfolding parse_request_line on_request_line
request_step-incomplete p q s u h = ground (arith, await_line-incomplete p q s u)

end_of_headers-ne-incomplete : (p : HttpParser) → (end_of_headers p).0 ≡ incomplete → ⊥
unfolding end_of_headers
end_of_headers-ne-incomplete p h = ground arith

pub header_of_line-state :
    (p q : HttpParser) (line : Bytes) → header_of_line p line ≡ some q → q.state ≡ p.state
unfolding header_of_line
header_of_line-state p q line h = ground arith

on_header_line-more :
    (p q : HttpParser) (s u line : Bytes)
    → on_header_line p s line ≡ more q u
    → (u ≡ s) × (q.state ≡ p.state) × ((v : Bytes) → on_header_line p v line ≡ more q v)
unfolding on_header_line
on_header_line-more p q s u [] h = cc
on_header_line-more p q s u (c ∷ l) h = elim (Option-cases (header_of_line p (c ∷ l))) [
  | inl e ↦ ground (arith, e)
  | inr (r, e) ↦ (
    ground (arith, e),
    ground (arith, e, header_of_line-state p r (c ∷ l) e),
    λ v. ground (arith, e),
  )
]

on_header_line-ok :
    (p q : HttpParser) (s u v line : Bytes) (r : Ret)
    → on_header_line p s line ≡ done (r, q, u)
    → (u ≡ s) × (on_header_line p v line ≡ done (r, q, v))
unfolding on_header_line
on_header_line-ok p q s u v [] r h = ground arith
on_header_line-ok p q s u v (c ∷ l) r h = ground arith

on_header_line-ne-incomplete :
    (p q : HttpParser) (s u line : Bytes) → on_header_line p s line ≡ done (incomplete, q, u) → ⊥
unfolding on_header_line
on_header_line-ne-incomplete p q s u [] h = ground (arith, end_of_headers-ne-incomplete p)
on_header_line-ne-incomplete p q s u (c ∷ l) h = ground arith

pub round_of_line :
    (p : HttpParser) (s line : Bytes) (n : ℕ)
    → line_of s ≡ some (line, n)
    → round p s ≡ on_header_line p (drop n s) line
unfolding header_round
round_of_line p s line n e = rw (e, header_round)

round_of_line-append :
    (p : HttpParser) (s t line : Bytes) (n : ℕ)
    → line_of s ≡ some (line, n)
    → round p (s ++ t) ≡ on_header_line p (drop n s ++ t) line
round_of_line-append p s t line n e =
    round_of_line p (s ++ t) line n (line_of-append s t line n e)
    ∙ ap (λ u. on_header_line p u line) (drop-line s t line n e)

-- A header line that was read is read the same with more bytes behind it, and takes bytes away.
pub round-more :
    (p q : HttpParser) (s t u : Bytes)
    → round p s ≡ more q u
    → (round p (s ++ t) ≡ more q (u ++ t)) × (q.state ≡ p.state) × (length u < length s)
unfolding header_round
round-more p q s t u h = elim (Option-cases (line_of s)) [
  | inl e ↦ ground (arith, e)
  | inr ((line, n), e) ↦
      let m = on_header_line-more p q (drop n s) u line (sym (round_of_line p s line n e) ∙ h) in
      (
        round_of_line-append p s t line n e
            ∙ m.2 (drop n s ++ t)
            ∙ ap (λ v. more q (v ++ t)) (sym m.0),
        m.1,
        omega (arith, ap length m.0, length-drop n s, line_of-some s line n e),
      )
]

pub round-ok :
    (p q : HttpParser) (s t u : Bytes)
    → round p s ≡ done (ok, q, u)
    → (round p (s ++ t) ≡ done (ok, q, u ++ t)) × (length u ≤ length s)
unfolding header_round
round-ok p q s t u h = elim (Option-cases (line_of s)) [
  | inl e ↦ ground (arith, e, await_line-ne-ok p q s u)
  | inr ((line, n), e) ↦
      let m =
        on_header_line-ok p q (drop n s) u (drop n s ++ t) line ok
          (sym (round_of_line p s line n e) ∙ h) in
      (
        round_of_line-append p s t line n e ∙ m.1 ∙ ap (λ v. done (ok, q, v ++ t)) (sym m.0),
        omega (arith, ap length m.0, length-drop n s),
      )
]

pub round-incomplete :
    (p q : HttpParser) (s u : Bytes) → round p s ≡ done (incomplete, q, u) → (q ≡ p) × (u ≡ s)
unfolding header_round
round-incomplete p q s u h = elim (Option-cases (line_of s)) [
  | inl e ↦ ground (arith, e, await_line-incomplete p q s u)
  | inr ((line, n), e) ↦
      absurd (on_header_line-ne-incomplete p q (drop n s) u line (ground (arith, e)))
]

pub body_step-ok :
    (p q : HttpParser) (s t u : Bytes)
    → body_step p s ≡ (ok, q, u)
    → (body_step p (s ++ t) ≡ (ok, q, u ++ t)) × (q.state ≡ complete)
unfolding parse_body
body_step-ok p q s t u h = ground (
  arith,
  length-append s t,
  drop-append_le p.content_length s t,
  take-append_le p.content_length s t,
)

pub body_step-incomplete :
    (p q : HttpParser) (s u : Bytes) → body_step p s ≡ (incomplete, q, u) → (q ≡ p) × (u ≡ s)
unfolding parse_body
body_step-incomplete p q s u h = ground arith

pub Round-cases :
    {B : Type 0} (r : Round B)
    → ((x : Ret × HttpParser × B) × (r ≡ done x)) ⊎ ((q : HttpParser) × (u : B) × (r ≡ more q u))
Round-cases (done x) = inl (x, refl)
Round-cases (more q u) = inr (q, u, refl)

-- How many steps the state machine has before it at most.
abbrev pub rank : State → ℕ
rank request_line = 3
rank headers = 2
rank body = 1
rank complete = 0
rank failed = 0

end_of_headers-rank : (p q : HttpParser) → end_of_headers p ≡ (ok, q) → rank q.state ≤ 1
unfolding end_of_headers
end_of_headers-rank p q h = ground arith

on_header_line-rank :
    (p q : HttpParser) (s u line : Bytes)
    → on_header_line p s line ≡ done (ok, q, u)
    → rank q.state ≤ 1
unfolding on_header_line
on_header_line-rank p q s u [] h = end_of_headers-rank p q (ground arith)
on_header_line-rank p q s u (c ∷ l) h = ground arith

-- The header loop ends in the state of the body, or in that of a complete request.
pub round-rank : (p q : HttpParser) (s u : Bytes) → round p s ≡ done (ok, q, u) → rank q.state ≤ 1
unfolding header_round
round-rank p q s u h = elim (Option-cases (line_of s)) [
  | inl e ↦ absurd (await_line-ne-ok p q s u (ground (arith, e)))
  | inr ((line, n), e) ↦
      on_header_line-rank p q (drop n s) u line (sym (round_of_line p s line n e) ∙ h)
]
