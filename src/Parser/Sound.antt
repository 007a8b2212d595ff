-- ===== src/Parser/Sound.antt =====
-- The loops of the parser keep what each state has established.
use cxx_epoll_http_server.Common.{
  ℕ, zero, suc, ◌≡◌, refl, ◌∙◌, Bool, true, false, Option, none, some, [], ◌∷◌, Bytes, length, drop,
  arith, subst, inl, inr, Bool-cases, Option-cases, length-take, ltb, ltb→le,
}
use cxx_epoll_http_server.Input.{bytes_input}
use cxx_epoll_http_server.Parser.Steps.{round, header_of_line-state}
use cxx_epoll_http_server.Parser.{
  Ret, ok, incomplete, error, State, request_line, headers, body, complete, failed, HttpParser,
  parse_headers, parse_state, is_final, parse_loop, go_on, Round, done, more, peek_line,
  header_of_line, on_header_line, header_round, parse_body,
}
use cxx_epoll_http_server.Parser.Request.{
  HasLine-kept, Stage, IsSound, header_of_line-kept, end_of_headers-IsSound, fail-IsSound,
  await_line-IsSound, request_step-IsSound,
}

abbrev RoundSound : Round Bytes → Type 0
RoundSound (done (r, q, u)) = IsSound q
RoundSound (more q u) = IsSound q × (q.state ≡ headers)

on_header_line-IsSound :
    (p : HttpParser) (s line : Bytes)
    → IsSound p
    → p.state ≡ headers
    → RoundSound (on_header_line p s line)
unfolding on_header_line
on_header_line-IsSound p s [] v e = end_of_headers-IsSound p v e
on_header_line-IsSound p s (c ∷ l) v e = elim (Option-cases (header_of_line p (c ∷ l))) [
  | inl f ↦ rw (f, on_header_line) (fail-IsSound p v)
  | inr (q, f) ↦
      rw (f, on_header_line)
        (header_of_line-kept p q (c ∷ l) f v e, header_of_line-state p q (c ∷ l) f ∙ e)
]

round-IsSound :
    (p : HttpParser) (s : Bytes) → IsSound p → p.state ≡ headers → RoundSound (round p s)
unfolding header_round
round-IsSound p s v e = elim (Option-cases (peek_line bytes_input s)) [
  | inl f ↦ rw (f, header_round) (await_line-IsSound p s v)
  | inr ((line, n), f) ↦ rw (f, header_round) (on_header_line-IsSound p (drop n s) line v e)
]

abbrev pub ResultSound : Option (Ret × HttpParser × Bytes) → Type 0
ResultSound none = Unit {0}
ResultSound (some (r, q, u)) = IsSound q

headers_loop-IsSound :
    (f : ℕ) (p : HttpParser) (s : Bytes)
    → IsSound p
    → p.state ≡ headers
    → ResultSound (parse_headers bytes_input f p s)
unfolding parse_headers
headers_loop-IsSound zero p s v e = tt
headers_loop-IsSound (suc f) p s v e =
    split (round p s) (round-IsSound p s v e) (headers_loop-IsSound f)
  where
    split :
        (x : Round Bytes)
        → RoundSound x
        → ((q : HttpParser) (u : Bytes)
            → IsSound q
            → q.state ≡ headers
            → ResultSound (parse_headers bytes_input f q u))
        → ResultSound (elim x [ done r ↦ some r | more q u ↦ parse_headers bytes_input f q u ])
    split (done (r, q, u)) h ih = h
    split (more q u) h ih = ih q u h.0 h.1

body_step-IsSound :
    (p : HttpParser) (s : Bytes)
    → IsSound p
    → p.state ≡ body
    → IsSound (parse_body bytes_input p s).1
unfolding parse_body
body_step-IsSound p s v e = elim (Bool-cases (ltb (length s) p.content_length)) [
  | inl f ↦ rw (f, parse_body) v
  | inr f ↦
      let st = subst (λ st. Stage st p) e v.stage in
      rw (f, parse_body)
        record {
          count = v.count;
          sorted = v.sorted;
          stage = (
            HasLine-kept refl refl refl st.0,
            omega (arith, length-take p.content_length s, ltb→le (length s) p.content_length f),
            st.3,
          );
        }
]

turn-IsSound :
    (st : State) (p : HttpParser) (s : Bytes)
    → IsSound p
    → p.state ≡ st
    → ResultSound (parse_state bytes_input st p s)
unfolding parse_state
turn-IsSound request_line p s v e = request_step-IsSound p s v e
turn-IsSound headers p s v e = headers_loop-IsSound (suc (length s)) p s v e
turn-IsSound body p s v e = body_step-IsSound p s v e
turn-IsSound complete p s v e = v
turn-IsSound failed p s v e = v

pub loop-IsSound :
    (f : ℕ) (p : HttpParser) (s : Bytes) → IsSound p → ResultSound (parse_loop bytes_input f p s)
unfolding parse_loop go_on
loop-IsSound zero p s v = tt
loop-IsSound (suc f) p s v =
    split (is_final p.state) (parse_state bytes_input p.state p s) (turn-IsSound p.state p s v refl)
      (loop-IsSound f)
  where
    split :
        (t : Bool) (x : Option (Ret × HttpParser × Bytes))
        → ResultSound x
        → ((q : HttpParser) (u : Bytes) → IsSound q → ResultSound (parse_loop bytes_input f q u))
        → ResultSound (elim t [
          | true ↦ x
          | false ↦ elim x [ none ↦ none | some z ↦ go_on (parse_loop bytes_input f) z ]
        ])
    split true x h ih = h
    split false none h ih = tt
    split false (some (ok, q, u)) h ih = ih q u h
    split false (some (incomplete, q, u)) h ih = h
    split false (some (error, q, u)) h ih = h
