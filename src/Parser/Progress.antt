-- ===== src/Parser/Progress.antt =====
-- What a call of `parse` that answers OK takes away: never adds bytes, and from the state of the
-- request line it takes away at least one.
use cxx_epoll_http_server.Common.{
  ℕ, zero, suc, ◌≤◌, ◌<◌, ◌≡◌, sym, ap, ◌∙◌, false, Option, some, [], Bytes, length, arith, inl,
  inr, length-drop,
}
use cxx_epoll_http_server.Buffer.{Buffer}
use cxx_epoll_http_server.Buffer.Invariant.{IsValid}
use cxx_epoll_http_server.Buffer.Contents.{contents}
use cxx_epoll_http_server.Input.{buffer_input}
use cxx_epoll_http_server.Parser.{
  Ret, ok, State, request_line, headers, body, complete, failed, HttpParser, parse_body,
  parse_state, is_final, parse,
}
use cxx_epoll_http_server.Parser.Steps.{
  Round-cases, round, round-more, round-ok, request_step-ok, body_step,
}
use cxx_epoll_http_server.Parser.Resume.{
  headers_loop, headers_loop-more, headers_loop-zero, round_of_loop, turn,
}
use cxx_epoll_http_server.Parser.Calls.{
  loop, loop_final, loop_ok, loop_stop, loop-zero, Turned-total, at_end, moved, stopped,
}
use cxx_epoll_http_server.Parser.Stream.{seen, seen-parse}

headers_loop-shrinks :
    (f : ℕ) (p q : HttpParser) (s u : Bytes)
    → headers_loop f p s ≡ some (ok, q, u)
    → length u ≤ length s
headers_loop-shrinks zero p q s u h = cc (headers_loop-zero p s)
headers_loop-shrinks (suc f) p q s u h = elim (Round-cases (round p s)) [
  | inl (x, e) ↦ (round-ok p q s [] u (round_of_loop f p s x (ok, q, u) e h)).1
  | inr (r, v, e) ↦
      let ih = headers_loop-shrinks f r q v u (sym (headers_loop-more f p r s v e) ∙ h) in
      omega (arith, (round-more p r s [] v e).2)
]

body_step-shrinks :
    (p q : HttpParser) (s u : Bytes) → body_step p s ≡ (ok, q, u) → length u ≤ length s
unfolding parse_body
body_step-shrinks p q s u h = ground (arith, length-drop p.content_length s)

turn-shrinks :
    (st : State) (p q : HttpParser) (s u : Bytes)
    → turn st p s ≡ some (ok, q, u)
    → length u ≤ length s
unfolding parse_state
turn-shrinks request_line p q s u h =
    let m = (request_step-ok p q s [] u (ground (arith, h))).2 in omega arith
turn-shrinks headers p q s u h = headers_loop-shrinks (suc (length s)) p q s u h
turn-shrinks body p q s u h = body_step-shrinks p q s u (ground (arith, h))
turn-shrinks complete p q s u h = let e : u ≡ s = cc in rw e (omega arith)
turn-shrinks failed p q s u h = cc

line_turn-shrinks :
    (p q : HttpParser) (s u : Bytes) → turn request_line p s ≡ some (ok, q, u) → length u < length s
unfolding parse_state
line_turn-shrinks p q s u h = (request_step-ok p q s [] u (ground (arith, h))).2

loop-shrinks :
    (f : ℕ) (p q : HttpParser) (s u : Bytes)
    → loop f p s ≡ some (ok, q, u)
    → (length u ≤ length s) × (p.state ≡ request_line → length u < length s)
unfolding is_final
loop-shrinks zero p q s u h = cc (loop-zero p s)
loop-shrinks (suc f) p q s u h = elim (Turned-total p s) [
  | at_end e ↦ (
    turn-shrinks p.state p q s u (sym (loop_final f p s e) ∙ h),
    λ d. (let r : is_final p.state ≡ false = ap is_final d in cc),
  )
  | moved r v e m l ↦
      let ih = (loop-shrinks f r q v u (sym (loop_ok f p r s v e m) ∙ h)).0 in
      let le = turn-shrinks p.state p r s v m in
      (
        omega arith,
        λ d.
            (let lt = line_turn-shrinks p r s v (ap (λ st. turn st p s) (sym d) ∙ m) in
              omega arith),
      )
  | stopped r q' u' e n m ↦ absurd (n (answer (sym (loop_stop f p q' s u' r e n m) ∙ h)))
]
  where
    answer :
        {r : Ret} {q' : HttpParser} {u' : Bytes}
        → ◌≡◌ {A = Option (Ret × HttpParser × Bytes)} (some (r, q', u')) (some (ok, q, u))
        → r ≡ ok
    answer e = cc

-- Where `parse` answers OK on a valid buffer, it leaves no more bytes than there were.
pub parse-shrinks :
    (p q : HttpParser) (b c : Buffer)
    → IsValid b
    → parse buffer_input p b ≡ some (ok, q, c)
    → (length (contents c) ≤ length (contents b))
      × (p.state ≡ request_line → length (contents c) < length (contents b))
unfolding parse
parse-shrinks p q b c v h =
    loop-shrinks 4 p q (contents b) (contents c) (sym (seen-parse p b v) ∙ ap seen h)
