-- ===== src/Parser/Resume.antt =====
-- The header loop and one turn of the state machine over a list of bytes: they end, they do the same
-- with more bytes behind those that they read, and where the bytes ran out they can be resumed.
use cxx_epoll_http_server.Common.{
  ℕ, zero, suc, ◌≤◌, ◌<◌, ◌≡◌, refl, sym, ap, ◌∙◌, false, Option, none, some, [], ◌++◌, Bytes,
  length, arith, inl, inr, length-append,
}
use cxx_epoll_http_server.Input.{bytes_input}
use cxx_epoll_http_server.Parser.{
  Ret, ok, incomplete, error, State, request_line, headers, body, complete, failed, HttpParser,
  parse_headers, parse_state, is_final, done, more,
}
use cxx_epoll_http_server.Parser.Steps.{
  Round-cases, rank, round-rank, request_step, round, body_step, request_step-ok,
  request_step-incomplete, round-more, round-ok, round-incomplete, body_step-ok,
  body_step-incomplete,
}

abbrev pub headers_loop : ℕ → HttpParser → Bytes → Option (Ret × HttpParser × Bytes)
headers_loop = parse_headers bytes_input

pub headers_loop-more :
    (f : ℕ) (p q : HttpParser) (s u : Bytes)
    → round p s ≡ more q u
    → headers_loop (suc f) p s ≡ headers_loop f q u
unfolding parse_headers
headers_loop-more f p q s u e = rw (e, parse_headers)

headers_loop-done :
    (f : ℕ) (p : HttpParser) (s : Bytes) (x : Ret × HttpParser × Bytes)
    → round p s ≡ done x
    → headers_loop (suc f) p s ≡ some x
unfolding parse_headers
headers_loop-done f p s x e = rw (e, parse_headers)

pub headers_loop-zero : (p : HttpParser) (s : Bytes) → headers_loop zero p s ≡ none
unfolding parse_headers
headers_loop-zero p s = refl

pub round_of_loop :
    (f : ℕ) (p : HttpParser) (s : Bytes) (x y : Ret × HttpParser × Bytes)
    → round p s ≡ done x
    → headers_loop (suc f) p s ≡ some y
    → round p s ≡ done y
round_of_loop f p s x y e h = cc (headers_loop-done f p s x e)

-- Any fuel above the number of unread bytes is enough.
headers_loop-total :
    (f : ℕ) (p : HttpParser) (s : Bytes)
    → length s < f
    → (x : Ret × HttpParser × Bytes) × (headers_loop f p s ≡ some x)
headers_loop-total zero p s h = absurd (omega arith)
headers_loop-total (suc f) p s h = elim (Round-cases (round p s)) [
  | inl (x, e) ↦ (x, headers_loop-done f p s x e)
  | inr (q, u, e) ↦
      let (x, r) = headers_loop-total f q u (omega (arith, (round-more p q s [] u e).2)) in
      (x, headers_loop-more f p q s u e ∙ r)
]

headers_loop-fuel :
    (f g : ℕ) (p : HttpParser) (s : Bytes)
    → length s < f
    → length s < g
    → headers_loop f p s ≡ headers_loop g p s
headers_loop-fuel zero g p s h k = absurd (omega arith)
headers_loop-fuel (suc f) zero p s h k = absurd (omega arith)
headers_loop-fuel (suc f) (suc g) p s h k = elim (Round-cases (round p s)) [
  | inl (x, e) ↦ headers_loop-done f p s x e ∙ sym (headers_loop-done g p s x e)
  | inr (q, u, e) ↦
      let less = (round-more p q s [] u e).2 in
      headers_loop-more f p q s u e
      ∙ headers_loop-fuel f g q u (omega arith) (omega arith)
      ∙ sym (headers_loop-more g p q s u e)
]

-- The header loop takes the same lines off with more bytes behind them.
headers_loop-prefix :
    (f g : ℕ) (p q : HttpParser) (s t u : Bytes)
    → headers_loop f p s ≡ some (ok, q, u)
    → length (s ++ t) < g
    → (headers_loop g p (s ++ t) ≡ some (ok, q, u ++ t)) × (rank q.state ≤ 1)
headers_loop-prefix zero g p q s t u h k = cc (headers_loop-zero p s)
headers_loop-prefix (suc f) zero p q s t u h k = absurd (omega arith)
headers_loop-prefix (suc f) (suc g) p q s t u h k = elim (Round-cases (round p s)) [
  | inl (x, e) ↦
      let e' = round_of_loop f p s x (ok, q, u) e h in
      (
        headers_loop-done g p (s ++ t) (ok, q, u ++ t) (round-ok p q s t u e').0,
        round-rank p q s u e',
      )
  | inr (q', u', e) ↦
      let m = round-more p q' s t u' e in
      let ih =
        headers_loop-prefix f g q' q u' t u (sym (headers_loop-more f p q' s u' e) ∙ h)
          (omega (arith, m.2, length-append s t, length-append u' t)) in
      (headers_loop-more g p q' (s ++ t) (u' ++ t) m.0 ∙ ih.0, ih.1)
]

-- Where the bytes ran out among the headers, the loop goes on from the parser it left.
headers_loop-resume :
    (f g k : ℕ) (p q : HttpParser) (s t u : Bytes)
    → headers_loop f p s ≡ some (incomplete, q, u)
    → length (s ++ t) < g
    → length (u ++ t) < k
    → (headers_loop g p (s ++ t) ≡ headers_loop k q (u ++ t)) × (q.state ≡ p.state)
headers_loop-resume zero g k p q s t u h l r = cc (headers_loop-zero p s)
headers_loop-resume (suc f) zero k p q s t u h l r = absurd (omega arith)
headers_loop-resume (suc f) (suc g) k p q s t u h l r = elim (Round-cases (round p s)) [
  | inl (x, e) ↦
      let same = round-incomplete p q s u (round_of_loop f p s x (incomplete, q, u) e h) in
      rw (same.0, same.1)
        (
          headers_loop-fuel (suc g) k p (s ++ t) l
              (omega (arith, ap (λ v. length (v ++ t)) same.1)),
          refl,
        )
  | inr (q', u', e) ↦
      let m = round-more p q' s t u' e in
      let ih =
        headers_loop-resume f g k q' q u' t u (sym (headers_loop-more f p q' s u' e) ∙ h)
          (omega (arith, m.2, length-append s t, length-append u' t)) r in
      (headers_loop-more g p q' (s ++ t) (u' ++ t) m.0 ∙ ih.0, ih.1 ∙ m.1)
]

abbrev pub turn : State → HttpParser → Bytes → Option (Ret × HttpParser × Bytes)
turn = parse_state bytes_input

-- One turn of the state machine answers, and where it answers OK the machine has moved on.
pub turn-total :
    (st : State) (p : HttpParser) (s : Bytes)
    → (x : Ret × HttpParser × Bytes) × (turn st p s ≡ some x)
unfolding parse_state
turn-total request_line p s = (request_step p s, refl)
turn-total headers p s = headers_loop-total (suc (length s)) p s (omega arith)
turn-total body p s = (body_step p s, refl)
turn-total complete p s = ((ok, p, s), refl)
turn-total failed p s = ((error, p, s), refl)

pub turn-prefix :
    (st : State) (p q : HttpParser) (s t u : Bytes)
    → turn st p s ≡ some (ok, q, u)
    → p.state ≡ st
    → is_final st ≡ false
    → (turn st p (s ++ t) ≡ some (ok, q, u ++ t)) × (rank q.state < rank st)
unfolding parse_state is_final
turn-prefix request_line p q s t u h e n =
    let r = request_step-ok p q s t u (cc) in (ap some r.0, rw (r.1) (omega arith))
turn-prefix headers p q s t u h e n =
    let r = headers_loop-prefix _ (suc (length (s ++ t))) p q s t u h (omega arith) in
    (r.0, omega (arith, r.1))
turn-prefix body p q s t u h e n =
    let r = body_step-ok p q s t u (cc) in (ap some r.0, rw (r.1) (omega arith))
turn-prefix complete p q s t u h e n = cc
turn-prefix failed p q s t u h e n = cc

pub turn-resume :
    (st : State) (p q : HttpParser) (s t u : Bytes)
    → turn st p s ≡ some (incomplete, q, u)
    → (turn st p (s ++ t) ≡ turn st q (u ++ t)) × (q.state ≡ p.state)
unfolding parse_state
turn-resume request_line p q s t u h =
    let same = request_step-incomplete p q s u (cc) in rw (same.0, same.1) (refl, refl)
turn-resume headers p q s t u h = headers_loop-resume _ _ _ p q s t u h (omega arith) (omega arith)
turn-resume body p q s t u h =
    let same = body_step-incomplete p q s u (cc) in rw (same.0, same.1) (refl, refl)
turn-resume complete p q s t u h = cc
turn-resume failed p q s t u h = cc
