-- ===== src/Parser/Calls.antt =====
-- Whole calls of `parse`: they end, a request is read the same whatever bytes follow it, and a call
-- that ran out of bytes can be taken up again when more have arrived.
use cxx_epoll_http_server.Common.{
  ℕ, zero, suc, ◌≤◌, ◌<◌, ◌≡◌, refl, sym, ap, ◌∙◌, true, false, Option, none, some, [], ◌++◌, Bytes,
  arith, inl, inr, Bool-cases,
}
use cxx_epoll_http_server.Input.{bytes_input}
use cxx_epoll_http_server.Parser.{
  Ret, ok, incomplete, error, State, request_line, headers, body, complete, failed, HttpParser,
  parse_state, is_final, parse_loop, parse, go_on,
}
use cxx_epoll_http_server.Parser.Steps.{rank}
use cxx_epoll_http_server.Parser.Resume.{turn, turn-total, turn-prefix, turn-resume}

abbrev pub loop : ℕ → HttpParser → Bytes → Option (Ret × HttpParser × Bytes)
loop = parse_loop bytes_input

pub loop_final :
    (f : ℕ) (p : HttpParser) (s : Bytes)
    → is_final p.state ≡ true
    → loop (suc f) p s ≡ turn p.state p s
unfolding parse_loop
loop_final f p s e = rw (e, parse_loop)

loop-turn :
    (f : ℕ) (p : HttpParser) (s : Bytes) (x : Ret × HttpParser × Bytes)
    → is_final p.state ≡ false
    → turn p.state p s ≡ some x
    → loop (suc f) p s ≡ go_on (loop f) x
unfolding parse_loop
loop-turn f p s x e h = rw (e, h, parse_loop)

final_rank : (st : State) → is_final st ≡ false → 0 < rank st
unfolding is_final
final_rank st h = ground arith

pub loop_ok :
    (f : ℕ) (p q : HttpParser) (s u : Bytes)
    → is_final p.state ≡ false
    → turn p.state p s ≡ some (ok, q, u)
    → loop (suc f) p s ≡ loop f q u
unfolding go_on
loop_ok f p q s u e h = loop-turn f p s (ok, q, u) e h

-- A turn that does not answer OK ends the call.
pub loop_stop :
    (f : ℕ) (p q : HttpParser) (s u : Bytes) (r : Ret)
    → is_final p.state ≡ false
    → (r ≡ ok → ⊥)
    → turn p.state p s ≡ some (r, q, u)
    → loop (suc f) p s ≡ some (r, q, u)
unfolding go_on
loop_stop f p q s u ok e n h = absurd (n refl)
loop_stop f p q s u incomplete e n h = loop-turn f p s (incomplete, q, u) e h
loop_stop f p q s u error e n h = loop-turn f p s (error, q, u) e h

-- What the first turn of a call comes to.
pub data Turned (p : HttpParser) (s : Bytes) : Type 0 where
  at_end : is_final p.state ≡ true → Turned p s
  moved :
      (q : HttpParser) (u : Bytes)
      → is_final p.state ≡ false
      → turn p.state p s ≡ some (ok, q, u)
      → rank q.state < rank p.state
      → Turned p s
  stopped :
      (r : Ret) (q : HttpParser) (u : Bytes)
      → is_final p.state ≡ false
      → (r ≡ ok → ⊥)
      → turn p.state p s ≡ some (r, q, u)
      → Turned p s

Turned-by :
    (p : HttpParser) (s : Bytes) (x : Ret × HttpParser × Bytes)
    → is_final p.state ≡ false
    → turn p.state p s ≡ some x
    → Turned p s
Turned-by p s (ok, q, u) e h = moved q u e h (turn-prefix p.state p q s [] u h refl e).1
Turned-by p s (incomplete, q, u) e h = stopped incomplete q u e (λ d. cc) h
Turned-by p s (error, q, u) e h = stopped error q u e (λ d. cc) h

pub Turned-total : (p : HttpParser) (s : Bytes) → Turned p s
Turned-total p s = elim (Bool-cases (is_final p.state)) [
  | inl e ↦ at_end e
  | inr e ↦ let (x, h) = turn-total p.state p s in Turned-by p s x e h
]

loop-total :
    (f : ℕ) (p : HttpParser) (s : Bytes)
    → rank p.state < f
    → (x : Ret × HttpParser × Bytes) × (loop f p s ≡ some x)
loop-total zero p s h = absurd (omega arith)
loop-total (suc f) p s h = elim (Turned-total p s) [
  | at_end e ↦ let (x, t) = turn-total p.state p s in (x, loop_final f p s e ∙ t)
  | moved q u e t l ↦ let (x, r) = loop-total f q u (omega arith) in (x, loop_ok f p q s u e t ∙ r)
  | stopped r q u e n t ↦ ((r, q, u), loop_stop f p q s u r e n t)
]

loop-fuel :
    (f g : ℕ) (p : HttpParser) (s : Bytes)
    → rank p.state < f
    → rank p.state < g
    → loop f p s ≡ loop g p s
loop-fuel zero g p s h k = absurd (omega arith)
loop-fuel (suc f) zero p s h k = absurd (omega arith)
loop-fuel (suc f) (suc g) p s h k = elim (Turned-total p s) [
  | at_end e ↦ loop_final f p s e ∙ sym (loop_final g p s e)
  | moved q u e t l ↦
      loop_ok f p q s u e t
      ∙ loop-fuel f g q u (omega arith) (omega arith)
      ∙ sym (loop_ok g p q s u e t)
  | stopped r q u e n t ↦ loop_stop f p q s u r e n t ∙ sym (loop_stop g p q s u r e n t)
]

pub loop-zero : (p : HttpParser) (s : Bytes) → loop zero p s ≡ none
unfolding parse_loop
loop-zero p s = refl

final-prefix :
    (st : State) (p q : HttpParser) (s t u : Bytes)
    → is_final st ≡ true
    → turn st p s ≡ some (ok, q, u)
    → turn st p (s ++ t) ≡ some (ok, q, u ++ t)
unfolding is_final parse_state
final-prefix request_line p q s t u e h = cc
final-prefix headers p q s t u e h = cc
final-prefix body p q s t u e h = cc
final-prefix complete p q s t u e h = cc
final-prefix failed p q s t u e h = cc

final-ne-incomplete :
    (st : State) (p q : HttpParser) (s u : Bytes)
    → is_final st ≡ true
    → turn st p s ≡ some (incomplete, q, u)
    → ⊥
unfolding is_final parse_state
final-ne-incomplete request_line p q s u e h = cc
final-ne-incomplete headers p q s u e h = cc
final-ne-incomplete body p q s u e h = cc
final-ne-incomplete complete p q s u e h = cc
final-ne-incomplete failed p q s u e h = cc

loop_same :
    (f : ℕ) (p q : HttpParser) (s u : Bytes)
    → q.state ≡ p.state
    → turn p.state p s ≡ turn q.state q u
    → loop (suc f) p s ≡ loop (suc f) q u
unfolding parse_loop
loop_same f p q s u e t = λ i. elim (is_final (sym e i)) [
  | true ↦ t i
  | false ↦ elim (t i) [ none ↦ none | some x ↦ go_on (loop f) x ]
]

loop-prefix :
    (f : ℕ) (p q : HttpParser) (s t u : Bytes)
    → loop f p s ≡ some (ok, q, u)
    → loop f p (s ++ t) ≡ some (ok, q, u ++ t)
loop-prefix zero p q s t u h = cc (loop-zero p s)
loop-prefix (suc f) p q s t u h = elim (Turned-total p s) [
  | at_end e ↦
      loop_final f p (s ++ t) e ∙ final-prefix p.state p q s t u e (sym (loop_final f p s e) ∙ h)
  | moved r v e m l ↦
      loop_ok f p r (s ++ t) (v ++ t) e (turn-prefix p.state p r s t v m refl e).0
      ∙ loop-prefix f r q v t u (sym (loop_ok f p r s v e m) ∙ h)
  | stopped r q' u' e n m ↦ absurd (n (answer (sym (loop_stop f p q' s u' r e n m) ∙ h)))
]
  where
    answer :
        {r : Ret} {q' : HttpParser} {u' : Bytes}
        → ◌≡◌ {A = Option (Ret × HttpParser × Bytes)} (some (r, q', u')) (some (ok, q, u))
        → r ≡ ok
    answer e = cc

loop-resume :
    (f : ℕ) (p q : HttpParser) (s t u : Bytes)
    → rank p.state < f
    → loop f p s ≡ some (incomplete, q, u)
    → (loop f p (s ++ t) ≡ loop f q (u ++ t)) × (rank q.state ≤ rank p.state)
loop-resume zero p q s t u l h = absurd (omega arith)
loop-resume (suc f) p q s t u l h = elim (Turned-total p s) [
  | at_end e ↦ absurd (final-ne-incomplete p.state p q s u e (sym (loop_final f p s e) ∙ h))
  | moved r v e m d ↦
      let ih = loop-resume f r q v t u (omega arith) (sym (loop_ok f p r s v e m) ∙ h) in
      (
        loop_ok f p r (s ++ t) (v ++ t) e (turn-prefix p.state p r s t v m refl e).0
            ∙ ih.0
            ∙ loop-fuel f (suc f) q (u ++ t) (omega (arith, ih.1)) (omega (arith, ih.1)),
        omega (arith, ih.1),
      )
  | stopped r q' u' e n m ↦
      let m' : turn p.state p s ≡ some (incomplete, q, u) =
        m ∙ sym (loop_stop f p q' s u' r e n m) ∙ h in
      let same = turn-resume p.state p q s t u m' in
      (
        loop_same f p q (s ++ t) (u ++ t) same.1
            (same.0 ∙ ap (λ st. turn st q (u ++ t)) (sym same.1)),
        omega (arith, ap rank same.1),
      )
]

rank_bound : (st : State) → rank st < 4
rank_bound st = ground arith

-- A call of `parse` on a list of bytes always returns: the fuel is enough.
pub parse_bytes-total :
    (p : HttpParser) (s : Bytes) → (x : Ret × HttpParser × Bytes) × (parse bytes_input p s ≡ some x)
unfolding parse
parse_bytes-total p s = loop-total 4 p s (rank_bound p.state)

pub parse_bytes-prefix :
    (p q : HttpParser) (s t u : Bytes)
    → parse bytes_input p s ≡ some (ok, q, u)
    → parse bytes_input p (s ++ t) ≡ some (ok, q, u ++ t)
unfolding parse
parse_bytes-prefix = loop-prefix 4

pub parse_bytes-resume :
    (p q : HttpParser) (s t u : Bytes)
    → parse bytes_input p s ≡ some (incomplete, q, u)
    → parse bytes_input p (s ++ t) ≡ parse bytes_input q (u ++ t)
unfolding parse
parse_bytes-resume p q s t u h = (loop-resume 4 p q s t u (rank_bound p.state) h).0

final-complete :
    (st : State) (p q : HttpParser) (s u : Bytes)
    → is_final st ≡ true
    → turn st p s ≡ some (ok, q, u)
    → p.state ≡ st
    → q.state ≡ complete
unfolding is_final parse_state
final-complete request_line p q s u e h n = cc
final-complete headers p q s u e h n = cc
final-complete body p q s u e h n = cc
final-complete complete p q s u e h n = ground arith
final-complete failed p q s u e h n = cc

loop-complete :
    (f : ℕ) (p q : HttpParser) (s u : Bytes) → loop f p s ≡ some (ok, q, u) → q.state ≡ complete
loop-complete zero p q s u h = cc (loop-zero p s)
loop-complete (suc f) p q s u h = elim (Turned-total p s) [
  | at_end e ↦ final-complete p.state p q s u e (sym (loop_final f p s e) ∙ h) refl
  | moved r v e m d ↦ loop-complete f r q v u (sym (loop_ok f p r s v e m) ∙ h)
  | stopped r q' u' e n m ↦ absurd (n (answer (sym (loop_stop f p q' s u' r e n m) ∙ h)))
]
  where
    answer :
        {r : Ret} {q' : HttpParser} {u' : Bytes}
        → ◌≡◌ {A = Option (Ret × HttpParser × Bytes)} (some (r, q', u')) (some (ok, q, u))
        → r ≡ ok
    answer e = cc

pub parse_bytes-complete :
    (p q : HttpParser) (s u : Bytes) → parse bytes_input p s ≡ some (ok, q, u) → q.state ≡ complete
unfolding parse
parse_bytes-complete = loop-complete 4
