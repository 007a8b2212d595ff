-- ===== src/Parser/Refine.antt =====
-- The parser sees nothing of a buffer but its unread bytes: over any input that keeps the laws it
-- does what it does over a plain list of bytes.
use cxx_epoll_http_server.Common.{
  ℕ, zero, suc, ◌+◌, ◌≡◌, refl, sym, ap, Bool, true, false, Option, none, some, [], ◌∷◌, Bytes,
  length, ltb, arith, inl, inr, Bool-cases, Option-cases,
}
use cxx_epoll_http_server.Buffer.{Buffer, search_crlf}
use cxx_epoll_http_server.Buffer.Invariant.{IsValid}
use cxx_epoll_http_server.Buffer.Contents.{contents}
use cxx_epoll_http_server.Buffer.Search.{search_crlf-lt}
use cxx_epoll_http_server.Input.{Input, IsInput, bytes_input, buffer_input, buffer_input-IsInput}
use cxx_epoll_http_server.Parser.{
  Ret, ok, incomplete, error, State, request_line, headers, body, complete, failed, HttpParser,
  request_of_line, header_of_line, peek_line, await_line, Round, done, more, on_request_line,
  on_header_line, header_round, parse_request_line, parse_headers, parse_body, parse_state,
  is_final, parse_loop, parse, go_on,
}

-- A result over the input and one over the list of bytes: the same answer, and the input left is
-- one whose unread bytes are those left.
module _ {B : Type 0} (P : B → Type 0) (view : B → Bytes) where
  abbrev pub AgreesAt : Ret × HttpParser × B → Ret × HttpParser × Bytes → Type 0
  AgreesAt (r, p, b) (r', p', s) = P b × (r' ≡ r) × (p' ≡ p) × (s ≡ view b)

  abbrev pub Agrees : Option (Ret × HttpParser × B) → Option (Ret × HttpParser × Bytes) → Type 0
  Agrees none none = Unit {0}
  Agrees none (some y) = ⊥
  Agrees (some x) none = ⊥
  Agrees (some x) (some y) = AgreesAt x y

module _ {B : Type 0} (i : Input B) (P : B → Type 0) (view : B → Bytes)
    (laws : IsInput i P view) where
  peek_line-view : (b : B) → P b → peek_line i b ≡ peek_line bytes_input (view b)
  unfolding peek_line
  peek_line-view b v = elim (Option-cases (search_crlf (view b))) [
    | inl e ↦ rw (laws.finds b v, e, peek_line)
    | inr (n, e) ↦
        rw (laws.finds b v, e, peek_line)
          (ap (λ s. some (s, n + 2))
            (laws.peeks b n v (omega (arith, search_crlf-lt (view b) n e))))
  ]

  await_line-Agrees :
      (p : HttpParser) (b : B)
      → P b
      → AgreesAt P view (await_line i p b) (await_line bytes_input p (view b))
  unfolding await_line
  await_line-Agrees p b v = elim (Bool-cases (ltb 8192 (length (view b)))) [
    | inl e ↦ rw (laws.readable b v, e) (v, refl, refl, refl)
    | inr e ↦ rw (laws.readable b v, e) (v, refl, refl, refl)
  ]

  on_request_line-Agrees :
      (p : HttpParser) (b : B) (l : Bytes × ℕ)
      → P b
      → AgreesAt P view (on_request_line i p b l) (on_request_line bytes_input p (view b) l)
  unfolding on_request_line
  on_request_line-Agrees p b (line, n) v = elim (Option-cases (request_of_line p.request line)) [
    | inl e ↦ rw (e, on_request_line) (v, refl, refl, refl)
    | inr (r, e) ↦
        rw (e, on_request_line) (laws.retrieve_keeps b n v, refl, refl, sym (laws.retrieves b n v))
  ]

  parse_request_line-Agrees :
      (p : HttpParser) (b : B)
      → P b
      → AgreesAt P view (parse_request_line i p b) (parse_request_line bytes_input p (view b))
  unfolding parse_request_line
  parse_request_line-Agrees p b v = elim (Option-cases (peek_line bytes_input (view b))) [
    | inl e ↦ rw (peek_line-view b v, e, parse_request_line) (await_line-Agrees p b v)
    | inr (l, e) ↦ rw (peek_line-view b v, e, parse_request_line) (on_request_line-Agrees p b l v)
  ]

  abbrev RoundAgrees : Round B → Round Bytes → Type 0
  RoundAgrees (done x) (done y) = AgreesAt P view x y
  RoundAgrees (done x) (more p s) = ⊥
  RoundAgrees (more p b) (done y) = ⊥
  RoundAgrees (more p b) (more q s) = P b × (q ≡ p) × (s ≡ view b)

  on_header_line-Agrees :
      (p : HttpParser) (b : B) (s line : Bytes)
      → P b
      → s ≡ view b
      → RoundAgrees (on_header_line p b line) (on_header_line p s line)
  unfolding on_header_line
  on_header_line-Agrees p b s [] v e = (v, refl, refl, e)
  on_header_line-Agrees p b s (c ∷ l) v e = elim (Option-cases (header_of_line p (c ∷ l))) [
    | inl h ↦ rw (h, on_header_line) (v, refl, refl, e)
    | inr (q, h) ↦ rw (h, on_header_line) (v, refl, e)
  ]

  header_round-Agrees :
      (p : HttpParser) (b : B)
      → P b
      → RoundAgrees (header_round i p b) (header_round bytes_input p (view b))
  unfolding header_round
  header_round-Agrees p b v = elim (Option-cases (peek_line bytes_input (view b))) [
    | inl e ↦ rw (peek_line-view b v, e, header_round) (await_line-Agrees p b v)
    | inr (l, e) ↦
        rw (peek_line-view b v, e, header_round)
          (on_header_line-Agrees p _ _ l.0 (laws.retrieve_keeps b l.1 v)
            (sym (laws.retrieves b l.1 v)))
  ]

  parse_headers-Agrees :
      (f : ℕ) (p : HttpParser) (b : B)
      → P b
      → Agrees P view (parse_headers i f p b) (parse_headers bytes_input f p (view b))
  unfolding parse_headers
  parse_headers-Agrees zero p b v = tt
  parse_headers-Agrees (suc f) p b v =
      split _ _ (header_round-Agrees p b v) (parse_headers-Agrees f)
    where
      split :
          (x : Round B) (y : Round Bytes)
          → RoundAgrees x y
          → ((q : HttpParser) (b' : B)
              → P b'
              → Agrees P view (parse_headers i f q b') (parse_headers bytes_input f q (view b')))
          → Agrees P view
              (elim x [ done r ↦ some r | more p' b' ↦ parse_headers i f p' b' ])
              (elim y [ done r ↦ some r | more p' b' ↦ parse_headers bytes_input f p' b' ])
      split (done x) (done y) h ih = h
      split (done x) (more q s) h ih = absurd h
      split (more q b') (done y) h ih = absurd h
      split (more q b') (more q' s) h ih = rw (h.1, h.2) (ih q b' h.0)

  parse_body-Agrees :
      (p : HttpParser) (b : B)
      → P b
      → AgreesAt P view (parse_body i p b) (parse_body bytes_input p (view b))
  unfolding parse_body
  parse_body-Agrees p b v = elim (Bool-cases (ltb (length (view b)) p.content_length)) [
    | inl e ↦ rw (laws.readable b v, e) (v, refl, refl, refl)
    | inr e ↦
        rw (laws.readable b v, e)
          (
            laws.take_keeps b p.content_length v,
            refl,
            rw (laws.takes b p.content_length v),
            sym (laws.leaves b p.content_length v),
          )
  ]

  parse_state-Agrees :
      (t : State) (p : HttpParser) (b : B)
      → P b
      → Agrees P view (parse_state i t p b) (parse_state bytes_input t p (view b))
  unfolding parse_state
  parse_state-Agrees request_line p b v = parse_request_line-Agrees p b v
  parse_state-Agrees headers p b v = rw (laws.readable b v) (parse_headers-Agrees _ p b v)
  parse_state-Agrees body p b v = parse_body-Agrees p b v
  parse_state-Agrees complete p b v = (v, refl, refl, refl)
  parse_state-Agrees failed p b v = (v, refl, refl, refl)

  parse_loop-Agrees :
      (f : ℕ) (p : HttpParser) (b : B)
      → P b
      → Agrees P view (parse_loop i f p b) (parse_loop bytes_input f p (view b))
  unfolding parse_loop go_on
  parse_loop-Agrees zero p b v = tt
  parse_loop-Agrees (suc f) p b v =
      split (is_final p.state) _ _ (parse_state-Agrees p.state p b v) (parse_loop-Agrees f)
    where
      split :
          (t : Bool) (x : Option (Ret × HttpParser × B)) (y : Option (Ret × HttpParser × Bytes))
          → Agrees P view x y
          → ((q : HttpParser) (b' : B)
              → P b'
              → Agrees P view (parse_loop i f q b') (parse_loop bytes_input f q (view b')))
          → Agrees P view
              (elim t [
                | true ↦ x
                | false ↦ elim x [ none ↦ none | some z ↦ go_on (parse_loop i f) z ]
              ])
              (elim t [
                | true ↦ y
                | false ↦ elim y [ none ↦ none | some z ↦ go_on (parse_loop bytes_input f) z ]
              ])
      split true x y h ih = h
      split false none none h ih = h
      split false none (some y) h ih = absurd h
      split false (some x) none h ih = absurd h
      split false (some (ok, q, b')) (some (r, q', s)) h ih = rw (h.1, h.2, h.3) (ih q b' h.0)
      split false (some (incomplete, q, b')) (some (r, q', s)) h ih = rw (h.1) (h.0, refl, h.2, h.3)
      split false (some (error, q, b')) (some (r, q', s)) h ih = rw (h.1) (h.0, refl, h.2, h.3)

-- A call of `parse` on a valid buffer answers, changes the parser and leaves unread bytes just as
-- the same call on the plain list of the buffer's unread bytes, and the buffer left is valid.
pub parse_refines :
    (p : HttpParser) (b : Buffer)
    → IsValid b
    → Agrees IsValid contents (parse buffer_input p b) (parse bytes_input p (contents b))
unfolding parse
parse_refines p b v = parse_loop-Agrees buffer_input IsValid contents buffer_input-IsInput 4 p b v
