-- ===== src/Connection/Total.antt =====
-- `handleRead` returns, whatever the kernel and the handler answer.
use cxx_epoll_http_server.Common.{
  ℕ, zero, suc, ◌+◌, ◌≤◌, ◌≡◌, refl, sym, subst, not, ◌||◌, Option, none, some, List, [], ◌∷◌, ◌==◌,
  length, length-drop, take, drop, leb, if_cases, arith,
}
use cxx_epoll_http_server.Kernel.{eintr, eagain}
use cxx_epoll_http_server.Buffer.{
  Buffer, ReadResult, failed, received, append, ensure_writable_bytes, writable_bytes,
  readable_bytes, read_fd, copy_in,
}
use cxx_epoll_http_server.Buffer.Invariant.{
  IsValid, Fits, length-copy_in, ensure_writable_bytes-MadeRoom,
}
use cxx_epoll_http_server.Buffer.Reading.{contents-read_fd}
use cxx_epoll_http_server.Http.{HttpRequest, HttpResponse}
use cxx_epoll_http_server.Parser.{Ret, ok, incomplete, error}
use cxx_epoll_http_server.Parser.Stream.{parse_total, parse-IsValid}
use cxx_epoll_http_server.Connection.{
  Scene, close, handle_error, handle_write, Round, done, more, on_parsed, on_request,
  on_bad_request, request_loop, handle_request, touch, read_loop, handle_read,
}
use cxx_epoll_http_server.Connection.Requests.{
  handle_write-KeepsInput, send-KeepsInput, on_request-input, parsed, round_of_parse, loop_of_round,
  handle_request_total,
}

append_grows :
    (b : Buffer) (s : List ℕ)
    → IsValid b
    → Fits b (length s)
    → length (append b s).buf ≤ length b.buf + length s
unfolding append
append_grows b s v f =
    let b' = ensure_writable_bytes b (length s) in
    omega (
      arith,
      (ensure_writable_bytes-MadeRoom b (length s) v f).bounded,
      length-copy_in b'.write_idx s b'.buf,
    )

-- A read makes the vector no longer than by what it delivers.
read_fd_grows :
    (b : Buffer) (s : List ℕ)
    → IsValid b
    → Fits b (length s)
    → length (read_fd b (received s)).buf ≤ length b.buf + length s
unfolding read_fd
read_fd_grows b s v f =
    let filled = copy_in b.write_idx (take (writable_bytes b) s) b.buf in
    let e = length-copy_in b.write_idx (take (writable_bytes b) s) b.buf in
    if_cases (λ (x : Buffer). length x.buf ≤ length b.buf + length s)
      (leb (length s) (writable_bytes b)) (λ _. omega (arith, e))
      (λ _. omega (
        arith,
        e,
        length-drop (writable_bytes b) s,
        append_grows (record b { buf = filled; write_idx = length b.buf })
            (drop (writable_bytes b) s)
            (record {
              ordered = omega (arith, v);
              in_vector = omega (arith, e);
              addressable = omega (arith, e, v);
            })
            (omega (arith, e, length-drop (writable_bytes b) s)),
      ))

pub close-input : (s : Scene) → (close s).conn.input ≡ s.conn.input
unfolding close
close-input s =
    if_cases (λ (x : Scene). x.conn.input ≡ s.conn.input) s.conn.is_closed (λ _. refl) (λ _. refl)

pub handle_error-input : (s : Scene) → (handle_error s).conn.input ≡ s.conn.input
unfolding handle_error
handle_error-input s = close-input _

pub handle_write-input : (s : Scene) → (handle_write s).conn.input ≡ s.conn.input
handle_write-input s = (handle_write-KeepsInput s).0

abbrev Sound : Option Scene → Type 0
Sound none = Unit {0}
Sound (some s) = IsValid s.conn.input

abbrev pub total_bytes : List ReadResult → ℕ
total_bytes [] = 0
total_bytes (received d ∷ rs) = length d + total_bytes rs
total_bytes (failed e ∷ rs) = total_bytes rs

module _ (handler : Scene → HttpRequest → HttpResponse → HttpResponse) where
  last : Round → Scene
  last (done s) = s
  last (more s) = s

  on_parsed-input : (r : Ret) (s : Scene) → (last (on_parsed handler r s)).conn.input ≡ s.conn.input
  unfolding on_parsed last on_bad_request
  on_parsed-input incomplete s = refl
  on_parsed-input error s = (send-KeepsInput _ _).0
  on_parsed-input ok s =
      if_cases (λ (x : Round). (last x).conn.input ≡ s.conn.input)
        (not (on_request handler s).conn.stays
          || (readable_bytes (on_request handler s).conn.input == 0))
        (λ _. on_request-input handler s) (λ _. on_request-input handler s)

  pub request_loop-Sound :
      (f : ℕ) (s : Scene) → IsValid s.conn.input → Sound (request_loop handler f s)
  unfolding request_loop last
  request_loop-Sound zero s v = tt
  request_loop-Sound (suc f) s v =
      let ((r, p, b), h) = parse_total s.conn.parser s.conn.input v in
      let x = on_parsed handler r (parsed handler p b s) in
      let e = on_parsed-input r (parsed handler p b s) in
      subst Sound (sym (loop_of_round handler f s x (round_of_parse handler s r p b h))) (
        rest x (subst IsValid (sym e) (parse-IsValid s.conn.parser p s.conn.input b r v h))
          (λ s' w. request_loop-Sound f s' w))
    where
      rest :
          (x : Round)
          → IsValid (last x).conn.input
          → ((s' : Scene) → IsValid s'.conn.input → Sound (request_loop handler f s'))
          → Sound (elim x as (λ _. Option Scene) [
            | done s' ↦ some s'
            | more s' ↦ request_loop handler f s'
          ])
      rest (done s') w k = w
      rest (more s') w k = k s' w

  abbrev Returns : Option Scene → Type 0
  Returns o = (r : Scene) × (o ≡ some r) × IsValid r.conn.input

  handle_request-Returns : (s : Scene) → IsValid s.conn.input → Returns (handle_request handler s)
  unfolding handle_request
  handle_request-Returns s v =
      let (r, e) = handle_request_total handler s v in
      (r, e, subst Sound e (request_loop-Sound _ s v))

  read_loop-Returns :
      (t : ℕ) (rs : List ReadResult) (s : Scene)
      → IsValid s.conn.input
      → Fits s.conn.input (total_bytes rs)
      → Returns (read_loop handler t rs s)
  unfolding read_loop touch handle_error
  read_loop-Returns t [] s v f = handle_request-Returns _ v
  read_loop-Returns t (received [] ∷ rs) s v f =
      (_, refl, subst IsValid (sym (close-input (record s { reads = rs }))) v)
  read_loop-Returns t (received (c ∷ d) ∷ rs) s v f =
      read_loop-Returns t rs _ (contents-read_fd s.conn.input (received (c ∷ d)) v (omega arith)).0
        (omega (arith, read_fd_grows s.conn.input (c ∷ d) v (omega arith)))
  read_loop-Returns t (failed e ∷ rs) s v f =
      if_cases Returns (e == eagain) (λ _. handle_request-Returns _ v)
        (λ _.
          if_cases Returns (e == eintr) (λ _. read_loop-Returns t rs s v f)
            (λ _. (_, refl, subst IsValid (sym (close-input _)) v)))

  -- `handleRead` on a connection whose input buffer is valid and has room for the bytes that the
  -- answers of `readv` bring returns, for any handler and whatever the kernel answers, and leaves
  -- the buffer valid.
  pub handle_read_total :
      (t : ℕ) (s : Scene)
      → IsValid s.conn.input
      → Fits s.conn.input (total_bytes s.reads)
      → (r : Scene) × (handle_read handler t s ≡ some r) × IsValid r.conn.input
  unfolding handle_read
  handle_read_total t s v f = read_loop-Returns t s.reads s v f
