-- ===== src/Connection/Requests.antt =====
-- `handleRequest`: the loop over pipelined requests.
use cxx_epoll_http_server.Common.{
  ℕ, zero, suc, ◌≤◌, ◌<◌, ◌≡◌, refl, ap, ◌∙◌, Bool, true, false, not, ◌||◌, some, Bytes, length,
  min, ◌==◌, if◌then◌else◌, add_size, arith, if_cases,
}
use cxx_epoll_http_server.Buffer.{Buffer, readable_bytes, append}
use cxx_epoll_http_server.Buffer.Invariant.{IsValid}
use cxx_epoll_http_server.Buffer.Contents.{contents, length-contents}
use cxx_epoll_http_server.Http.{HttpRequest, HttpResponse, new_response}
use cxx_epoll_http_server.Input.{buffer_input}
use cxx_epoll_http_server.Parser.{
  Ret, ok, incomplete, error, request_line, HttpParser, parse, reset,
}
use cxx_epoll_http_server.Parser.Stream.{parse_total, parse-IsValid}
use cxx_epoll_http_server.Parser.Progress.{parse-shrinks}
use cxx_epoll_http_server.Connection.Output.{Kept, after_write-Kept, handle_error-Kept}
use cxx_epoll_http_server.Connection.{
  WriteResult, took, refused, Scene, handle_error, after_write, wrote, on_write_result, next_write,
  handle_write, send, is_empty, eintr, eagain, Round, done, more, on_request, stays_after,
  on_parsed, request_round, request_loop, handle_request,
}

-- What the writing side leaves alone.
abbrev KeepsInput : Scene → Scene → Type 0
KeepsInput s s' = (s'.conn.input ≡ s.conn.input) × (s'.conn.parser ≡ s.conn.parser)

Kept-KeepsInput : (s s' : Scene) → Kept s s' → KeepsInput s s'
Kept-KeepsInput s s' k = (k.2, k.3)

wrote-KeepsInput : (n : ℕ) (s : Scene) → KeepsInput s (wrote n s)
unfolding wrote
wrote-KeepsInput n s =
    if_cases (KeepsInput s) (min n (readable_bytes s.conn.output) == 0) (λ _. (refl, refl))
      (λ _. (refl, refl))

on_write_result-KeepsInput : (r : WriteResult) (s : Scene) → KeepsInput s (on_write_result r s)
unfolding on_write_result
on_write_result-KeepsInput (took n) s =
    let k = after_write-Kept (wrote n s) in let w = wrote-KeepsInput n s in (k.2 ∙ w.0, k.3 ∙ w.1)
on_write_result-KeepsInput (refused e) s =
    if_cases (KeepsInput s) (e == eintr) (λ _. (refl, refl))
      (λ _.
        if_cases (KeepsInput s) (e == eagain)
          (λ _. Kept-KeepsInput s (after_write s) (after_write-Kept s))
          (λ _. Kept-KeepsInput s (handle_error s) (handle_error-Kept s)))

pub handle_write-KeepsInput : (s : Scene) → KeepsInput s (handle_write s)
unfolding handle_write
handle_write-KeepsInput s =
    if_cases (KeepsInput s) s.conn.is_closed (λ _. (refl, refl))
      (λ _.
        if_cases (KeepsInput s) (readable_bytes s.conn.output == 0)
          (λ _. Kept-KeepsInput s (after_write s) (after_write-Kept s))
          (λ _.
            on_write_result-KeepsInput (next_write s.writes).0
              (record s { writes = (next_write s.writes).1 })))

pub send-KeepsInput : (d : Bytes) (s : Scene) → KeepsInput s (send d s)
unfolding send
send-KeepsInput d s =
    if_cases (KeepsInput s) (s.conn.is_closed || is_empty d) (λ _. (refl, refl))
      (λ _.
        handle_write-KeepsInput
          (record s { conn = record s.conn { output = append s.conn.output d } }))

module _ (handler : Scene → HttpRequest → HttpResponse → HttpResponse) where
  pub on_request-input : (s : Scene) → (on_request handler s).conn.input ≡ s.conn.input
  unfolding on_request
  on_request-input s =
      (send-KeepsInput _ (record s0 {
        conn = record s.conn {
          stays = stays_after req resp;
          close_after_write = s.conn.close_after_write || not (stays_after req resp);
        };
      })).0
    where
      s0 : Scene
      s0 = record s { counters = record s.counters { requests = add_size s.counters.requests 1 } }

      req : HttpRequest
      req = s.conn.parser.request

      resp : HttpResponse
      resp = handler s0 req new_response

  on_request-state : (s : Scene) → (on_request handler s).conn.parser.state ≡ request_line
  unfolding on_request reset
  on_request-state s = refl

  on_parsed-more :
      (r : Ret) (s s' : Scene)
      → on_parsed handler r s ≡ more s'
      → (r ≡ ok) × (s' ≡ on_request handler s)
  unfolding on_parsed
  on_parsed-more incomplete s s' h = cc
  on_parsed-more error s s' h = cc
  on_parsed-more ok s s' h = (refl, out _ h)
    where
      out :
          (b : Bool)
          → (if b then done (on_request handler s) else more (on_request handler s)) ≡ more s'
          → s' ≡ on_request handler s
      out true e = cc
      out false e = cc

  -- The connection behind a call of the parser.
  abbrev pub parsed : HttpParser → Buffer → Scene → Scene
  parsed p b s = record s { conn = record s.conn { parser = p; input = b } }

  pub round_of_parse :
      (s : Scene) (r : Ret) (p : HttpParser) (b : Buffer)
      → parse buffer_input s.conn.parser s.conn.input ≡ some (r, p, b)
      → request_round handler s ≡ some (on_parsed handler r (parsed p b s))
  unfolding request_round
  round_of_parse s r p b h = rw (h, request_round)

  -- A round that goes on has left fewer bytes, if it began with a request line.
  record Went (s s' : Scene) : Type 0 where
    valid : IsValid s'.conn.input
    fresh : s'.conn.parser.state ≡ request_line
    fewer : length (contents s'.conn.input) ≤ length (contents s.conn.input)
    less :
        s.conn.parser.state ≡ request_line
        → length (contents s'.conn.input) < length (contents s.conn.input)

  more-Went :
      (s s' : Scene) (r : Ret) (p : HttpParser) (b : Buffer)
      → IsValid s.conn.input
      → parse buffer_input s.conn.parser s.conn.input ≡ some (r, p, b)
      → on_parsed handler r (parsed p b s) ≡ more s'
      → Went s s'
  more-Went s s' r p b v h e =
      let (o, q) = on_parsed-more r (parsed p b s) s' e in
      let i : s'.conn.input ≡ b =
        ap (λ (x : Scene). x.conn.input) q ∙ on_request-input (parsed p b s) in
      let h' : parse buffer_input s.conn.parser s.conn.input ≡ some (ok, p, b) =
        h ∙ ap (λ r. some (r, p, b)) o in
      let m = parse-shrinks s.conn.parser p s.conn.input b v h' in
      record {
        valid = rw i (parse-IsValid s.conn.parser p s.conn.input b r v h);
        fresh = ap (λ (x : Scene). x.conn.parser.state) q ∙ on_request-state (parsed p b s);
        fewer = rw i m.0;
        less = λ l. rw i (m.1 l);
      }

  pub loop_of_round :
      (f : ℕ) (s : Scene) (x : Round)
      → request_round handler s ≡ some x
      → request_loop handler (suc f) s
        ≡ elim x [ done s' ↦ some s' | more s' ↦ request_loop handler f s' ]
  unfolding request_loop
  loop_of_round f s (done s') h = rw (h, request_loop)
  loop_of_round f s (more s') h = rw (h, request_loop)

  loop_of_more :
      (f : ℕ) (s : Scene)
      → IsValid s.conn.input
      → ((s' : Scene) → Went s s' → (r : Scene) × (request_loop handler f s' ≡ some r))
      → (r : Scene) × (request_loop handler (suc f) s ≡ some r)
  loop_of_more f s v k =
      let ((r, p, b), h) = parse_total s.conn.parser s.conn.input v in
      next _ (round_of_parse s r p b h) (λ s' e. k s' (more-Went s s' r p b v h e))
    where
      next :
          (x : Round)
          → request_round handler s ≡ some x
          → ((s' : Scene) → x ≡ more s' → (r : Scene) × (request_loop handler f s' ≡ some r))
          → (r : Scene) × (request_loop handler (suc f) s ≡ some r)
      next (done s') e g = (s', loop_of_round f s (done s') e)
      next (more s') e g = let (r, q) = g s' refl in (r, loop_of_round f s (more s') e ∙ q)

  loop-total :
      (f : ℕ) (s : Scene)
      → IsValid s.conn.input
      → s.conn.parser.state ≡ request_line
      → length (contents s.conn.input) < f
      → (r : Scene) × (request_loop handler f s ≡ some r)
  loop-total zero s v l h = absurd (omega arith)
  loop-total (suc f) s v l h =
      loop_of_more f s v (λ s' w. loop-total f s' w.valid w.fresh (let m = w.less l in omega arith))

  -- `handleRequest` on a connection with a valid input buffer returns, for any handler and
  -- whatever the kernel answers: every round but the first takes bytes off the input.
  pub handle_request_total :
      (s : Scene) → IsValid s.conn.input → (r : Scene) × (handle_request handler s ≡ some r)
  unfolding handle_request
  handle_request_total s v = loop_of_more (suc (readable_bytes s.conn.input)) s v (λ s' w.
      loop-total (suc (readable_bytes s.conn.input)) s' w.valid w.fresh
        (omega (arith, w.fewer, length-contents s.conn.input v)))
