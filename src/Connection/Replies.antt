-- ===== src/Connection/Replies.antt =====
-- What a round of `handleRequest` sends.
use cxx_epoll_http_server.Common.{
  ◌==◌, ◌≡◌, ◌≢◌, ◌↔◌, ◌⊎◌, inl, inr, refl, sym, subst, ◌∙◌, true, false, not, ◌||◌, some, [], ◌++◌,
  Bytes, codes, beq, beq_iff, beq_refl, Bool-cases, length, add_size, if_cases, if_true, if_false,
  append-nil, arith,
}
use cxx_epoll_http_server.Decimal.{to_string as decimal}
use cxx_epoll_http_server.Headers
use cxx_epoll_http_server.Headers.Laws.{find-set}
use cxx_epoll_http_server.Http.Compare.{Persists, keep_alive_iff}
use cxx_epoll_http_server.Buffer.{Buffer, readable_bytes}
use cxx_epoll_http_server.Buffer.Invariant.{IsValid, Fits}
use cxx_epoll_http_server.Http
use cxx_epoll_http_server.Http.{HttpRequest, HttpResponse, new_response, set_header, crlf}
use cxx_epoll_http_server.Input.{buffer_input}
use cxx_epoll_http_server.Parser.{Ret, ok, incomplete, error, HttpParser, parse}
use cxx_epoll_http_server.Connection.{
  Scene, Round, done, more, bad_request, on_bad_request, stays_after, answer, on_request, on_parsed,
  request_round,
}
use cxx_epoll_http_server.Connection.Output.{stream, send_lem}
use cxx_epoll_http_server.Connection.Requests.{parsed, round_of_parse}

-- The connection behind a round, whether the loop goes on or not.
abbrev pub scene_of : Round → Scene
scene_of (done s) = s
scene_of (more s) = s

-- The response to a text that is no request.
abbrev pub refusal : Bytes
refusal =
    codes "HTTP/1.1 400 Bad Request"
    ++ (crlf
        ++ (codes "Connection: close"
            ++ (crlf
                ++ (codes "Content-Type: text/plain; charset=utf-8"
                    ++ (crlf
                        ++ (codes "Content-Length: 16"
                            ++ (crlf ++ (crlf ++ codes "400 Bad Request\n"))))))))

-- A response that announces the end of the connection, and else says what the handler's says.
pub record IsClosing (resp x : HttpResponse) : Type 0 where
  pub told : Headers.find (codes "Connection") x.headers ≡ some (codes "close")
  pub others_kept :
      (k : Bytes) → k ≢ codes "Connection" → Headers.find k x.headers ≡ Headers.find k resp.headers
  pub status_kept : x.status ≡ resp.status
  pub reason_kept : x.reason ≡ resp.reason
  pub body_kept : x.body ≡ resp.body

-- Both sides want the connection to stay.
abbrev pub Stays : HttpRequest → HttpResponse → Type 0
Stays req resp = Persists req × (resp.close_connection ≡ false)

-- The handler's response as it is where the connection is to stay, and one that says that it does
-- not where it is not.
abbrev pub Answers : HttpRequest → HttpResponse → HttpResponse → Type 0
Answers req resp x = (Stays req resp × (x ≡ resp)) ⊎ ((Stays req resp → ⊥) × IsClosing resp x)

added-IsClosing :
    (resp : HttpResponse) → IsClosing resp (set_header resp (codes "Connection") (codes "close"))
unfolding set_header
added-IsClosing resp = record {
  told =
      find-set (codes "Connection") (codes "Connection") (codes "close") resp.headers
      ∙ if_true _ _ _ (beq_refl (codes "Connection"));
  others_kept = λ k n.
      find-set k (codes "Connection") (codes "close") resp.headers ∙ if_false _ _ _ (other k n);
  status_kept = refl;
  reason_kept = refl;
  body_kept = refl;
}
  where
    other : (k : Bytes) → k ≢ codes "Connection" → beq (codes "Connection") k ≡ false
    other k n = elim (Bool-cases (beq (codes "Connection") k)) [
      | inl e ↦ absurd (n (sym ((beq_iff _ k).0 e)))
      | inr e ↦ e
    ]

stays_after_iff :
    (req : HttpRequest) (resp : HttpResponse) → (stays_after req resp ≡ true) ↔ Stays req resp
unfolding stays_after
stays_after_iff req resp = (
  λ h. ((keep_alive_iff req).0 (ground (arith, h)), ground (arith, h)),
  λ (p, c). (let k = (keep_alive_iff req).1 p in ground (arith, k, c)),
)

answer-Answers : (req : HttpRequest) (resp : HttpResponse) → Answers req resp (answer req resp)
unfolding answer
answer-Answers req resp = elim (Bool-cases (stays_after req resp)) [
  | inl e ↦ inl ((stays_after_iff req resp).0 e, if_true _ _ _ e)
  | inr e ↦ inr (
    λ s. (let h = (stays_after_iff req resp).1 s in cc),
    subst (IsClosing resp) (sym (if_false _ _ _ e)) (added-IsClosing resp),
  )
]

bad_request-refusal : Http.to_string bad_request ≡ refusal
unfolding bad_request set_header Http.make Headers.set Headers.find beq decimal Http.to_string
    Http.status_line Http.header_line Http.header_lines Http.added_lines Http.is_empty
    Http.reason_phrase
bad_request-refusal = refl

module _ (handler : Scene → HttpRequest → HttpResponse → HttpResponse) where
  -- The response to a request, which the handler sees counted.
  abbrev pub reply : Ret → Scene → Bytes
  reply incomplete s = []
  reply error s = Http.to_string bad_request
  reply ok s =
      let req = s.conn.parser.request in
      Http.to_string (
        answer req (
          handler
            (record s {
              counters = record s.counters { requests = add_size s.counters.requests 1 };
            })
            req new_response))

  bad_request-stream :
      (s : Scene)
      → s.conn.is_closed ≡ false
      → IsValid s.conn.output
      → Fits s.conn.output (length (Http.to_string bad_request))
      → stream (on_bad_request s) ≡ stream s ++ Http.to_string bad_request
  unfolding on_bad_request stream
  bad_request-stream s o v f =
      (send_lem (Http.to_string bad_request)
        (record s {
          conn = record s.conn { close_after_write = true; stays = false };
          counters = record s.counters { errors = add_size s.counters.errors 1 };
        })
        o v f).0

  request-stream :
      (s : Scene)
      → s.conn.is_closed ≡ false
      → IsValid s.conn.output
      → Fits s.conn.output (length (reply ok s))
      → stream (on_request handler s) ≡ stream s ++ reply ok s
  unfolding on_request stream
  request-stream s o v f =
      (send_lem (reply ok s)
        (record s0 {
          conn = record s.conn {
            stays = stays_after req resp;
            close_after_write = s.conn.close_after_write || not (stays_after req resp);
          };
        })
        o v f).0
    where
      s0 : Scene
      s0 = record s { counters = record s.counters { requests = add_size s.counters.requests 1 } }

      req : HttpRequest
      req = s.conn.parser.request

      resp : HttpResponse
      resp = handler s0 req new_response

  parsed-stream :
      (r : Ret) (s : Scene)
      → s.conn.is_closed ≡ false
      → IsValid s.conn.output
      → Fits s.conn.output (length (reply r s))
      → stream (scene_of (on_parsed handler r s)) ≡ stream s ++ reply r s
  unfolding on_parsed
  parsed-stream incomplete s o v f = sym (append-nil _)
  parsed-stream error s o v f = bad_request-stream s o v f
  parsed-stream ok s o v f =
      let s' = on_request handler s in
      if_cases (λ (x : Round). stream (scene_of x) ≡ stream s ++ reply ok s)
        (not s'.conn.stays || (readable_bytes s'.conn.input == 0)) (λ _. request-stream s o v f)
        (λ _. request-stream s o v f)

  -- What the handler answers to the request of a connection, which it sees counted.
  abbrev pub response_to : Scene → HttpResponse
  response_to s =
      handler
        (record s { counters = record s.counters { requests = add_size s.counters.requests 1 } })
        s.conn.parser.request new_response

  -- The bytes of the response to a parser's answer.
  abbrev pub IsReply : Ret → Scene → Bytes → Type 0
  IsReply incomplete s bytes = bytes ≡ []
  IsReply error s bytes = bytes ≡ refusal
  IsReply ok s bytes =
      (x : HttpResponse) × (bytes ≡ Http.to_string x)
      × Answers s.conn.parser.request (response_to s) x

  reply-IsReply : (r : Ret) (s : Scene) → IsReply r s (reply r s)
  reply-IsReply incomplete s = refl
  reply-IsReply error s = bad_request-refusal
  reply-IsReply ok s = (_, refl, answer-Answers s.conn.parser.request (response_to s))

  -- A round of `handleRequest` on an open connection with a valid output buffer that has room for
  -- the response: whatever the parser answers, the bytes sent and pending grow by exactly the
  -- response. This is nothing for INCOMPLETE, and the 400 response with `Connection: close` for
  -- ERROR. For OK it is the text of the handler's response as it is, where by the protocol's rule
  -- the client keeps the connection and the response does not close it, and else that of a
  -- response with the header `Connection: close`, and the status, the reason, the body and the
  -- other headers of the handler's.
  pub request_round-stream :
      (s : Scene) (r : Ret) (p : HttpParser) (b : Buffer)
      → s.conn.is_closed ≡ false
      → IsValid s.conn.output
      → Fits s.conn.output (length (reply r (parsed handler p b s)))
      → parse buffer_input s.conn.parser s.conn.input ≡ some (r, p, b)
      → (x : Round) × (bytes : Bytes) × (request_round handler s ≡ some x)
        × (stream (scene_of x) ≡ stream s ++ bytes)
        × IsReply r (parsed handler p b s) bytes
  unfolding stream
  request_round-stream s r p b o v f h = (
    on_parsed handler r (parsed handler p b s),
    reply r (parsed handler p b s),
    round_of_parse handler s r p b h,
    parsed-stream r (parsed handler p b s) o v f,
    reply-IsReply r (parsed handler p b s),
  )
