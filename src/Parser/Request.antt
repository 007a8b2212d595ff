-- ===== src/Parser/Request.antt =====
-- What each state of the parser has established about the request, and that the single steps
-- establish it.
use cxx_epoll_http_server.Common.{
  ◌≤◌, ◌<◌, ◌≡◌, ◌≢◌, refl, ◌∙◌, some, [], ◌∷◌, Bytes, codes, length, take, arith, subst, inl, inr,
  Option-cases,
}
use cxx_epoll_http_server.Headers.Laws.{IsSorted, set-IsSorted, length-set_le}
use cxx_epoll_http_server.Http.{HttpRequest}
use cxx_epoll_http_server.Input.{bytes_input}
use cxx_epoll_http_server.Parser.Fields.{header_of_line_iff}
use cxx_epoll_http_server.Parser.Lines.{Parts, request_of_line_iff}
use cxx_epoll_http_server.Parser.{
  State, request_line, headers, body, complete, failed, HttpParser, or_root, peek_line, find_byte,
  trim, lower, max_body, max_header_count, request_of_line, header_of_line, set_target, is_empty,
  end_of_headers, on_request_line, parse_request_line, await_line, fail,
}

-- What the request line has to have been.
pub record HasLine (r : HttpRequest) : Type 0 where
  pub method_full : r.method ≢ []
  pub path_full : r.path ≢ []
  pub version_length : 8 ≤ length r.version
  pub version_prefix : take 7 r.version ≡ codes "HTTP/1."

pub HasLine-kept :
    {r q : HttpRequest}
    → q.method ≡ r.method
    → q.path ≡ r.path
    → q.version ≡ r.version
    → HasLine r
    → HasLine q
HasLine-kept m p v h = record {
  method_full = rw m h.method_full;
  path_full = rw p h.path_full;
  version_length = rw v h.version_length;
  version_prefix = rw v h.version_prefix;
}

abbrev pub Stage : State → HttpParser → Type 0
Stage request_line p = (p.content_length ≡ 0) × (p.request.body ≡ [])
Stage headers p = HasLine p.request × (p.request.body ≡ [])
Stage body p =
    HasLine p.request
    × (p.request.body ≡ [])
    × (0 < p.content_length)
    × (p.content_length ≤ max_body)
Stage complete p =
    HasLine p.request × (length p.request.body ≡ p.content_length) × (p.content_length ≤ max_body)
Stage failed p = Unit {0}

pub record IsSound (p : HttpParser) : Type 0 where
  pub count : length p.request.headers ≤ max_header_count
  pub sorted : IsSorted p.request.headers
  pub stage : Stage p.state p

or_root-ne-nil : (s : Bytes) → or_root s ≢ []
unfolding or_root is_empty
or_root-ne-nil [] = λ h. cc
or_root-ne-nil (c ∷ s) = λ h. cc

set_target_kept :
    (r : HttpRequest) (t : Bytes)
    → let q = set_target r t in
      (q.path ≢ [])
      × (q.method ≡ r.method)
      × (q.version ≡ r.version)
      × (q.headers ≡ r.headers)
      × (q.body ≡ r.body)
unfolding set_target
set_target_kept r t = elim (Option-cases (find_byte b'?' t)) [
  | inl e ↦ rw (e, set_target) (or_root-ne-nil t, refl, refl, refl, refl)
  | inr (q, e) ↦ rw (e, set_target) (or_root-ne-nil (take q t), refl, refl, refl, refl)
]

request_of_line-HasLine :
    (r q : HttpRequest) (line : Bytes)
    → request_of_line r line ≡ some q
    → HasLine q × (q.headers ≡ r.headers) × (q.body ≡ r.body)
unfolding Parts
request_of_line-HasLine r q line h =
    let (m, t, v, i, e) = (request_of_line_iff r q line).0 h in
    let k = set_target_kept (record r { method = m; version = v }) t in
    rw e (
      record {
        method_full = rw (k.1) i.method_full;
        path_full = k.0;
        version_length = rw (k.2) i.version_length;
        version_prefix = rw (k.2) i.version_prefix;
      },
      k.3,
      k.4,
    )

pub header_of_line-kept :
    (p q : HttpParser) (line : Bytes)
    → header_of_line p line ≡ some q
    → IsSound p
    → p.state ≡ headers
    → IsSound q
header_of_line-kept p q line h v e =
    let (n, t, i) = (header_of_line_iff p q line).0 h in
    let key = lower (trim n) in
    let value = trim t in
    let hs = p.request.headers in
    let s = subst (λ st. Stage st p) e v.stage in
    rw (i.result) record {
      count = omega (arith, i.room, length-set_le key value hs);
      sorted = set-IsSorted key value hs v.sorted;
      stage = rw e (HasLine-kept refl refl refl s.0, s.1);
    }

pub end_of_headers-IsSound :
    (p : HttpParser) → IsSound p → p.state ≡ headers → IsSound (end_of_headers p).1
unfolding end_of_headers
end_of_headers-IsSound p v e = let s = subst (λ st. Stage st p) e v.stage in ground (arith, s)

pub fail-IsSound : (p : HttpParser) → IsSound p → IsSound (fail p)
fail-IsSound p v = record { count = v.count; sorted = v.sorted; stage = tt }

pub await_line-IsSound :
    (p : HttpParser) (s : Bytes) → IsSound p → IsSound (await_line bytes_input p s).1
unfolding await_line
await_line-IsSound p s v = ground (arith, fail-IsSound p v)

pub request_step-IsSound :
    (p : HttpParser) (s : Bytes)
    → IsSound p
    → p.state ≡ request_line
    → IsSound (parse_request_line bytes_input p s).1
unfolding parse_request_line on_request_line
request_step-IsSound p s v e = elim (Option-cases (peek_line bytes_input s)) [
  | inl f ↦ rw (f, parse_request_line) (await_line-IsSound p s v)
  | inr ((line, n), f) ↦ elim (Option-cases (request_of_line p.request line)) [
    | inl g ↦ rw (f, parse_request_line, g, on_request_line) (fail-IsSound p v)
    | inr (r, g) ↦
        let l = request_of_line-HasLine p.request r line g in
        let st = subst (λ st. Stage st p) e v.stage in
        rw (f, parse_request_line, g, on_request_line)
          record { count = rw (l.1) v.count; sorted = rw (l.1) v.sorted; stage = (l.0, l.2 ∙ st.1) }
  ]
]
