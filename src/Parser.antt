-- ===== src/Parser.antt =====
-- include/ws/http_parser.h and src/http_parser.cpp: the request parser, a state machine over an
-- input (Input.antt) that stands for the `Buffer*` of the source. A step returns its `Ret`, the
-- parser and the input. The two `for (;;)` loops take fuel, and `none` means that it ran out.
pub mod Refine
pub mod Steps
pub mod Resume
pub mod Calls
pub mod Stream
pub mod Progress
pub mod Lines
pub mod Fields
pub mod Request
pub mod Sound
pub mod Bounds
pub mod Fragments
mod Tests
use cxx_epoll_http_server.Common.{
  ℕ, zero, suc, ◌+◌, ◌-◌, ◌*◌, Bool, true, false, not, ◌&&◌, ◌||◌, Option, none, some, List, [],
  ◌∷◌, ◌++◌, Bytes, codes, beq, map, to_lower, is_space, length, take, drop, ltb, leb, ◌==◌,
  if◌then◌else◌,
}
use cxx_epoll_http_server.Headers
use cxx_epoll_http_server.Decimal.{ℤ, pos, negsuc, strtoll}
use cxx_epoll_http_server.Http.{HttpRequest, empty_request, get_header, iequals, clear}
use cxx_epoll_http_server.Input.{Input}

pub data Ret : Type 0 where
  ok incomplete error : Ret

pub data State : Type 0 where
  request_line headers body complete failed : State

pub record HttpParser : Type 0 where
  pub state : State
  pub request : HttpRequest
  pub content_length : ℕ

abbrev pub max_request_line : ℕ
max_request_line = 8 * 1024

abbrev pub max_header_count : ℕ
max_header_count = 100

abbrev pub max_body : ℕ
max_body = 8 * 1024 * 1024

-- `HttpParser()`.
abbrev pub new_parser : HttpParser
new_parser = record { state = State.request_line; request = empty_request; content_length = 0 }

-- The early returns of the source: `none` where it sets the error state.
infixl 5 ◌>>=◌ ◌>>◌
abbrev pub ◌>>=◌ {ℓ κ} : {A : Type ℓ} {B : Type κ} → Option A → (A → Option B) → Option B
none >>= f = none
some a >>= f = f a

abbrev pub ◌>>◌ {ℓ} : {B : Type ℓ} → Option (Unit {0}) → Option B → Option B
m >> k = m >>= λ _. k

abbrev pub refuse_if : Bool → Option (Unit {0})
refuse_if true = none
refuse_if false = some tt

unfoldable pub is_empty : Bytes → Bool
is_empty [] = true
is_empty (c ∷ s) = false

-- `std::string::find(c)`.
unfoldable pub find_byte : ℕ → Bytes → Option ℕ
find_byte c [] = none
find_byte c (x ∷ s) =
    let rest = find_byte c s in
    if x == c then some 0 else elim rest [ none ↦ none | some i ↦ some (suc i) ]

-- `std::string::find(c, pos)`.
unfoldable pub find_byte_from : ℕ → Bytes → ℕ → Option ℕ
find_byte_from c s from = elim (find_byte c (drop from s)) [
  | none ↦ none
  | some i ↦ some (from + i)
]

unfoldable pub trim_front : Bytes → Bytes
trim_front [] = []
trim_front (c ∷ s) = let rest = trim_front s in if is_space c then rest else c ∷ s

unfoldable pub trim_back : Bytes → Bytes
trim_back [] = []
trim_back (c ∷ s) = let rest = trim_back s in if is_empty rest && is_space c then [] else c ∷ rest

unfoldable pub trim : Bytes → Bytes
trim s = trim_back (trim_front s)

-- `toLower`.
abbrev pub lower : Bytes → Bytes
lower s = map to_lower s

-- `if (path.empty()) path = "/"`.
unfoldable pub or_root : Bytes → Bytes
or_root s = if is_empty s then codes "/" else s

-- The path and the query of a request target.
unfoldable pub set_target : HttpRequest → Bytes → HttpRequest
set_target r target = elim (find_byte b'?' target) [
  | none ↦ record r { path = or_root target }
  | some q ↦ record r { path = or_root (take q target); query = drop (q + 1) target }
]

-- The checks of `parseRequestLine` on a whole line, and the request's fields that it sets.
unfoldable pub request_of_line : HttpRequest → Bytes → Option HttpRequest
request_of_line r line = do
  refuse_if (ltb max_request_line (length line) || is_empty line)
  sp1 ← find_byte b' ' line
  sp2 ← find_byte_from b' ' line (sp1 + 1)
  let method = take sp1 line
  let target = take (sp2 - sp1 - 1) (drop (sp1 + 1) line)
  let version = drop (sp2 + 1) line
  refuse_if
      (is_empty method || (ltb (length version) 8 || not (beq (take 7 version) (codes "HTTP/1."))))
  some (set_target (record r { method = method; version = version }) target)

-- The value of a `content-length` header.
unfoldable pub content_length_of : Bytes → Option ℕ
content_length_of value = elim (strtoll value) [
  | none ↦ none
  | some (pos n) ↦ some n
  | some (negsuc n) ↦ none
]

-- The checks of `parseHeaders` on a line that is not empty, and what it sets.
unfoldable pub header_of_line : HttpParser → Bytes → Option HttpParser
header_of_line p line = do
  refuse_if (leb max_header_count (length p.request.headers))
  colon ← find_byte b':' line
  let key = lower (trim (take colon line))
  let value = trim (drop (colon + 1) line)
  refuse_if (is_empty key)
  n ← (if beq key (codes "content-length") then content_length_of value else some p.content_length)
  some (record p {
    request = record p.request { headers = Headers.set key value p.request.headers };
    content_length = n;
  })

-- The empty line: the body's length is known, or there is no body.
unfoldable pub end_of_headers : HttpParser → Ret × HttpParser
end_of_headers p =
    let te = get_header p.request (codes "transfer-encoding") in
    if not (is_empty te) && not (iequals te (codes "identity"))
    then (error, record p { state = failed })
    else if p.content_length == 0
    then (ok, record p { state = complete })
    else if ltb max_body p.content_length
    then (error, record p { state = failed })
    else (ok, record p { state = State.body })

abbrev pub fail : HttpParser → HttpParser
fail p = record p { state = failed }

-- What a round of the header loop comes to: it returns, or goes on with the next line.
pub data Round (B : Type 0) : Type 0 where
  done : Ret × HttpParser × B → Round B
  more : HttpParser → B → Round B

-- What the loop of `parseHeaders` does with a line, which is retrieved already.
unfoldable pub on_header_line : {B : Type 0} → HttpParser → B → Bytes → Round B
on_header_line p b [] = let (r, p') = end_of_headers p in done (r, p', b)
on_header_line p b (c ∷ s) = elim (header_of_line p (c ∷ s)) [
  | none ↦ done (error, fail p, b)
  | some p' ↦ more p' b
]

-- Whether the state is one in which `parse` returns at once.
unfoldable pub is_final : State → Bool
is_final request_line = false
is_final headers = false
is_final body = false
is_final complete = true
is_final failed = true

-- `if (r != Ret::OK) return r;`, and the next turn of the loop otherwise.
unfoldable pub go_on :
    {B : Type 0}
    → (HttpParser → B → Option (Ret × HttpParser × B))
    → Ret × HttpParser × B
    → Option (Ret × HttpParser × B)
go_on next (ok, p, b) = next p b
go_on next (incomplete, p, b) = some (incomplete, p, b)
go_on next (error, p, b) = some (error, p, b)

module _ {B : Type 0} (i : Input B) where
  -- The line in front, without its line end, and the bytes that it takes up.
  unfoldable pub peek_line : B → Option (Bytes × ℕ)
  peek_line b = elim (i.find_crlf b 0) [ none ↦ none | some n ↦ some (i.peek_string b n, n + 2) ]

  -- Where no line is there yet: too many bytes are an error.
  unfoldable pub await_line : HttpParser → B → Ret × HttpParser × B
  await_line p b =
      if ltb max_request_line (i.readable_bytes b) then (error, fail p, b) else (incomplete, p, b)

  unfoldable pub on_request_line : HttpParser → B → Bytes × ℕ → Ret × HttpParser × B
  on_request_line p b (line, consumed) = elim (request_of_line p.request line) [
    | none ↦ (error, fail p, b)
    | some r ↦ (ok, record p { state = State.headers; request = r }, i.retrieve b consumed)
  ]

  unfoldable pub parse_request_line : HttpParser → B → Ret × HttpParser × B
  parse_request_line p b = elim (peek_line b) [
    | none ↦ await_line p b
    | some l ↦ on_request_line p b l
  ]

  -- One round of the loop of `parseHeaders`.
  unfoldable pub header_round : HttpParser → B → Round B
  header_round p b = elim (peek_line b) [
    | none ↦ done (await_line p b)
    | some (line, consumed) ↦ on_header_line p (i.retrieve b consumed) line
  ]

  unfoldable pub parse_headers : ℕ → HttpParser → B → Option (Ret × HttpParser × B)
  parse_headers zero p b = none
  parse_headers (suc f) p b = elim (header_round p b) [
    | done r ↦ some r
    | more p' b' ↦ parse_headers f p' b'
  ]

  unfoldable pub parse_body : HttpParser → B → Ret × HttpParser × B
  parse_body p b = if ltb (i.readable_bytes b) p.content_length then (incomplete, p, b) else (
    ok,
    record p { state = complete; request = record p.request { body = taken.0 } },
    taken.1,
  )
    where
      taken : Bytes × B
      taken = i.retrieve_as_string b p.content_length

  -- One turn of the loop of `parse`, for the states that have a step.
  unfoldable pub parse_state : State → HttpParser → B → Option (Ret × HttpParser × B)
  parse_state request_line p b = some (parse_request_line p b)
  parse_state headers p b = parse_headers (suc (i.readable_bytes b)) p b
  parse_state body p b = some (parse_body p b)
  parse_state complete p b = some (ok, p, b)
  parse_state failed p b = some (error, p, b)

  unfoldable pub parse_loop : ℕ → HttpParser → B → Option (Ret × HttpParser × B)
  parse_loop zero p b = none
  parse_loop (suc f) p b = elim (is_final p.state) [
    | true ↦ parse_state p.state p b
    | false ↦ elim (parse_state p.state p b) [ none ↦ none | some x ↦ go_on (parse_loop f) x ]
  ]

  -- A request line, the headers, the body, and the return.
  unfoldable pub parse : HttpParser → B → Option (Ret × HttpParser × B)
  parse p b = parse_loop 4 p b

unfoldable pub reset : HttpParser → HttpParser
reset p = record p { state = State.request_line; request = clear p.request; content_length = 0 }
