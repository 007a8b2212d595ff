-- ===== src/Parser/Stream.antt =====
-- `parse` on the buffer of a connection while bytes keep arriving.
use cxx_epoll_http_server.Common.{
  ◌≡◌, refl, sym, ap, ◌∙◌, Option, none, some, ◌++◌, Bytes, length, inl, inr, Option-cases,
}
use cxx_epoll_http_server.Buffer.{Buffer, append}
use cxx_epoll_http_server.Buffer.Invariant.{IsValid, Fits, append-IsValid}
use cxx_epoll_http_server.Buffer.Contents.{contents, contents-append}
use cxx_epoll_http_server.Input.{bytes_input, buffer_input}
use cxx_epoll_http_server.Parser.{Ret, ok, incomplete, HttpParser, parse}
use cxx_epoll_http_server.Parser.Refine.{Agrees, parse_refines}
use cxx_epoll_http_server.Parser.Calls.{parse_bytes-total, parse_bytes-prefix, parse_bytes-resume}

-- A result with the unread bytes in place of the buffer.
abbrev pub seen : Option (Ret × HttpParser × Buffer) → Option (Ret × HttpParser × Bytes)
seen none = none
seen (some (r, p, b)) = some (r, p, contents b)

seen-Agrees :
    (x : Option (Ret × HttpParser × Buffer)) (y : Option (Ret × HttpParser × Bytes))
    → Agrees IsValid contents x y
    → seen x ≡ y
seen-Agrees none none a = refl
seen-Agrees none (some y) a = absurd a
seen-Agrees (some x) none a = absurd a
seen-Agrees (some (r, p, b)) (some (r', p', s)) a = cc (a.1, a.2, a.3)

-- A call on a valid buffer does what it does on the list of the unread bytes.
pub seen-parse :
    (p : HttpParser) (b : Buffer)
    → IsValid b
    → seen (parse buffer_input p b) ≡ parse bytes_input p (contents b)
seen-parse p b v = seen-Agrees _ _ (parse_refines p b v)

-- The buffer that a call leaves is valid again.
pub parse-IsValid :
    (p q : HttpParser) (b c : Buffer) (r : Ret)
    → IsValid b
    → parse buffer_input p b ≡ some (r, q, c)
    → IsValid c
parse-IsValid p q b c r v e = left _ _ (parse_refines p b v) e
  where
    left :
        (x : Option (Ret × HttpParser × Buffer)) (y : Option (Ret × HttpParser × Bytes))
        → Agrees IsValid contents x y
        → x ≡ some (r, q, c)
        → IsValid c
    left none y a h = cc
    left (some (r', p', b')) none a h = absurd a
    left (some (r', p', b')) (some y) a h = rw (← same h) (a.0)
      where
        same :
            ◌≡◌ {A = Option (Ret × HttpParser × Buffer)} (some (r', p', b')) (some (r, q, c))
            → b' ≡ c
        same h = cc

-- A call of `parse` on a valid buffer returns: neither its own loop nor that of the headers runs
-- out of fuel.
pub parse_total :
    (p : HttpParser) (b : Buffer)
    → IsValid b
    → (x : Ret × HttpParser × Buffer) × (parse buffer_input p b ≡ some x)
parse_total p b v = elim (Option-cases (parse buffer_input p b)) [
  | inl e ↦
      let (y, t) = parse_bytes-total p (contents b) in absurd (cc (seen-parse p b v, t, ap seen e))
  | inr x ↦ x
]

-- Where `parse` on a valid buffer answers OK, it gives the same parser when any bytes are appended
-- to the buffer first, and those bytes are left behind the bytes that it left before: a pipelined
-- request does not change the one before it.
pub parse-append_ok :
    (p q : HttpParser) (b c : Buffer) (s : Bytes)
    → IsValid b
    → Fits b (length s)
    → parse buffer_input p b ≡ some (ok, q, c)
    → seen (parse buffer_input p (append b s)) ≡ some (ok, q, contents c ++ s)
parse-append_ok p q b c s v f e =
    seen-parse p (append b s) (append-IsValid b s v f)
    ∙ ap (parse bytes_input p) (contents-append b s v f)
    ∙ parse_bytes-prefix p q (contents b) s (contents c) (sym (seen-parse p b v) ∙ ap seen e)

-- Where `parse` on a valid buffer answers INCOMPLETE, the parser that it leaves, run on the buffer
-- that it leaves with any bytes appended to it, gives the same answer, parser and unread bytes as
-- the first parser gives on the first buffer with these bytes appended (both buffers having room
-- in the address space).
pub parse-append_incomplete :
    (p q : HttpParser) (b c : Buffer) (s : Bytes)
    → IsValid b
    → Fits b (length s)
    → Fits c (length s)
    → parse buffer_input p b ≡ some (incomplete, q, c)
    → seen (parse buffer_input q (append c s)) ≡ seen (parse buffer_input p (append b s))
parse-append_incomplete p q b c s v f g e =
    seen-parse q (append c s) (append-IsValid c s w g)
    ∙ ap (parse bytes_input q) (contents-append c s w g)
    ∙ sym (parse_bytes-resume p q (contents b) s (contents c) (sym (seen-parse p b v) ∙ ap seen e))
    ∙ ap (parse bytes_input p) (sym (contents-append b s v f))
    ∙ sym (seen-parse p (append b s) (append-IsValid b s v f))
  where
    w : IsValid c
    w = parse-IsValid p q b c incomplete v e
