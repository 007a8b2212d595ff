-- ===== src/Http/Framing.antt =====
-- A response as text, and how a client takes it apart again: lines up to an empty one, and a body.
use cxx_epoll_http_server.Common.{
  ℕ, zero, suc, ◌+◌, ◌<◌, ◌≡◌, refl, sym, ap, ◌∙◌, Bool, Option, none, some, List, [], ◌∷◌, ◌++◌,
  map, Bytes, codes, length, take, drop, take-append_eq, drop-append_eq, drop-drop, append-nil, ◌^◌,
  Lacks, Lacks-append, if◌then◌else◌, arith, if_cases, Option-cases, inl, inr,
}
use cxx_epoll_http_server.Buffer.{search_crlf}
use cxx_epoll_http_server.Buffer.Search.{search_crlf-line}
use cxx_epoll_http_server.Decimal.{pos, strtoll, to_string as decimal}
use cxx_epoll_http_server.Decimal.RoundTrip.{to_string-Lacks, strtoll-to_string}
use cxx_epoll_http_server.Headers
use cxx_epoll_http_server.Headers.{Headers}
use cxx_epoll_http_server.Http.{
  HttpResponse, reason_phrase, crlf, header_line, header_lines, status_line, added_lines, to_string,
  is_empty,
}

-- The lines before the first empty one, and what is behind that: how a client reads a response.
unfoldable pub split_lines : ℕ → Bytes → Option (List Bytes × Bytes)
split_lines zero s = none
split_lines (suc f) s = elim (search_crlf s) [
  | none ↦ none
  | some zero ↦ some ([], drop 2 s)
  | some (suc i) ↦ elim (split_lines f (drop (suc i + 2) s)) [
    | none ↦ none
    | some (ls, b) ↦ some (take (suc i) s ∷ ls, b)
  ]
]

-- No line has a carriage return in it.
abbrev pub Plain : Headers → Type 0
Plain [] = Unit {0}
Plain (kv ∷ m) = Lacks 13 (header_line kv) × Plain m

split_end : (f : ℕ) (body : Bytes) → split_lines (suc f) (crlf ++ body) ≡ some ([], body)
unfolding split_lines search_crlf
split_end f body = refl

split_of :
    (f i : ℕ) (s : Bytes) (ls : List Bytes) (b : Bytes)
    → search_crlf s ≡ some (suc i)
    → split_lines f (drop (suc i + 2) s) ≡ some (ls, b)
    → split_lines (suc f) s ≡ some (take (suc i) s ∷ ls, b)
unfolding split_lines
split_of f i s ls b h k = rw (h, split_lines, k) refl

behind_line : (line rest : Bytes) → drop (length line + 2) (line ++ (crlf ++ rest)) ≡ rest
behind_line line rest =
    sym (drop-drop 2 (length line) (length line + 2) (line ++ (crlf ++ rest)) refl)
    ∙ ap (drop 2) (drop-append_eq (length line) line (crlf ++ rest) refl)

split_line :
    (f : ℕ) (c : ℕ) (line rest : Bytes) (ls : List Bytes) (b : Bytes)
    → Lacks 13 (c ∷ line)
    → split_lines f rest ≡ some (ls, b)
    → split_lines (suc f) ((c ∷ line) ++ (crlf ++ rest)) ≡ some ((c ∷ line) ∷ ls, b)
split_line f c line rest ls b l h =
    split_of f (length line) ((c ∷ line) ++ (crlf ++ rest)) ls b
      (search_crlf-line (c ∷ line) rest l) (ap (split_lines f) (behind_line (c ∷ line) rest) ∙ h)
    ∙ ap (λ t. some (t ∷ ls, b)) (take-append_eq (length (c ∷ line)) (c ∷ line) (crlf ++ rest) refl)

split_header :
    (f : ℕ) (kv : Bytes × Bytes) (rest : Bytes) (ls : List Bytes) (b : Bytes)
    → Lacks 13 (header_line kv)
    → split_lines f rest ≡ some (ls, b)
    → split_lines (suc f) (header_line kv ++ (crlf ++ rest)) ≡ some (header_line kv ∷ ls, b)
unfolding header_line
split_header f ([], v) rest ls b l h = split_line f b':' (b' ' ∷ v) rest ls b l h
split_header f (c ∷ k, v) rest ls b l h = split_line f c (k ++ (codes ": " ++ v)) rest ls b l h

split_headers :
    (g f : ℕ) (m : Headers) (rest : Bytes) (ls : List Bytes) (b : Bytes)
    → g ≡ length m + f
    → Plain m
    → split_lines f rest ≡ some (ls, b)
    → split_lines g (header_lines m rest) ≡ some (map header_line m ++ ls, b)
unfolding header_lines
split_headers g f [] rest ls b e p h = let q : g ≡ f = omega arith in rw q h
split_headers zero f (kv ∷ m) rest ls b e p h = absurd (omega arith)
split_headers (suc g) f (kv ∷ m) rest ls b e p h =
    split_header g kv (header_lines m rest) (map header_line m ++ ls) b p.0
      (split_headers g f m rest ls b (omega arith) p.1 h)

if-Lacks : (b : Bool) (s t : Bytes) → Lacks 13 s → Lacks 13 t → Lacks 13 (if b then s else t)
if-Lacks b s t h k = if_cases (Lacks 13) b (λ _. h) (λ _. k)

-- The phrases of the source are on one line.
reason_phrase-Lacks : (status : ℕ) → Lacks 13 (reason_phrase status)
unfolding reason_phrase
reason_phrase-Lacks n = ground arith

status_line-Lacks : (r : HttpResponse) → Lacks 13 r.reason → Lacks 13 (status_line r)
unfolding status_line
status_line-Lacks r h = Lacks-append 13 (codes "HTTP/1.1 ") _ (ground arith) (
    Lacks-append 13 (decimal r.status) _ (to_string-Lacks 13 r.status (omega arith)) (
      Lacks-append 13 (codes " ") _ (ground arith) (
        if-Lacks (is_empty r.reason) (reason_phrase r.status) r.reason
          (reason_phrase-Lacks r.status) h)))

added_lines-Plain : (r : HttpResponse) → Plain (added_lines r)
unfolding added_lines header_line
added_lines-Plain r = elim (Option-cases (Headers.find (codes "Content-Length") r.headers)) [
  | inl e ↦
      rw (e, added_lines)
        (
          Lacks-append 13 (codes "Content-Length: ") _ (ground arith)
              (to_string-Lacks 13 (length r.body) (omega arith)),
          tt,
        )
  | inr (v, e) ↦ rw (e, added_lines) tt
]

announced :
    (r : HttpResponse)
    → Headers.find (codes "Content-Length") r.headers ≡ none
    → length r.body < 2 ^ 63
    → (v : Bytes) × (added_lines r ≡ (codes "Content-Length", v) ∷ [])
      × (strtoll v ≡ some (pos (length r.body)))
unfolding added_lines
announced r e l = (
  decimal (length r.body),
  rw (e, added_lines) refl,
  strtoll-to_string (length r.body) ∙ ap (λ n. some (pos n)) (omega arith),
)

split_response :
    (f : ℕ) (r : HttpResponse) (rest : Bytes) (ls : List Bytes) (b : Bytes)
    → Lacks 13 (status_line r)
    → split_lines f rest ≡ some (ls, b)
    → split_lines (suc f) (status_line r ++ (crlf ++ rest)) ≡ some (status_line r ∷ ls, b)
unfolding status_line
split_response f r rest ls b l h = split_line f b'H' _ rest ls b l h

-- The text of a response splits into its lines, those of its headers and the one added, and its body.
split_lines-to_string :
    (r : HttpResponse)
    → Lacks 13 r.reason
    → Plain r.headers
    → split_lines (length r.headers + length (added_lines r) + 2) (to_string r)
      ≡ some
          (status_line r ∷ (map header_line r.headers ++ map header_line (added_lines r)), r.body)
unfolding to_string
split_lines-to_string r h p =
    ap (λ g. split_lines g (to_string r)) fuel
    ∙ split_response (length r.headers + (length (added_lines r) + 1)) r _ _ r.body
        (status_line-Lacks r h)
        (split_headers _ (length (added_lines r) + 1) r.headers _ _ r.body refl p (
          split_headers _ 1 (added_lines r) (crlf ++ r.body) [] r.body refl (added_lines-Plain r)
            (split_end 0 r.body)
          ∙ ap (λ m. some (m, r.body)) (append-nil _)))
  where
    fuel :
        length r.headers + length (added_lines r) + 2
        ≡ suc (length r.headers + (length (added_lines r) + 1))
    fuel = omega arith

-- The text of a response whose reason and header lines have no carriage return, that sets no
-- `Content-Length` and whose body is below 2^63 bytes is taken apart by a client that reads lines
-- up to the first empty one: it gets the status line, the line of each header and one for
-- `Content-Length`, whose value reads as the length of the body, and exactly the body behind them.
pub to_string_lem :
    (r : HttpResponse)
    → Lacks 13 r.reason
    → Plain r.headers
    → Headers.find (codes "Content-Length") r.headers ≡ none
    → length r.body < 2 ^ 63
    → (v : Bytes) × (split_lines (length r.headers + 3) (to_string r)
        ≡ some (
          status_line r
              ∷ (map header_line r.headers ++ header_line (codes "Content-Length", v) ∷ []),
          r.body,
        ))
      × (strtoll v ≡ some (pos (length r.body)))
to_string_lem r h p n l =
    let (v, e, q) = announced r n l in
    (
      v,
      ap (λ g. split_lines g (to_string r)) (omega (arith, ap length e))
          ∙ split_lines-to_string r h p
          ∙ ap
              (λ m. some (status_line r ∷ (map header_line r.headers ++ map header_line m), r.body))
              e,
      q,
    )
