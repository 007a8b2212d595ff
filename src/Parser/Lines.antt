-- ===== src/Parser/Lines.antt =====
-- The request line and the header lines, read by an independent description of them.
use cxx_epoll_http_server.Common.{
  ℕ, zero, suc, ◌+◌, ◌-◌, ◌≤◌, ◌<◌, ◌≡◌, ◌≢◌, ◌↔◌, refl, sym, ap, subst, ◌∙◌, true, false, not,
  ◌||◌, none, some, [], ◌∷◌, ◌++◌, Bytes, codes, Lacks, length, take, drop, ltb, arith, inl, inr,
  Option-cases, beq, beq_iff, take-append_eq, drop-append_eq, drop-drop,
}
use cxx_epoll_http_server.Http.{HttpRequest}
use cxx_epoll_http_server.Parser.{
  find_byte, find_byte_from, set_target, request_of_line, is_empty, max_request_line,
}

pub find_byte-some :
    (c : ℕ) (s : Bytes) (i : ℕ)
    → find_byte c s ≡ some i
    → (s ≡ take i s ++ (c ∷ drop (suc i) s)) × Lacks c (take i s) × (i < length s)
unfolding find_byte
find_byte-some c [] i h = ground arith
find_byte-some c (x ∷ s) zero h = (ground arith, tt, omega arith)
find_byte-some c (x ∷ s) (suc i) h = ground (arith, find_byte-some c s i)

pub find_byte-append :
    (c : ℕ) (a b : Bytes) → Lacks c a → find_byte c (a ++ (c ∷ b)) ≡ some (length a)
unfolding find_byte
find_byte-append c [] b l = ground arith
find_byte-append c (x ∷ a) b l = ground (arith, find_byte-append c a b l.1)

pub find_byte-none : (c : ℕ) (s : Bytes) → Lacks c s → find_byte c s ≡ none
unfolding find_byte
find_byte-none c [] l = refl
find_byte-none c (x ∷ s) l = ground (arith, find_byte-none c s l.1)

-- A request line: a method, a target and a version, with one space behind each of the first two.
pub record IsRequestLine (line method target version : Bytes) : Type 0 where
  pub parts : line ≡ method ++ (b' ' ∷ (target ++ (b' ' ∷ version)))
  pub short : length line ≤ max_request_line
  pub method_full : method ≢ []
  pub method_word : Lacks b' ' method
  pub target_word : Lacks b' ' target
  pub version_prefix : take 7 version ≡ codes "HTTP/1."
  pub version_length : 8 ≤ length version

pub is_empty_iff : (s : Bytes) → (is_empty s ≡ true) ↔ (s ≡ [])
unfolding is_empty
is_empty_iff [] = ground arith
is_empty_iff (c ∷ s) = ground arith

pub is_empty_ne : (s : Bytes) → s ≢ [] → is_empty s ≡ false
unfolding is_empty
is_empty_ne [] n = absurd (n refl)
is_empty_ne (c ∷ s) n = refl

is_empty-append : (s t : Bytes) → s ≢ [] → is_empty (s ++ t) ≡ false
unfolding is_empty
is_empty-append [] t n = absurd (n refl)
is_empty-append (c ∷ s) t n = refl

find_byte_from-some :
    (c : ℕ) (s : Bytes) (k i : ℕ)
    → find_byte_from c s k ≡ some i
    → (k ≤ i) × (find_byte c (drop k s) ≡ some (i - k))
unfolding find_byte_from
find_byte_from-some c s k i h = ground arith

-- What an accepted line has passed, one check after the other.
record Accepted (r q : HttpRequest) (line : Bytes) : Type 0 where
  sp1 : ℕ
  sp2 : ℕ
  not_long : ltb max_request_line (length line) ≡ false
  first : find_byte b' ' line ≡ some sp1
  second : find_byte_from b' ' line (sp1 + 1) ≡ some sp2
  full : is_empty (take sp1 line) ≡ false
  long_version : ltb (length (drop (sp2 + 1) line)) 8 ≡ false
  http_1 : beq (take 7 (drop (sp2 + 1) line)) (codes "HTTP/1.") ≡ true
  result :
      q
      ≡ set_target
          (record r { method = take sp1 line; version = drop (sp2 + 1) line })
          (take (sp2 - sp1 - 1) (drop (sp1 + 1) line))

request_of_line-Accepted :
    (r q : HttpRequest) (line : Bytes) → request_of_line r line ≡ some q → Accepted r q line
unfolding request_of_line
request_of_line-Accepted r q line h = elim (Option-cases (find_byte b' ' line)) [
  | inl e ↦ ground (arith, e)
  | inr (sp1, e) ↦ elim (Option-cases (find_byte_from b' ' line (sp1 + 1))) [
    | inl f ↦ ground (arith, e, f)
    | inr (sp2, f) ↦ record {
      sp1 = sp1;
      sp2 = sp2;
      not_long = ground (arith, e, f);
      first = e;
      second = f;
      full = ground (arith, e, f);
      long_version = ground (arith, e, f);
      http_1 = ground (arith, e, f);
      result = ground (arith, e, f);
    }
  ]
]

-- An accepted line is a request line, and the request takes its parts from it.
unfoldable pub Parts : HttpRequest → Bytes → HttpRequest → Type 0
Parts r line q =
    (method : Bytes) × (target : Bytes) × (version : Bytes) × IsRequestLine line method target
      version
    × (q ≡ set_target (record r { method = method; version = version }) target)

Accepted-Parts : (r q : HttpRequest) (line : Bytes) → Accepted r q line → Parts r line q
unfolding Parts
Accepted-Parts r q line a = (
  take a.sp1 line,
  take (a.sp2 - a.sp1 - 1) rest,
  drop (a.sp2 + 1) line,
  record {
    parts =
        one.0
        ∙ ap (λ k. take a.sp1 line ++ (b' ' ∷ drop k line)) next
        ∙ ap (λ u. take a.sp1 line ++ (b' ' ∷ u)) two_parts;
    short = ground (arith, a.not_long);
    method_full = λ e. cc (a.full, (is_empty_iff (take a.sp1 line)).1 e);
    method_word = one.1;
    target_word = two.1;
    version_prefix = (beq_iff _ _).0 a.http_1;
    version_length = ground (arith, a.long_version);
  },
  a.result,
)
  where
    next : suc a.sp1 ≡ a.sp1 + 1
    next = omega arith

    rest : Bytes
    rest = drop (a.sp1 + 1) line

    one :
        (line ≡ take a.sp1 line ++ (b' ' ∷ drop (suc a.sp1) line))
        × Lacks b' ' (take a.sp1 line)
        × (a.sp1 < length line)
    one = find_byte-some b' ' line a.sp1 a.first

    behind : (a.sp1 + 1 ≤ a.sp2) × (find_byte b' ' rest ≡ some (a.sp2 - a.sp1 - 1))
    behind =
        let f = find_byte_from-some b' ' line (a.sp1 + 1) a.sp2 a.second in
        (f.0, f.1 ∙ ap some (omega arith))

    two :
        (rest ≡ take (a.sp2 - a.sp1 - 1) rest ++ (b' ' ∷ drop (suc (a.sp2 - a.sp1 - 1)) rest))
        × Lacks b' ' (take (a.sp2 - a.sp1 - 1) rest)
        × (a.sp2 - a.sp1 - 1 < length rest)
    two = find_byte-some b' ' rest (a.sp2 - a.sp1 - 1) behind.1

    two_parts : rest ≡ take (a.sp2 - a.sp1 - 1) rest ++ (b' ' ∷ drop (a.sp2 + 1) line)
    two_parts =
        two.0
        ∙ ap (λ u. take (a.sp2 - a.sp1 - 1) rest ++ (b' ' ∷ u))
            (drop-drop (suc (a.sp2 - a.sp1 - 1)) (a.sp1 + 1) (a.sp2 + 1) line
              (omega (arith, behind.0)))

module _ (m t v : Bytes) where
  abbrev whole : Bytes
  whole = m ++ (b' ' ∷ (t ++ (b' ' ∷ v)))

  drop-method : drop (length m + 1) whole ≡ t ++ (b' ' ∷ v)
  drop-method =
      sym (drop-drop 1 (length m) (length m + 1) whole refl)
      ∙ ap (drop 1) (drop-append_eq (length m) m (b' ' ∷ (t ++ (b' ' ∷ v))) refl)

  drop-target : drop (length m + 1 + length t + 1) whole ≡ v
  drop-target =
      sym
        (drop-drop (length t + 1) (length m + 1) (length m + 1 + length t + 1) whole (omega arith))
      ∙ ap (drop (length t + 1)) drop-method
      ∙ sym (drop-drop 1 (length t) (length t + 1) (t ++ (b' ' ∷ v)) refl)
      ∙ ap (drop 1) (drop-append_eq (length t) t (b' ' ∷ v) refl)

  second_space :
      Lacks b' ' t → find_byte_from b' ' whole (length m + 1) ≡ some (length m + 1 + length t)
  unfolding find_byte_from
  second_space l = rw (drop-method, find_byte-append b' ' t v l, find_byte_from)

  target_between : take (length m + 1 + length t - length m - 1) (drop (length m + 1) whole) ≡ t
  target_between =
      ap (take (length m + 1 + length t - length m - 1)) drop-method
      ∙ take-append_eq _ t (b' ' ∷ v) (omega arith)

  first_checks :
      IsRequestLine whole m t v → (ltb max_request_line (length whole) || is_empty whole) ≡ false
  first_checks i =
      let short = i.short in
      ground (arith, is_empty-append m (b' ' ∷ (t ++ (b' ' ∷ v))) i.method_full)

  last_checks :
      IsRequestLine whole m t v
      → (is_empty m || (ltb (length v) 8 || not (beq (take 7 v) (codes "HTTP/1.")))) ≡ false
  last_checks i =
      rw (is_empty_ne m i.method_full, (beq_iff (take 7 v) (codes "HTTP/1.")).1 i.version_prefix)
        (let long = i.version_length in ground arith)

  Parts-accepted :
      (r : HttpRequest)
      → IsRequestLine whole m t v
      → request_of_line r whole ≡ some (set_target (record r { method = m; version = v }) t)
  unfolding request_of_line
  Parts-accepted r i = rw (
    first_checks i,
    find_byte-append b' ' m (t ++ (b' ' ∷ v)) i.method_word,
    second_space i.target_word,
    take-append_eq (length m) m (b' ' ∷ (t ++ (b' ' ∷ v))) refl,
    drop-target,
    target_between,
    last_checks i,
    request_of_line,
  )

-- A whole request line is accepted exactly if it is a method, a target and a version of HTTP/1,
-- with one space behind each of the first two, no space in them, a method that is not empty and at
-- most 8192 bytes in all; the request then gets exactly these parts.
pub request_of_line_iff :
    (r q : HttpRequest) (line : Bytes) → (request_of_line r line ≡ some q) ↔ Parts r line q
unfolding Parts
request_of_line_iff r q line = (
  λ h. Accepted-Parts r q line (request_of_line-Accepted r q line h),
  λ (m, t, v, i, e).
      rw (i.parts, e) (Parts-accepted m t v r (subst (λ l. IsRequestLine l m t v) i.parts i)),
)
