-- ===== src/Parser/Fields.antt =====
-- The header lines, by an independent description of them.
use cxx_epoll_http_server.Common.{
  ℕ, suc, ◌+◌, ◌<◌, ◌≡◌, ◌≢◌, ◌↔◌, refl, sym, ap, ◌∙◌, subst, false, Option, some, [], ◌∷◌, ◌++◌,
  Bytes, codes, Lacks, length, take, drop, leb, if◌then◌else◌, arith, inl, inr, Option-cases,
  Bool-cases, ◌⊎◌, none, beq, beq_iff, if_true, if_false, take-append_eq, drop-append_eq, drop-drop,
}
use cxx_epoll_http_server.Decimal.{ℤ, pos, negsuc, strtoll}
use cxx_epoll_http_server.Decimal.Reading.{Reads, strtoll_iff}
use cxx_epoll_http_server.Headers
use cxx_epoll_http_server.Parser.{
  HttpParser, find_byte, header_of_line, trim, lower, content_length_of, max_header_count,
}
use cxx_epoll_http_server.Parser.Lines.{find_byte-some, find_byte-append, is_empty_ne, is_empty_iff}

-- The body's length behind a header: a `content-length` announces it, in decimal digits, and any
-- other keeps it.
abbrev pub Announces : HttpParser → Bytes → Bytes → ℕ → Type 0
Announces p key value n =
    ((key ≡ codes "content-length") × Reads value n)
    ⊎ ((key ≢ codes "content-length") × (n ≡ p.content_length))

-- What the code computes for it.
abbrev length_behind : HttpParser → Bytes → Bytes → Option ℕ
length_behind p key value =
    if beq key (codes "content-length") then content_length_of value else some p.content_length

content_length_of_iff : (value : Bytes) (n : ℕ) → (content_length_of value ≡ some n) ↔ Reads value n
unfolding content_length_of
content_length_of_iff value n = (
  λ h. (strtoll_iff value n).0 (split (strtoll value) h),
  λ r. rw (content_length_of, (strtoll_iff value n).1 r) refl,
)
  where
    split :
        (o : Option ℤ)
        → (elim o as (λ _. Option ℕ) [
          | none ↦ none
          | some (pos n) ↦ some n
          | some (negsuc n) ↦ none
        ])
          ≡ some n
        → o ≡ some (pos n)
    split none h = cc
    split (some (pos m)) h = cc
    split (some (negsuc m)) h = cc

length_behind-Announces :
    (p : HttpParser) (key value : Bytes) (n : ℕ)
    → length_behind p key value ≡ some n
    → Announces p key value n
length_behind-Announces p key value n h = elim (Bool-cases (beq key (codes "content-length"))) [
  | inl e ↦ inl ((beq_iff key _).0 e, (content_length_of_iff value n).0 (sym (if_true _ _ _ e) ∙ h))
  | inr e ↦ inr (λ q. (let b = (beq_iff key _).1 q in cc), some_same (sym h ∙ if_false _ _ _ e))
]
  where
    some_same : {a b : ℕ} → some a ≡ some b → a ≡ b
    some_same e = cc

Announces-length_behind :
    (p : HttpParser) (key value : Bytes) (n : ℕ)
    → Announces p key value n
    → length_behind p key value ≡ some n
Announces-length_behind p key value n (inl (k, r)) =
    if_true _ _ _ ((beq_iff key _).1 k) ∙ (content_length_of_iff value n).1 r
Announces-length_behind p key value n (inr (k, e)) =
    elim (Bool-cases (beq key (codes "content-length"))) [
      | inl b ↦ absurd (k ((beq_iff key _).0 b))
      | inr b ↦ if_false _ _ _ b ∙ ap some (sym e)
    ]

-- A header line: a name and a text, parted by the first colon. The key is the name, trimmed and in
-- lower case, and the value is the text, trimmed.
pub record IsField (p q : HttpParser) (line name text : Bytes) : Type 0 where
  pub parts : line ≡ name ++ (b':' ∷ text)
  pub name_word : Lacks b':' name
  pub key_full : lower (trim name) ≢ []
  pub room : length p.request.headers < max_header_count
  pub body_length : Announces p (lower (trim name)) (trim text) q.content_length
  pub result : q ≡ record p {
    request = record p.request {
      headers = Headers.set (lower (trim name)) (trim text) p.request.headers;
    };
    content_length = q.content_length;
  }

header_of_line-IsField :
    (p q : HttpParser) (line : Bytes)
    → header_of_line p line ≡ some q
    → (name : Bytes) × (text : Bytes) × IsField p q line name text
unfolding header_of_line
header_of_line-IsField p q line h = elim (Option-cases (find_byte b':' line)) [
  | inl f ↦ ground (arith, f)
  | inr (i, f) ↦
      let name = take i line in
      let text = drop (i + 1) line in
      let found = find_byte-some b':' line i f in
      elim (Option-cases (length_behind p (lower (trim name)) (trim text))) [
        | inl g ↦ ground (arith, f, g)
        | inr (n, g) ↦ (
          name,
          text,
          record {
            parts = found.0 ∙ ap (λ k. name ++ (b':' ∷ drop k line)) (next i);
            name_word = found.1;
            key_full = λ e. ground (arith, f, g, (is_empty_iff (lower (trim name))).1 e);
            room = ground (arith, f, g);
            body_length = length_behind-Announces p _ _ _ (ground (arith, f, g));
            result = ground (arith, f, g);
          },
        )
      ]
]
  where
    next : (i : ℕ) → suc i ≡ i + 1
    next i = omega arith

drop-name : (name text : Bytes) → drop (length name + 1) (name ++ (b':' ∷ text)) ≡ text
drop-name name text =
    sym (drop-drop 1 (length name) (length name + 1) (name ++ (b':' ∷ text)) refl)
    ∙ ap (drop 1) (drop-append_eq (length name) name (b':' ∷ text) refl)

IsField-accepted :
    (p q : HttpParser) (name text : Bytes)
    → IsField p q (name ++ (b':' ∷ text)) name text
    → header_of_line p (name ++ (b':' ∷ text)) ≡ some q
unfolding header_of_line
IsField-accepted p q name text i =
    rw
      (
        below,
        find_byte-append b':' name text i.name_word,
        take-append_eq (length name) name (b':' ∷ text) refl,
        drop-name name text,
        is_empty_ne (lower (trim name)) i.key_full,
        Announces-length_behind p _ _ _ i.body_length,
        header_of_line,
      )
      (ap some (sym i.result))
  where
    below : leb max_header_count (length p.request.headers) ≡ false
    below = let r = i.room in ground arith

-- A header line is accepted exactly if it has a colon, the trimmed name before it is not empty,
-- fewer than 100 headers are there, and the trimmed value of a `content-length` is decimal digits,
-- with spaces or a sign before them and any text behind them, and nothing but zero behind a minus;
-- the parser then sets the trimmed value under the trimmed lower-case name, and the body's length,
-- which is the number of the digits or LLONG_MAX if that is less, and nothing else.
pub header_of_line_iff :
    (p q : HttpParser) (line : Bytes)
    → (header_of_line p line ≡ some q)
      ↔ ((name : Bytes) × (text : Bytes) × IsField p q line name text)
header_of_line_iff p q line = (
  header_of_line-IsField p q line,
  λ (n, t, i). rw (i.parts) (IsField-accepted p q n t (subst (λ l. IsField p q l n t) i.parts i)),
)
