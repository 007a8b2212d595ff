-- ===== src/Buffer/Search.antt =====
-- `findCRLF`: it finds the first line end in the unread bytes from the offset on.
use cxx_epoll_http_server.Common.{
  ℕ, zero, suc, ◌+◌, ◌-◌, ◌≤◌, ◌<◌, ◌≡◌, refl, sym, ap, ◌∙◌, [], ◌∷◌, ◌++◌, Bytes, length, take,
  Bool-cases, Lacks, leb→le, length-take, length-drop, drop-drop, drop, arith, Option, none, some,
  ◌&&◌, ◌==◌, take_all, inl, inr, leb,
}
use cxx_epoll_http_server.Buffer.{Buffer, readable_bytes, search_crlf, find_crlf, peek_string}
use cxx_epoll_http_server.Buffer.Invariant.{IsValid}
use cxx_epoll_http_server.Buffer.Contents.{contents, length-contents, peek_string-contents}

abbrev pub crlf : Bytes
crlf = 13 ∷ 10 ∷ []

-- A line end stands at the place `i`.
abbrev pub IsCrlfAt : Bytes → ℕ → Type 0
IsCrlfAt s i = take 2 (drop i s) ≡ crlf

-- The first line end from the place `o` on: at `i`, and at no place between.
abbrev pub IsFirstCrlf : Bytes → ℕ → Option ℕ → Type 0
IsFirstCrlf s o none = (j : ℕ) → o ≤ j → ¬ IsCrlfAt s j
IsFirstCrlf s o (some i) = (o ≤ i) × IsCrlfAt s i × ((j : ℕ) → o ≤ j → j < i → ¬ IsCrlfAt s j)

-- A line end lies within the text.
pub IsCrlfAt-length : (s : Bytes) (j : ℕ) → IsCrlfAt s j → j + 2 ≤ length s
IsCrlfAt-length s j c = omega (arith, ap length c, length-take 2 (drop j s), length-drop j s)

no_crlf_in_short : (s : Bytes) → length s ≤ 1 → IsFirstCrlf s 0 none
no_crlf_in_short s h = λ j l c. omega (arith, IsCrlfAt-length s j c)

first_behind :
    (x : ℕ) (s : Bytes) (r : Option ℕ)
    → IsFirstCrlf s 0 r
    → ¬ IsCrlfAt (x ∷ s) 0
    → IsFirstCrlf (x ∷ s) 0 (elim r [ none ↦ none | some i ↦ some (suc i) ])
first_behind x s none h n = λ j l c. at j c
  where
    at : (j : ℕ) → ¬ IsCrlfAt (x ∷ s) j
    at zero c = n c
    at (suc j) c = h j (omega arith) c
first_behind x s (some i) h n = (omega arith, h.1, λ j l lt c. at j lt c)
  where
    at : (j : ℕ) → j < suc i → ¬ IsCrlfAt (x ∷ s) j
    at zero lt c = n c
    at (suc j) lt c = h.2 j (omega arith) (omega arith) c

search_crlf-first : (s : Bytes) → IsFirstCrlf s 0 (search_crlf s)
unfolding search_crlf
search_crlf-first [] = no_crlf_in_short [] (omega arith)
search_crlf-first (x ∷ []) = no_crlf_in_short (x ∷ []) (omega arith)
search_crlf-first (x ∷ y ∷ s) = elim (Bool-cases (x == 13 && y == 10)) [
  | inl e ↦ rw e (omega arith, ground arith, λ j l lt. absurd (omega arith))
  | inr e ↦
      rw e (
        first_behind x (y ∷ s) (search_crlf (y ∷ s)) (search_crlf-first (y ∷ s))
          (λ c. ground arith))
]

first_from :
    (s : Bytes) (o : ℕ) (r : Option ℕ)
    → IsFirstCrlf (drop o s) 0 r
    → IsFirstCrlf s o (elim r [ none ↦ none | some i ↦ some (o + i) ])
first_from s o none h =
    λ j l c. h (j - o) (omega arith) (rw (drop-drop (j - o) o j s (omega arith)) c)
first_from s o (some i) h = (
  omega arith,
  rw (← drop-drop i o (o + i) s refl) h.1,
  λ j l lt c.
      h.2 (j - o) (omega arith) (omega arith) (rw (drop-drop (j - o) o j s (omega arith)) c),
)

all_readable : (b : Buffer) → IsValid b → peek_string b (readable_bytes b) ≡ contents b
all_readable b v =
    peek_string-contents b (readable_bytes b) v (omega arith)
    ∙ take_all (readable_bytes b) (contents b) (omega (arith, length-contents b v))

search_crlf_short : (s : Bytes) → length s ≤ 1 → search_crlf s ≡ none
unfolding search_crlf
search_crlf_short [] h = refl
search_crlf_short (x ∷ []) h = refl
search_crlf_short (x ∷ y ∷ s) h = absurd (omega arith)

-- On a valid buffer `findCRLF` finds the first line end of the unread bytes at or behind the
-- offset, and answers `npos` if there is none there.
pub find_crlf-first : (b : Buffer) (o : ℕ) → IsValid b → IsFirstCrlf (contents b) o (find_crlf b o)
unfolding find_crlf
find_crlf-first b o v = elim (Bool-cases (leb (readable_bytes b) o)) [
  | inl e ↦ rw e λ j l c.
      omega (
        arith,
        leb→le (readable_bytes b) o e,
        IsCrlfAt-length (contents b) j c,
        length-contents b v,
      )
  | inr e ↦
      rw (e, all_readable b v)
        (first_from (contents b) o _ (search_crlf-first (drop o (contents b))))
]

pub find_crlf-search : (b : Buffer) → IsValid b → find_crlf b 0 ≡ search_crlf (contents b)
unfolding find_crlf
find_crlf-search b v = elim (Bool-cases (leb (readable_bytes b) 0)) [
  | inl e ↦ rw e (
      sym (
        search_crlf_short (contents b)
          (omega (arith, leb→le (readable_bytes b) 0 e, length-contents b v))))
  | inr e ↦ rw (e, all_readable b v) (same (search_crlf (contents b)))
]
  where
    same : (r : Option ℕ) → elim r [ none ↦ none | some i ↦ some (0 + i) ] ≡ r
    same none = refl
    same (some i) = ground arith

-- What is known of the place found, for the parser: it is within the text.
pub search_crlf-lt : (s : Bytes) (i : ℕ) → search_crlf s ≡ some i → i + 2 ≤ length s
unfolding search_crlf
search_crlf-lt [] i h = ground arith
search_crlf-lt (x ∷ []) i h = ground arith
search_crlf-lt (x ∷ y ∷ s) i h = ground (arith, search_crlf-lt (y ∷ s) (i - 1))

-- More bytes at the end do not move a line end that was found.
pub search_crlf-append :
    (s t : Bytes) (i : ℕ) → search_crlf s ≡ some i → search_crlf (s ++ t) ≡ some i
unfolding search_crlf
search_crlf-append [] t i h = ground arith
search_crlf-append (x ∷ []) t i h = ground arith
search_crlf-append (x ∷ y ∷ s) t i h = ground (arith, search_crlf-append (y ∷ s) t (i - 1))

-- A text with no carriage return holds no line end, and a line of such a text is found whole.
pub search_crlf-Lacks : (s : Bytes) → Lacks 13 s → search_crlf s ≡ none
unfolding search_crlf
search_crlf-Lacks [] l = refl
search_crlf-Lacks (x ∷ []) l = refl
search_crlf-Lacks (x ∷ y ∷ s) l = ground (arith, search_crlf-Lacks (y ∷ s) l.1)

pub search_crlf-line :
    (s t : Bytes) → Lacks 13 s → search_crlf (s ++ (13 ∷ 10 ∷ t)) ≡ some (length s)
unfolding search_crlf
search_crlf-line [] t l = refl
search_crlf-line (x ∷ []) t l = ground (arith, search_crlf-line [] t tt)
search_crlf-line (x ∷ y ∷ s) t l = ground (arith, search_crlf-line (y ∷ s) t l.1)

-- Nor does a carriage return at the end of the text make one.
pub search_crlf-split : (s : Bytes) → Lacks 13 s → search_crlf (s ++ (13 ∷ [])) ≡ none
unfolding search_crlf
search_crlf-split [] l = refl
search_crlf-split (x ∷ []) l = ground arith
search_crlf-split (x ∷ y ∷ s) l = ground (arith, search_crlf-split (y ∷ s) l.1)
