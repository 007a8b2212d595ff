-- ===== src/Decimal/Reading.antt =====
-- Which texts `strtoll` reads as a number that is not negative, and as which one.
use cxx_epoll_http_server.Common.{
  ℕ, zero, suc, ◌+◌, ◌-◌, ◌*◌, min, ◌≡◌, ◌≢◌, ◌↔◌, ◌⊎◌, inl, inr, refl, sym, ap, ◌∙◌, subst, true,
  false, some, [], ◌∷◌, ◌++◌, Bytes, is_digit, is_space, arith, ◌==◌, Bool-cases,
}
use cxx_epoll_http_server.Decimal.{
  pos, skip_spaces, read_digits, starts_with_digit, negated, signed, strtoll, llong_max,
}

abbrev pub AllSpaces : Bytes → Type 0
AllSpaces [] = Unit {0}
AllSpaces (c ∷ s) = (is_space c ≡ true) × AllSpaces s

abbrev pub AllDigits : Bytes → Type 0
AllDigits [] = Unit {0}
AllDigits (c ∷ s) = (is_digit c ≡ true) × AllDigits s

-- No digit comes first.
abbrev pub NoDigit : Bytes → Type 0
NoDigit [] = Unit {0}
NoDigit (c ∷ s) = is_digit c ≡ false

-- The number that digits stand for, behind `n`.
abbrev pub number : ℕ → Bytes → ℕ
number n [] = n
number n (c ∷ s) = number (n * 10 + (c - b'0')) s

-- As many digits as there are, one at least, and then any other text.
pub record IsNumber (s : Bytes) (n : ℕ) (digits tail : Bytes) : Type 0 where
  pub parts : s ≡ digits ++ tail
  pub all_digits : AllDigits digits
  pub some_digits : digits ≢ []
  pub ended : NoDigit tail
  pub value : n ≡ number 0 digits

abbrev pub Numeral : Bytes → ℕ → Type 0
Numeral s n = (digits : Bytes) × (tail : Bytes) × IsNumber s n digits tail

-- A number that may have a sign, no larger than `LLONG_MAX`. Behind a minus it is zero.
abbrev pub Signed : Bytes → ℕ → Type 0
Signed s n =
    ((m : ℕ) × Numeral s m × (n ≡ min m llong_max))
    ⊎ ((t : Bytes) × (m : ℕ) × (s ≡ b'+' ∷ t) × Numeral t m × (n ≡ min m llong_max))
    ⊎ ((t : Bytes) × (s ≡ b'-' ∷ t) × Numeral t 0 × (n ≡ 0))

-- Spaces may come before it, and any text behind it.
abbrev pub Reads : Bytes → ℕ → Type 0
Reads value n =
    (spaces : Bytes) × (s : Bytes) × (value ≡ spaces ++ s) × AllSpaces spaces × Signed s n

read_digits-parts :
    (s : Bytes) (n : ℕ)
    → (digits : Bytes) × (tail : Bytes) × (s ≡ digits ++ tail)
      × AllDigits digits
      × NoDigit tail
      × (read_digits s n ≡ number n digits)
unfolding read_digits
read_digits-parts [] n = ([], [], refl, tt, tt, refl)
read_digits-parts (c ∷ s) n = elim (Bool-cases (is_digit c)) [
  | inl e ↦
      let (ds, t, p, a, z, v) = read_digits-parts s (n * 10 + (c - b'0')) in
      (c ∷ ds, t, ap (λ q. c ∷ q) p, (e, a), z, rw e v)
  | inr e ↦ ([], c ∷ s, refl, tt, e, rw e refl)
]

read_digits-append :
    (ds t : Bytes) (n : ℕ) → AllDigits ds → NoDigit t → read_digits (ds ++ t) n ≡ number n ds
unfolding read_digits
read_digits-append [] [] n a z = refl
read_digits-append [] (c ∷ t) n a z = rw z refl
read_digits-append (c ∷ ds) t n a z = rw (a.0) (read_digits-append ds t (n * 10 + (c - b'0')) a.1 z)

starts-Numeral : (s : Bytes) → starts_with_digit s ≡ true → Numeral s (read_digits s 0)
unfolding starts_with_digit
starts-Numeral [] h = cc
starts-Numeral (c ∷ s) h =
    let (ds, t, p, a, z, v) = read_digits-parts (c ∷ s) 0 in
    (
      ds,
      t,
      record {
        parts = p;
        all_digits = a;
        some_digits = λ e. absurd (begins t (sym (ap (λ d. d ++ t) e) ∙ sym p) z);
        ended = z;
        value = v;
      },
    )
  where
    begins : (t : Bytes) → t ≡ c ∷ s → NoDigit t → ⊥
    begins t e z = let q : is_digit c ≡ false = subst NoDigit e z in cc

Numeral-starts :
    (s : Bytes) (n : ℕ) → Numeral s n → (starts_with_digit s ≡ true) × (read_digits s 0 ≡ n)
unfolding starts_with_digit
Numeral-starts s n ([], t, v) = absurd (v.some_digits refl)
Numeral-starts s n (c ∷ ds, t, v) =
    let p = v.parts in
    (
      rw p (v.all_digits.0),
      ap (λ s. read_digits s 0) p
          ∙ read_digits-append (c ∷ ds) t 0 v.all_digits v.ended
          ∙ sym v.value,
    )

negated_zero : (m n : ℕ) → negated m ≡ pos n → (m ≡ 0) × (n ≡ 0)
unfolding negated
negated_zero zero n e = ground (arith, e)
negated_zero (suc m) n e = cc

signed_of : (s : Bytes) (n : ℕ) → signed s ≡ some (pos n) → Signed s n
unfolding signed
signed_of [] n h = cc
signed_of (c ∷ s) n h = elim (Bool-cases (c == b'-')) [
  | inl e ↦ elim (Bool-cases (starts_with_digit s)) [
    | inl d ↦
        let q : negated (read_digits s 0) ≡ pos n = ground (arith, h, e, d) in
        let z = negated_zero (read_digits s 0) n q in
        inr (inr (s, first c b'-' e, subst (Numeral s) z.0 (starts-Numeral s d), z.1))
    | inr d ↦ absurd (ground (arith, h, e, d))
  ]
  | inr e ↦ elim (Bool-cases (c == b'+')) [
    | inl f ↦ elim (Bool-cases (starts_with_digit s)) [
      | inl d ↦
          inr (
            inl
              (s, read_digits s 0, first c b'+' f, starts-Numeral s d, ground (arith, h, e, f, d)))
      | inr d ↦ absurd (ground (arith, h, e, f, d))
    ]
    | inr f ↦ elim (Bool-cases (is_digit c)) [
      | inl d ↦
          inl (read_digits (c ∷ s) 0, starts-Numeral (c ∷ s) (digit d), ground (arith, h, e, f, d))
      | inr d ↦ absurd (ground (arith, h, e, f, d))
    ]
  ]
]
  where
    first : (c k : ℕ) → (c == k) ≡ true → c ∷ s ≡ k ∷ s
    first c k e = let q : c ≡ k = ground (arith, e) in ap (λ x. x ∷ s) q

    digit : is_digit c ≡ true → starts_with_digit (c ∷ s) ≡ true
    digit d = unfold starts_with_digit in d

signed_digits :
    (s : Bytes)
    → starts_with_digit s ≡ true
    → signed s ≡ some (pos (min (read_digits s 0) llong_max))
unfolding signed starts_with_digit is_digit
signed_digits [] h = cc
signed_digits (c ∷ s) h = ground (arith, h)

signed_read : (s : Bytes) (n : ℕ) → Signed s n → signed s ≡ some (pos n)
unfolding signed negated
signed_read s n (inl (m, u, e)) =
    let (d, r) = Numeral-starts s m u in
    signed_digits s d ∙ ap (λ k. some (pos (min k llong_max))) r ∙ ap (λ k. some (pos k)) (sym e)
signed_read s n (inr (inl (t, m, p, u, e))) =
    let (d, r) = Numeral-starts t m u in rw (p, d, r, e) refl
signed_read s n (inr (inr (t, p, u, e))) = let (d, r) = Numeral-starts t 0 u in rw (p, d, r, e) refl

skip_spaces-parts :
    (s : Bytes) → (spaces : Bytes) × (s ≡ spaces ++ skip_spaces s) × AllSpaces spaces
unfolding skip_spaces
skip_spaces-parts [] = ([], refl, tt)
skip_spaces-parts (c ∷ s) = elim (Bool-cases (is_space c)) [
  | inl e ↦ let (sp, p, a) = skip_spaces-parts s in (c ∷ sp, rw e (ap (λ q. c ∷ q) p), (e, a))
  | inr e ↦ ([], rw e refl, tt)
]

-- No space comes first.
NoSpace : Bytes → Type 0
NoSpace [] = Unit {0}
NoSpace (c ∷ s) = is_space c ≡ false

skip_spaces-append :
    (spaces s : Bytes) → AllSpaces spaces → NoSpace s → skip_spaces (spaces ++ s) ≡ s
unfolding skip_spaces NoSpace
skip_spaces-append [] [] a n = refl
skip_spaces-append [] (c ∷ s) a n = rw n refl
skip_spaces-append (c ∷ sp) s a n = rw (a.0) (skip_spaces-append sp s a.1 n)

signed-NoSpace : (s : Bytes) (n : ℕ) → signed s ≡ some (pos n) → NoSpace s
unfolding signed NoSpace is_space is_digit
signed-NoSpace [] n h = tt
signed-NoSpace (c ∷ s) n h = ground (arith, h)

-- `strtoll` reads a text as a number that is not below zero exactly if it is spaces, a number that
-- may have a sign, and any other text.
pub strtoll_iff : (value : Bytes) (n : ℕ) → (strtoll value ≡ some (pos n)) ↔ Reads value n
unfolding strtoll
strtoll_iff value n = (
  λ h.
      let (sp, p, a) = skip_spaces-parts value in
      (sp, skip_spaces value, p, a, signed_of (skip_spaces value) n h),
  λ (sp, s, p, a, g).
      let r = signed_read s n g in
      ap (λ v. signed (skip_spaces v)) p
      ∙ ap signed (skip_spaces-append sp s a (signed-NoSpace s n r))
      ∙ r,
)
