-- ===== src/Decimal/RoundTrip.antt =====
-- What `std::to_string` prints, `strtoll` reads back.
use cxx_epoll_http_server.Common.{
  ℕ, zero, suc, ◌+◌, ◌/◌, ◌%◌, ◌^◌, ◌≤◌, ◌<◌, length, min, ◌≡◌, refl, ap, ◌∙◌, true, some, [], ◌∷◌,
  Bytes, is_digit, is_space, arith, Lacks,
}
use cxx_epoll_http_server.Decimal.{
  pos, decimal_from, to_string, skip_spaces, read_digits, starts_with_digit, strtoll, llong_max,
}

read_digits_last :
    (n : ℕ) (out : Bytes) → read_digits ((b'0' + n % 10) ∷ out) (n / 10) ≡ read_digits out n
unfolding read_digits is_digit
read_digits_last n out = ground arith

read_digits_only :
    (n : ℕ) (out : Bytes) → n < 10 → read_digits ((b'0' + n) ∷ out) 0 ≡ read_digits out n
unfolding read_digits is_digit
read_digits_only n out h = ground arith

read_digits-decimal_from :
    (f n : ℕ) (out : Bytes) → n < f → read_digits (decimal_from f n out) 0 ≡ read_digits out n
unfolding decimal_from
read_digits-decimal_from zero n out h = absurd (omega arith)
read_digits-decimal_from (suc f) n out h = ground (
  arith,
  read_digits-decimal_from f (n / 10) ((b'0' + n % 10) ∷ out),
  read_digits_last n out,
  read_digits_only n out,
)

starts_with_digit-decimal_from :
    (f n : ℕ) (out : Bytes) → n < f → starts_with_digit (decimal_from f n out) ≡ true
unfolding decimal_from starts_with_digit is_digit
starts_with_digit-decimal_from zero n out h = absurd (omega arith)
starts_with_digit-decimal_from (suc f) n out h =
    ground (arith, starts_with_digit-decimal_from f (n / 10) ((b'0' + n % 10) ∷ out))

strtoll_digits :
    (s : Bytes)
    → starts_with_digit s ≡ true
    → strtoll s ≡ some (pos (min (read_digits s 0) llong_max))
unfolding strtoll skip_spaces starts_with_digit is_digit is_space
strtoll_digits [] h = ground arith
strtoll_digits (c ∷ s) h = ground arith

-- `strtoll` reads back what `std::to_string` printed, and saturates above `LLONG_MAX`.
pub strtoll-to_string : (n : ℕ) → strtoll (to_string n) ≡ some (pos (min n llong_max))
unfolding to_string
strtoll-to_string n =
    strtoll_digits _ (starts_with_digit-decimal_from (suc n) n [] (omega arith))
    ∙ ap (λ k. some (pos (min k llong_max)))
        (read_digits-decimal_from (suc n) n [] (omega arith) ∙ unfold read_digits in refl)

length-decimal_from :
    (k f n : ℕ) (out : Bytes) → n < 10 ^ k → 0 < k → length (decimal_from f n out) ≤ k + length out
unfolding decimal_from
length-decimal_from k zero n out h p = omega arith
length-decimal_from zero (suc f) n out h p = absurd (omega arith)
length-decimal_from (suc zero) (suc f) n out h p = ground arith
length-decimal_from (suc (suc k)) (suc f) n out h p =
    ground (arith, length-decimal_from (suc k) f (n / 10) ((b'0' + n % 10) ∷ out))

-- A number below 10^k has k digits at most.
pub length-to_string : (k n : ℕ) → n < 10 ^ k → 0 < k → length (to_string n) ≤ k
unfolding to_string
length-to_string k n h p = omega (arith, length-decimal_from k (suc n) n [] h p)

decimal_from-Lacks :
    (c f n : ℕ) (out : Bytes) → c < b'0' → Lacks c out → Lacks c (decimal_from f n out)
unfolding decimal_from
decimal_from-Lacks c zero n out h l = l
decimal_from-Lacks c (suc f) n out h l =
    ground (arith, decimal_from-Lacks c f (n / 10) ((b'0' + n % 10) ∷ out))

-- No byte below the digits is in a printed number.
pub to_string-Lacks : (c n : ℕ) → c < b'0' → Lacks c (to_string n)
unfolding to_string
to_string-Lacks c n h = decimal_from-Lacks c (suc n) n [] h tt
