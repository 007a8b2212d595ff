-- ===== src/Decimal.antt =====
-- The decimal conversions of the standard library that the program calls: `std::to_string` of a
-- size or a status, and `strtoll` in base ten.
pub mod RoundTrip
pub mod Reading
use cxx_epoll_http_server.Common.{
  ℕ, zero, suc, ◌+◌, ◌-◌, ◌*◌, ◌/◌, ◌%◌, ◌^◌, min, Bool, true, false, Option, none, some, List, [],
  ◌∷◌, Bytes, is_digit, is_space, ltb, ◌==◌, if◌then◌else◌,
}

-- `negsuc n` is -(n + 1).
pub data ℤ : Type 0 where
  pos : ℕ → ℤ
  negsuc : ℕ → ℤ

-- The digits of `n` before `out`; every round takes one digit off.
decimal_from : ℕ → ℕ → Bytes → Bytes
decimal_from zero n out = out
decimal_from (suc f) n out =
    let rest = decimal_from f (n / 10) ((b'0' + n % 10) ∷ out) in
    if ltb n 10 then (b'0' + n) ∷ out else rest

-- `std::to_string`. More rounds than `n` is are never needed.
unfoldable pub to_string : ℕ → Bytes
unfolding decimal_from
to_string n = decimal_from (suc n) n []

unfoldable pub skip_spaces : Bytes → Bytes
skip_spaces [] = []
skip_spaces (c ∷ s) = let rest = skip_spaces s in if is_space c then rest else c ∷ s

-- The value of the digits in front, behind `n`.
read_digits : Bytes → ℕ → ℕ
read_digits [] n = n
read_digits (c ∷ s) n =
    let rest = read_digits s (n * 10 + (c - b'0')) in if is_digit c then rest else n

starts_with_digit : Bytes → Bool
starts_with_digit [] = false
starts_with_digit (c ∷ s) = is_digit c

-- `LLONG_MAX`.
abbrev pub llong_max : ℕ
llong_max = 2 ^ 63 - 1

-- A value below zero, no lower than `LLONG_MIN`.
negated : ℕ → ℤ
negated zero = pos 0
negated (suc n) = negsuc (min n llong_max)

-- `none`: there was no digit, and `endp` is the start.
signed : Bytes → Option ℤ
unfolding negated read_digits starts_with_digit
signed [] = none
signed (c ∷ s) =
    if c == b'-'
    then (if starts_with_digit s then some (negated (read_digits s 0)) else none)
    else if c == b'+'
    then (if starts_with_digit s then some (pos (min (read_digits s 0) llong_max)) else none)
    else if is_digit c
    then some (pos (min (read_digits (c ∷ s) 0) llong_max))
    else none

unfoldable pub strtoll : Bytes → Option ℤ
unfolding signed
strtoll s = signed (skip_spaces s)
