-- ===== src/Logger/Line.antt =====
-- The line that is logged: the text of head, place and message, cut off where the buffer ends.
use cxx_epoll_http_server.Common.{
  ℕ, zero, suc, ◌+◌, ◌-◌, ◌≤◌, ◌<◌, ◌≡◌, refl, ap, ◌∙◌, some, [], ◌∷◌, ◌++◌, Bytes, length, take,
  take_all, length-take, length-append, append_assoc, ltb, if◌then◌else◌, arith,
}
use cxx_epoll_http_server.Logger.{
  LogLevel, Stamp, stack_buf, head_text, place_text, print_behind, log_line,
}

take_behind : (n : ℕ) (s t : Bytes) → length s ≤ n → s ++ take (n - length s) t ≡ take n (s ++ t)
take_behind n [] t h = ap (λ k. take k t) (omega arith)
take_behind zero (x ∷ s) t h = absurd (omega arith)
take_behind (suc n) (x ∷ s) t h =
    ap (λ r. x ∷ r) (ap (λ k. s ++ take k t) (omega arith) ∙ take_behind n s t (omega arith))

print_behind-take :
    (size : ℕ) (s t : Bytes) → length s < size → print_behind size s t ≡ take (size - 1) (s ++ t)
unfolding print_behind
print_behind-take size s t h =
    ap (λ k. s ++ take k t) (omega arith) ∙ take_behind (size - 1) s t (omega arith)

-- Cutting off before more is written makes no difference behind the cut.
take-append-take : (n : ℕ) (s t : Bytes) → take n (take n s ++ t) ≡ take n (s ++ t)
take-append-take zero s t = refl
take-append-take (suc n) [] t = refl
take-append-take (suc n) (x ∷ s) t = ap (λ r. x ∷ r) (take-append-take n s t)

-- All that a line is to hold.
abbrev pub line_text : Stamp → LogLevel → Bytes → ℕ → Bytes → Bytes
line_text t lv file line message = take 79 (head_text t lv) ++ (place_text file line ++ message)

-- A text in the buffer, with its line end if there is room.
abbrev pub fitted : Bytes → Bytes
fitted s = if ltb (length s) (stack_buf - 1) then s ++ b'\n' ∷ [] else take (stack_buf - 1) s

printed :
    (t : Stamp) (lv : LogLevel) (file : Bytes) (line : ℕ) (message : Bytes)
    → print_behind stack_buf
        (print_behind stack_buf (print_behind 80 [] (head_text t lv)) (place_text file line))
        message
      ≡ take (stack_buf - 1) (line_text t lv file line message)
printed t lv file line message =
    let h = print_behind-take 80 [] (head_text t lv) (omega arith) in
    let head = take 79 (head_text t lv) in
    let p : print_behind stack_buf head (place_text file line)
        ≡ take (stack_buf - 1) (head ++ place_text file line) =
      print_behind-take stack_buf head (place_text file line)
        (omega (arith, length-take 79 (head_text t lv))) in
    rw (h, p)
      (print_behind-take stack_buf (take (stack_buf - 1) (head ++ place_text file line)) message
          (omega (arith, length-take (stack_buf - 1) (head ++ place_text file line)))
        ∙ take-append-take (stack_buf - 1) (head ++ place_text file line) message
        ∙ ap (take (stack_buf - 1)) (append_assoc head _ _))

ended : Bytes → Bytes
ended s = if ltb (length s + 1) stack_buf then s ++ b'\n' ∷ [] else s

ended-take :
    (n : ℕ) (s : Bytes)
    → n + 1 ≡ stack_buf
    → ended (take n s) ≡ (if ltb (length s) n then s ++ b'\n' ∷ [] else take n s)
unfolding ended
ended-take n s e = ground (arith, length-take n s, take_all n s)

length-cut :
    (n : ℕ) (s : Bytes) → length (if ltb (length s) n then s ++ b'\n' ∷ [] else take n s) ≤ n
length-cut n s = ground (arith, length-take n s, length-append s (b'\n' ∷ []))

-- The line that `Logger::write` hands on is the time, the level, the file's base name, the line's
-- number and the message, with a line end behind where all of that is shorter than 4095 bytes, and
-- the first 4095 bytes of it, with no line end, where it is not. It has fewer than 4096 bytes in
-- both cases.
pub log_line_lem :
    (t : Stamp) (lv : LogLevel) (file : Bytes) (line : ℕ) (message : Bytes)
    → (log_line t lv file line (some message) ≡ some (fitted (line_text t lv file line message)))
      × (length (fitted (line_text t lv file line message)) < stack_buf)
unfolding log_line ended
log_line_lem t lv file line message =
    let s = line_text t lv file line message in
    (
      ap (λ r. some (ended r)) (printed t lv file line message)
          ∙ ap some (ended-take (stack_buf - 1) s refl),
      omega (arith, length-cut (stack_buf - 1) s),
    )
