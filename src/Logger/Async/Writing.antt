-- ===== src/Logger/Async/Writing.antt =====
-- `writeAll`: what the loop over `write` takes, and what it leaves alone.
use cxx_epoll_http_server.Common.{
  ℕ, zero, suc, ◌-◌, ◌≡◌, refl, sym, ap, subst, ◌∙◌, Bool, true, false, ◌||◌, List, [], ◌∷◌, ◌++◌,
  append_assoc, append-nil, Bytes, length, take, drop, take-append-drop, length-drop, leb, ◌==◌,
  add_size, arith, if_cases,
}
use cxx_epoll_http_server.Kernel.{eintr, WriteResult, took, refused}
use cxx_epoll_http_server.Logger.Async.{
  AsyncLogger, Sink, no_sink, stdout, file, Disk, write_loop, is_closed, is_empty, emit, roll,
  roll_if_needed, write_all, to_stdout,
}

-- The answers take `n` bytes, with no error but interruptions.
abbrev pub Takes : List WriteResult → ℕ → Type 0
Takes [] n = n ≡ 0
Takes (took zero ∷ rs) n = n ≡ 0
Takes (took (suc k) ∷ rs) n = Takes rs (n - suc k)
Takes (refused e ∷ rs) n = (e ≡ eintr) × Takes rs n

-- What is taken is the front of the buffer, whatever `write` answers.
pub write_loop_prefix :
    (rs : List WriteResult) (d : Bytes) → (rest : Bytes) × (d ≡ write_loop rs d ++ rest)
unfolding write_loop
write_loop_prefix [] [] = ([], refl)
write_loop_prefix (r ∷ rs) [] = ([], refl)
write_loop_prefix [] (c ∷ d) = (c ∷ d, refl)
write_loop_prefix (took zero ∷ rs) (c ∷ d) = (c ∷ d, refl)
write_loop_prefix (took (suc n) ∷ rs) (c ∷ d) =
    let (rest, e) = write_loop_prefix rs (drop n d) in
    (
      rest,
      ap (λ s. c ∷ s)
          (sym (take-append-drop n d)
            ∙ ap (λ s. take n d ++ s) e
            ∙ sym (append_assoc (take n d) _ _)),
    )
write_loop_prefix (refused e ∷ rs) (c ∷ d) =
    let (rest, q) = write_loop_prefix rs (c ∷ d) in
    if_cases (λ s. (rest : Bytes) × (c ∷ d ≡ s ++ rest)) (e == eintr) (λ _. (rest, q))
      (λ _. (c ∷ d, refl))

pub write_loop_all : (rs : List WriteResult) (d : Bytes) → Takes rs (length d) → write_loop rs d ≡ d
unfolding write_loop
write_loop_all [] [] t = refl
write_loop_all (r ∷ rs) [] t = refl
write_loop_all [] (c ∷ d) t = absurd (omega arith)
write_loop_all (took zero ∷ rs) (c ∷ d) t = absurd (omega arith)
write_loop_all (took (suc n) ∷ rs) (c ∷ d) t =
    ap (λ s. c ∷ s)
      (ap (λ s. take n d ++ s) (write_loop_all rs (drop n d) (subst (Takes rs) left t))
        ∙ take-append-drop n d)
  where
    left : suc (length d) - suc n ≡ length (drop n d)
    left = omega (arith, length-drop n d)
write_loop_all (refused e ∷ rs) (c ∷ d) t =
    let q : (e == eintr) ≡ true = ground (arith, t.0) in rw q (write_loop_all rs (c ∷ d) t.1)

-- What the writing side of the logger leaves alone.
abbrev pub Kept : AsyncLogger → AsyncLogger → Type 0
Kept l l' =
    (l'.current ≡ l.current)
    × (l'.to_write ≡ l.to_write)
    × (l'.accepted ≡ l.accepted)
    × (l'.running ≡ l.running)
    × (l'.stop_requested ≡ l.stop_requested)
    × (is_closed l'.sink ≡ is_closed l.sink)

emit-Kept : (d : Bytes) (l : AsyncLogger) → Kept l (emit d l) × ((emit d l).written ≡ l.written)
unfolding emit
emit-Kept d l = split l.sink refl
  where
    split : (s : Sink) → l.sink ≡ s → Kept l (emit d l) × ((emit d l).written ≡ l.written)
    split no_sink e = ground (arith, e)
    split stdout e = ground (arith, e)
    split file e = ground (arith, e)

roll-Kept :
    (renames opens : Bool) (stamp : Bytes) (l : AsyncLogger)
    → is_closed l.sink ≡ false
    → Kept l (roll renames opens stamp l) × ((roll renames opens stamp l).written ≡ l.written)
unfolding roll is_closed
roll-Kept renames true stamp l o = ((refl, refl, refl, refl, refl, sym o), refl)
roll-Kept renames false stamp l o = ((refl, refl, refl, refl, refl, sym o), refl)

roll_if_needed-Kept :
    (renames opens : Bool) (stamp : Bytes) (n : ℕ) (l : AsyncLogger)
    → is_closed l.sink ≡ false
    → Kept l (roll_if_needed renames opens stamp n l)
      × ((roll_if_needed renames opens stamp n l).written ≡ l.written)
unfolding roll_if_needed
roll_if_needed-Kept renames opens stamp n l o =
    if_cases (λ (x : AsyncLogger). Kept l x × (x.written ≡ l.written))
      ((to_stdout l.path || is_closed l.sink) || leb (add_size l.written_this_file n) l.roll_bytes)
      (λ _. ((refl, refl, refl, refl, refl, refl), refl)) (λ _. roll-Kept renames opens stamp l o)

write_loop-empty : (rs : List WriteResult) (d : Bytes) → is_empty d ≡ true → write_loop rs d ≡ []
unfolding write_loop is_empty
write_loop-empty [] [] e = refl
write_loop-empty (r ∷ rs) [] e = refl
write_loop-empty rs (c ∷ d) e = absurd (ground (arith, e))

skipped :
    (k : Disk) (d : Bytes) (l : AsyncLogger)
    → is_closed l.sink ≡ false
    → (is_closed l.sink || is_empty d) ≡ true
    → l.written ≡ l.written ++ write_loop k.writes d
skipped k d l o e = sym (
    ap (λ s. l.written ++ s) (write_loop-empty k.writes d (ground (arith, o, e)))
    ∙ append-nil l.written)

-- The bytes that `write` took are behind those that were written before; the buffers, the flags
-- and whether the log is open are as they were.
pub write_all_lem :
    (k : Disk) (d : Bytes) (l : AsyncLogger)
    → is_closed l.sink ≡ false
    → Kept l (write_all k d l) × ((write_all k d l).written ≡ l.written ++ write_loop k.writes d)
unfolding write_all
write_all_lem k d l o =
    let r = roll_if_needed-Kept k.renames k.opens k.stamp (length d) l o in
    let e =
      emit-Kept (write_loop k.writes d) (roll_if_needed k.renames k.opens k.stamp (length d) l) in
    if_cases (λ (x : AsyncLogger). Kept l x × (x.written ≡ l.written ++ write_loop k.writes d))
      (is_closed l.sink || is_empty d)
      (λ q. ((refl, refl, refl, refl, refl, refl), skipped k d l o q))
      (λ _. (
        (e.0.0 ∙ r.0.0, e.0.1 ∙ r.0.1, e.0.2 ∙ r.0.2, e.0.3 ∙ r.0.3, e.0.4 ∙ r.0.4, e.0.5 ∙ r.0.5),
        ap (λ s. s ++ write_loop k.writes d) (e.1 ∙ r.1),
      ))
