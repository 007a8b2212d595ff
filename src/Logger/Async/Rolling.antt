-- ===== src/Logger/Async/Rolling.antt =====
-- `rollIfNeeded`: where the bytes go, and how large the file grows.
use cxx_epoll_http_server.Common.{
  ℕ, ◌+◌, ◌≤◌, ◌<◌, ◌^◌, ◌≡◌, ◌≢◌, max, refl, sym, ap, ap₂, subst, ◌∙◌, Bool, true, false, not,
  ◌&&◌, ◌||◌, Option, none, some, [], ◌∷◌, ◌++◌, Bytes, length, length-append, leb, add_size, arith,
  if_cases, if◌then◌else◌,
}
use cxx_epoll_http_server.Logger.Async.{
  AsyncLogger, bytes_of, Files, Sink, no_sink, stdout, file, is_closed, is_empty, to_stdout, put,
  content, rename, Disk, write_loop, emit, roll, roll_if_needed, write_all,
}
use cxx_epoll_http_server.Logger.Async.Naming.{
  put_same, put_other, content-put, longer, shorter, rename-new, rename-old,
}
use cxx_epoll_http_server.Logger.Async.Writing.{write_loop_prefix}

-- Whether the file is full for a buffer of `n` bytes.
abbrev pub rolls : ℕ → AsyncLogger → Bool
rolls n l = not (leb (add_size l.written_this_file n) l.roll_bytes)

-- What the log file of contents `c` is, where `out` is written: `r` tells whether it is full.
abbrev pub file_behind : Disk → Bytes → Bytes → Bool → Option Bytes
file_behind k c out false = some (c ++ out)
file_behind k c out true = if k.opens then some out else if k.renames then none else some c

-- What standard output has got then.
abbrev pub printed_behind : Disk → Bytes → AsyncLogger → Bool → Bytes
printed_behind k out l r =
    if r && not k.opens then (if l.stdout_open then l.printed ++ out else l.printed) else l.printed

-- The files, the output and the count behind a write of `out` to the file of contents `c`.
abbrev Written : Disk → AsyncLogger → Bytes → Bytes → Bool → AsyncLogger → Type 0
Written k l c out r x =
    (x.files l.path ≡ file_behind k c out r)
    × (x.files (l.path ++ k.stamp)
        ≡ (if r && k.renames then some c else l.files (l.path ++ k.stamp)))
    × (x.printed ≡ printed_behind k out l r)
    × (x.written_this_file ≡ (if r then 0 else l.written_this_file))

module _ (k : Disk) (l : AsyncLogger) (c out : Bytes) (o : l.sink ≡ file)
    (e : l.files l.path ≡ some c) (s : k.stamp ≢ []) where
  -- What is behind the descriptor gets the bytes.
  sent : AsyncLogger → Sink → AsyncLogger
  sent l k = elim k as (λ _. AsyncLogger) [
    | no_sink ↦ l
    | stdout ↦ record l { printed = (if l.stdout_open then l.printed ++ out else l.printed) }
    | file ↦ record l { files = put l.files l.path (content l.files l.path ++ out) }
  ]

  emit_to_file : Written k l c out false (emit out l)
  unfolding emit content sent
  emit_to_file = subst (Written k l c out false) (ap (sent l) (sym o)) (
    put_same l.files l.path _ ∙ ap (λ q. some (bytes_of q ++ out)) e,
    put_other l.files l.path _ _ (longer l.path k.stamp s),
    refl,
    refl,
  )

  emit-roll : Written k l c out true (emit out (roll k.renames k.opens k.stamp l))
  unfolding emit roll
  emit-roll = split k.opens
    where
      renamed : Files
      renamed = rename k.renames l.files l.path (l.path ++ k.stamp)

      -- The same for an answer of `open`.
      Here : Bool → Type 0
      Here b = Written (record k { opens = b }) l c out true (emit out (roll k.renames b k.stamp l))

      still : Sink → Bool
      still q = elim q as (λ _. Bool) [
        | no_sink ↦ l.stdout_open
        | stdout ↦ false
        | file ↦ l.stdout_open
      ]

      split : (b : Bool) → Here b
      split true = (
        put_same (put renamed l.path []) l.path _
            ∙ ap (λ q. some (q ++ out)) (content-put renamed l.path []),
        put_other (put renamed l.path []) l.path (l.path ++ k.stamp) _ (longer l.path k.stamp s)
            ∙ put_other renamed l.path (l.path ++ k.stamp) [] (longer l.path k.stamp s)
            ∙ rename-new l.files l.path (l.path ++ k.stamp) c e k.renames,
        refl,
        refl,
      )
      split false = (
        rename-old l.files l.path (l.path ++ k.stamp) c e (shorter l.path k.stamp s) k.renames,
        rename-new l.files l.path (l.path ++ k.stamp) c e k.renames,
        ap (λ q. if still q then l.printed ++ out else l.printed) o,
        refl,
      )

  roll_if_needed-Written :
      (n : ℕ)
      → to_stdout l.path ≡ false
      → Written k l c out (rolls n l) (emit out (roll_if_needed k.renames k.opens k.stamp n l))
  unfolding roll_if_needed is_closed
  roll_if_needed-Written n p =
      subst
        (λ b.
          Written k l c out (rolls n l)
            (emit out (if b then l else roll k.renames k.opens k.stamp l)))
        same (split (leb (add_size l.written_this_file n) l.roll_bytes))
    where
      same : leb (add_size l.written_this_file n) l.roll_bytes ≡ (
          (to_stdout l.path || is_closed l.sink)
          || leb (add_size l.written_this_file n) l.roll_bytes)
      same =
          ap₂ (λ a b. (a || is_closed b) || leb (add_size l.written_this_file n) l.roll_bytes)
            (sym p) (sym o)

      split :
          (b : Bool)
          → Written k l c out (not b) (emit out (if b then l else roll k.renames k.opens k.stamp l))
      split true = emit_to_file
      split false = emit-roll

-- A buffer that is written to an open log file, where the name with the time stamp is another one.
-- Where the count of the file and the buffer do not pass the limit, the bytes that `write` took
-- are behind the old contents, and the other name is as it was. Where they do, the old contents
-- are found under the other name if `rename` succeeds; if a new file can be opened it has the
-- bytes that `write` took alone, so where `rename` failed the old contents are lost; and if not,
-- these bytes go to standard output, and the file has the old contents, or has gone to the other
-- name. The count of the file starts at 0 again where it was full and grows by the bytes that were
-- taken.
pub write_all-files :
    (k : Disk) (c d : Bytes) (l : AsyncLogger)
    → l.sink ≡ file
    → to_stdout l.path ≡ false
    → l.files l.path ≡ some c
    → d ≢ []
    → k.stamp ≢ []
    → let x = write_all k d l in
      let out = write_loop k.writes d in
      let r = rolls (length d) l in
      (x.files l.path ≡ file_behind k c out r)
      × (x.files (l.path ++ k.stamp)
          ≡ (if r && k.renames then some c else l.files (l.path ++ k.stamp)))
      × (x.printed ≡ printed_behind k out l r)
      × (x.written_this_file ≡ add_size (if r then 0 else l.written_this_file) (length out))
unfolding write_all is_closed is_empty
write_all-files k c [] l o p e n s = absurd (n refl)
write_all-files k c (b ∷ d) l o p e n s =
    let out = write_loop k.writes (b ∷ d) in
    let w = roll_if_needed-Written k l c out o e s (length (b ∷ d)) p in
    if_cases Stored (is_closed l.sink || false) (λ q. absurd (ground (arith, q, opened)))
      (λ _. (w.0, w.1, w.2, ap (λ q. add_size q (length out)) w.3))
  where
    Stored : AsyncLogger → Type 0
    Stored x =
        let out = write_loop k.writes (b ∷ d) in
        let r = rolls (length (b ∷ d)) l in
        (x.files l.path ≡ file_behind k c out r)
        × (x.files (l.path ++ k.stamp)
            ≡ (if r && k.renames then some c else l.files (l.path ++ k.stamp)))
        × (x.printed ≡ printed_behind k out l r)
        × (x.written_this_file ≡ add_size (if r then 0 else l.written_this_file) (length out))

    opened : (is_closed l.sink || false) ≡ false
    opened = ap (λ q. is_closed q || false) o

length-write_loop : (k : Disk) (d : Bytes) → length (write_loop k.writes d) ≤ length d
length-write_loop k d =
    let (rest, e) = write_loop_prefix k.writes d in
    omega (arith, ap length e, length-append (write_loop k.writes d) rest)

-- The count of the file behind a write, and the length of the file, where `base` bytes are not
-- counted.
counted :
    (base w n r : ℕ) (c out : Bytes)
    → length c ≤ base + w
    → length out ≤ n
    → w + n < 2 ^ 64
    → let full = not (leb (add_size w n) r) in
      (length ((if full then [] else c) ++ out)
        ≤ base + add_size (if full then 0 else w) (length out))
      × (add_size (if full then 0 else w) (length out) ≤ max r n)
counted base w n r c out h l b = split (not (leb (add_size w n) r)) refl
  where
    split :
        (full : Bool)
        → not (leb (add_size w n) r) ≡ full
        → (length ((if full then [] else c) ++ out)
            ≤ base + add_size (if full then 0 else w) (length out))
          × (add_size (if full then 0 else w) (length out) ≤ max r n)
    split true e = (omega arith, omega arith)
    split false e = (omega (arith, length-append c out), ground arith)

-- The file behind a buffer, where one that is full can be opened again.
reopened :
    (k : Disk) (c out : Bytes) (r : Bool)
    → k.opens ≡ true
    → file_behind k c out r ≡ some ((if r then [] else c) ++ out)
reopened k c out false a = refl
reopened k c out true a = ap (λ b. if b then some out else if k.renames then none else some c) a

-- Where the log file is longer than its count by `base` bytes at most, a full one can be opened
-- again, and the count and the buffer's length add up to less than 2^64: behind the write of a
-- buffer the file still is no longer than that, and the count is at most the limit for rolling, or
-- the length of the buffer if that is larger; so a file that began empty has no more bytes than
-- these.
pub write_all-bound :
    (k : Disk) (base : ℕ) (c d : Bytes) (l : AsyncLogger)
    → l.sink ≡ file
    → to_stdout l.path ≡ false
    → l.files l.path ≡ some c
    → d ≢ []
    → k.opens ≡ true
    → k.stamp ≢ []
    → length c ≤ base + l.written_this_file
    → l.written_this_file + length d < 2 ^ 64
    → let x = write_all k d l in
      (c' : Bytes) × (x.files l.path ≡ some c')
      × (length c' ≤ base + x.written_this_file)
      × (x.written_this_file ≤ max l.roll_bytes (length d))
write_all-bound k base c d l o p e n a s h b =
    let w = write_all-files k c d l o p e n s in
    let q =
      counted base l.written_this_file (length d) l.roll_bytes c (write_loop k.writes d) h
        (length-write_loop k d) b in
    (
      _,
      w.0 ∙ reopened k c (write_loop k.writes d) (rolls (length d) l) a,
      omega (arith, q.0, w.3),
      omega (arith, q.1, w.3),
    )
