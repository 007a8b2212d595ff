-- ===== src/Buffer/Reading.antt =====
-- `readFd`: the bytes that `readv` delivers, in the vector's end and in the stack buffer.
use cxx_epoll_http_server.Common.{
  ℕ, ◌+◌, ◌≤◌, ◌<◌, ◌≡◌, sym, ap, ◌∙◌, [], ◌++◌, Bytes, length, take, drop, min, arith, Bool-cases,
  append-nil, length-take, length-drop, take_all, inl, inr, leb, leb→le, append_assoc,
  take-append-drop, add_size, min,
}
use cxx_epoll_http_server.Buffer.{
  Buffer, writable_bytes, copy_in, append, read_capacity, read_fd, ReadResult, failed, received,
  extra_size,
}
use cxx_epoll_http_server.Buffer.Invariant.{IsValid, Fits, append-IsValid, length-copy_in}
use cxx_epoll_http_server.Buffer.Contents.{contents, contents-extended, contents-append}

-- What a read result adds to the unread bytes.
abbrev pub delivered : ReadResult → Bytes
delivered (failed e) = []
delivered (received s) = s

module _ (b : Buffer) (s : Bytes) (v : IsValid b) where
  -- The vector with the part of `s` in it that its end has room for.
  stored : ℕ → Buffer
  stored w = record b { buf = copy_in b.write_idx (take (writable_bytes b) s) b.buf; write_idx = w }

  stored-IsValid : (w : ℕ) → b.read_idx ≤ w → w ≤ length b.buf → IsValid (stored w)
  unfolding stored
  stored-IsValid w l h =
      omega (arith, v, length-copy_in b.write_idx (take (writable_bytes b) s) b.buf)

  contents-stored :
      (w : ℕ)
      → w ≡ b.write_idx + min (writable_bytes b) (length s)
      → contents (stored w) ≡ contents b ++ take (writable_bytes b) s
  unfolding stored
  contents-stored w e =
      contents-extended b (take (writable_bytes b) s) w v
        (omega (arith, length-take (writable_bytes b) s)) (omega (arith, v))

  fits_in_vector :
      length s ≤ writable_bytes b
      → let b' = stored (add_size b.write_idx (length s)) in
        IsValid b' × (contents b' ≡ contents b ++ s)
  fits_in_vector h = (
    stored-IsValid _ (omega (arith, v)) (omega (arith, v)),
    contents-stored _ (omega (arith, v)) ∙ ap (◌++◌ (contents b)) (take_all _ s h),
  )

  rest-Fits : Fits b (length s) → Fits (stored (length b.buf)) (length (drop (writable_bytes b) s))
  unfolding stored
  rest-Fits f = omega (
    arith,
    length-copy_in b.write_idx (take (writable_bytes b) s) b.buf,
    length-drop (writable_bytes b) s,
  )

  spills_over :
      Fits b (length s)
      → writable_bytes b < length s
      → let b' = append (stored (length b.buf)) (drop (writable_bytes b) s) in
        IsValid b' × (contents b' ≡ contents b ++ s)
  spills_over f h =
      let full = stored-IsValid (length b.buf) (omega (arith, v)) (omega arith) in
      let rest = drop (writable_bytes b) s in
      let fits = rest-Fits f in
      (
        append-IsValid _ rest full fits,
        contents-append _ rest full fits
            ∙ ap (λ c. c ++ rest) (contents-stored (length b.buf) (omega (arith, v)))
            ∙ append_assoc (contents b) _ rest
            ∙ ap (◌++◌ (contents b)) (take-append-drop (writable_bytes b) s),
      )

-- Whatever `readv` delivers is added behind the unread bytes of a valid buffer, in order, also
-- where it spills over into the stack buffer and the vector has to grow; a failed read adds
-- nothing; the buffer stays valid. The vector is to stay within the address space.
pub contents-read_fd :
    (b : Buffer) (r : ReadResult)
    → IsValid b
    → Fits b (length (delivered r))
    → IsValid (read_fd b r) × (contents (read_fd b r) ≡ contents b ++ delivered r)
unfolding read_fd stored
contents-read_fd b (failed e) v f = (v, sym (append-nil (contents b)))
contents-read_fd b (received s) v f = elim (Bool-cases (leb (length s) (writable_bytes b))) [
  | inl e ↦ rw e (fits_in_vector b s v (leb→le _ _ e))
  | inr e ↦ rw e (spills_over b s v f (ground arith))
]

-- The part that spills over lies within the stack buffer, whatever `readv` delivers.
pub spill-le-extra_size :
    (b : Buffer) (s : Bytes)
    → IsValid b
    → length s ≤ read_capacity b
    → length (drop (writable_bytes b) s) ≤ extra_size
unfolding read_capacity
spill-le-extra_size b s v h = ground (arith, length-drop (writable_bytes b) s)
