-- ===== src/Buffer/Invariant.antt =====
-- The index invariant of the buffer, and what every operation does to it.
use cxx_epoll_http_server.Common.{
  ℕ, zero, suc, ◌+◌, ◌-◌, ◌^◌, ◌≤◌, ◌<◌, ◌≡◌, refl, ◌∙◌, [], ◌∷◌, Bytes, length, take, set, get_or,
  replicate, arith, length-append, length-set, length-take, length-replicate,
}
use cxx_epoll_http_server.Buffer.{
  ensure_writable_bytes, append, Buffer, make, readable_bytes, writable_bytes, retrieve,
  copy_within, copy_in, resize, make_space, prepend_size,
}

-- `std::vector<char>` holds at most 2^63 - 1 bytes.
pub record IsValid (b : Buffer) : Type 0 where
  pub ordered : b.read_idx ≤ b.write_idx
  pub in_vector : b.write_idx ≤ length b.buf
  pub addressable : length b.buf < 2 ^ 63

-- Room for `n` more bytes in the address space; `resize` throws where it lacks.
abbrev pub Fits : Buffer → ℕ → Type 0
Fits b n = length b.buf + n < 2 ^ 63 - 8

pub length-copy_within :
    (src dst n : ℕ) (buf : Bytes) → length (copy_within src dst n buf) ≡ length buf
unfolding copy_within
length-copy_within src dst zero buf = refl
length-copy_within src dst (suc n) buf =
    length-copy_within (suc src) (suc dst) n _ ∙ length-set buf dst (get_or buf src 0)

pub length-copy_in : (i : ℕ) (s buf : Bytes) → length (copy_in i s buf) ≡ length buf
unfolding copy_in
length-copy_in i [] buf = refl
length-copy_in i (x ∷ s) buf = length-copy_in (suc i) s (set buf i x) ∙ length-set buf i x

pub length-resize : (buf : Bytes) (n : ℕ) → length (resize buf n) ≡ n
unfolding resize
length-resize buf n = omega (
  arith,
  length-append (take n buf) (replicate (n - length buf) 0),
  length-take n buf,
  length-replicate {A = ℕ} (n - length buf) 0,
)

pub make-IsValid : (n : ℕ) → n < 2 ^ 63 → IsValid (make n)
unfolding make
make-IsValid n h = omega (arith, length-replicate {A = ℕ} n 0)

pub retrieve-IsValid : (b : Buffer) (n : ℕ) → IsValid b → IsValid (retrieve b n)
unfolding retrieve
retrieve-IsValid b n v = ground arith

-- The room asked for is there afterwards, whether the vector grows or the bytes move down.
pub record MadeRoom (b b' : Buffer) (n : ℕ) : Type 0 where
  pub valid : IsValid b'
  pub room : b'.write_idx + n ≤ length b'.buf
  pub kept : readable_bytes b' ≡ readable_bytes b
  pub bounded : length b'.buf ≤ length b.buf + n

pub make_space-MadeRoom :
    (b : Buffer) (n : ℕ)
    → IsValid b
    → Fits b n
    → writable_bytes b < n
    → MadeRoom b (make_space b n) n
unfolding make_space
make_space-MadeRoom b n v f h = ground (
  arith,
  length-resize b.buf (b.write_idx + n),
  length-copy_within b.read_idx prepend_size (b.write_idx - b.read_idx) b.buf,
)

pub ensure_writable_bytes-MadeRoom :
    (b : Buffer) (n : ℕ) → IsValid b → Fits b n → MadeRoom b (ensure_writable_bytes b n) n
unfolding ensure_writable_bytes
ensure_writable_bytes-MadeRoom b n v f = ground (arith, make_space-MadeRoom b n v f)

-- Compaction moves the unread bytes strictly down, so `std::copy` from the front is allowed, and
-- the bytes that are to be appended fit behind them.
pub compaction_goes_down :
    (b : Buffer) (n : ℕ)
    → IsValid b
    → Fits b n
    → writable_bytes b < n
    → n + prepend_size ≤ writable_bytes b + b.read_idx
    → (prepend_size < b.read_idx) × (prepend_size + readable_bytes b + n ≤ length b.buf)
compaction_goes_down b n v f h c = ground arith

pub append-IsValid : (b : Buffer) (s : Bytes) → IsValid b → Fits b (length s) → IsValid (append b s)
unfolding append
append-IsValid b s v f =
    let b' = ensure_writable_bytes b (length s) in
    ground
      (arith, ensure_writable_bytes-MadeRoom b (length s) v f, length-copy_in b'.write_idx s b'.buf)
