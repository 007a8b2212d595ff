-- ===== src/Buffer.antt =====
-- include/ws/buffer.h and src/buffer.cpp: the byte buffer of a connection. `buf` is the vector's
-- content, `peek()` and `raw()` are offsets into it, and a `size_t` sum or difference wraps at
-- 2^64. The kernel's answer to `readv` is an argument of `read_fd`.
pub mod Invariant
pub mod Contents
pub mod Search
pub mod Reading
mod Tests
use cxx_epoll_http_server.Common.{
  ℕ, zero, suc, ◌+◌, ◌-◌, Bool, ◌&&◌, Option, none, some, List, [], ◌∷◌, ◌++◌, Bytes, length, take,
  drop, set, get_or, replicate, min, ltb, leb, ◌==◌, if◌then◌else◌, add_size, sub_size,
}

pub record Buffer : Type 0 where
  pub buf : Bytes
  pub read_idx : ℕ
  pub write_idx : ℕ

abbrev pub initial_size : ℕ
initial_size = 1024

abbrev pub prepend_size : ℕ
prepend_size = 8

-- The bytes of `readFd`'s stack buffer.
abbrev pub extra_size : ℕ
extra_size = 65536

unfoldable pub make : ℕ → Buffer
make n = record { buf = replicate n 0; read_idx = 0; write_idx = 0 }

abbrev pub readable_bytes : Buffer → ℕ
readable_bytes b = sub_size b.write_idx b.read_idx

abbrev pub writable_bytes : Buffer → ℕ
writable_bytes b = sub_size (length b.buf) b.write_idx

abbrev pub prependable_bytes : Buffer → ℕ
prependable_bytes b = b.read_idx

-- `std::string(peek(), n)`.
unfoldable pub peek_string : Buffer → ℕ → Bytes
peek_string b n = take n (drop b.read_idx b.buf)

-- `std::search` for the two bytes of CRLF in a range: the offset of the first match.
unfoldable pub search_crlf : Bytes → Option ℕ
search_crlf [] = none
search_crlf (x ∷ []) = none
search_crlf (x ∷ y ∷ s) =
    let rest = search_crlf (y ∷ s) in
    if x == 13 && y == 10 then some 0 else elim rest [ none ↦ none | some i ↦ some (suc i) ]

-- `none` is `npos`.
unfoldable pub find_crlf : Buffer → ℕ → Option ℕ
find_crlf b offset =
    if leb (readable_bytes b) offset
    then none
    else elim (search_crlf (drop offset (peek_string b (readable_bytes b)))) [
      | none ↦ none
      | some i ↦ some (offset + i)
    ]

unfoldable pub retrieve_all : Buffer → Buffer
retrieve_all b = record b { read_idx = 0; write_idx = 0 }

unfoldable pub retrieve : Buffer → ℕ → Buffer
unfolding retrieve_all
retrieve b n =
    if leb (readable_bytes b) n
    then retrieve_all b
    else record b { read_idx = add_size b.read_idx n }

unfoldable pub retrieve_as_string : Buffer → ℕ → Bytes × Buffer
retrieve_as_string b k = let n = min k (readable_bytes b) in (peek_string b n, retrieve b n)

unfoldable pub retrieve_all_as_string : Buffer → Bytes × Buffer
unfolding retrieve_as_string
retrieve_all_as_string b = retrieve_as_string b (readable_bytes b)

-- `std::copy` within the vector, a byte at a time from the front, `n` bytes from `src` to `dst`.
unfoldable pub copy_within : ℕ → ℕ → ℕ → Bytes → Bytes
copy_within src dst zero buf = buf
copy_within src dst (suc n) buf = copy_within (suc src) (suc dst) n (set buf dst (get_or buf src 0))

-- `std::copy` of other bytes to the offset `i`.
unfoldable pub copy_in : ℕ → Bytes → Bytes → Bytes
copy_in i [] buf = buf
copy_in i (x ∷ s) buf = copy_in (suc i) s (set buf i x)

-- `std::vector::resize`: cut off, or filled up with zero bytes.
unfoldable pub resize : Bytes → ℕ → Bytes
resize buf n = take n buf ++ replicate (n - length buf) 0

unfoldable pub make_space : Buffer → ℕ → Buffer
make_space b n =
    if ltb (add_size (writable_bytes b) (prependable_bytes b)) (add_size n prepend_size)
    then record b { buf = resize b.buf (add_size b.write_idx n) }
    else record b {
      buf = copy_within b.read_idx prepend_size (sub_size b.write_idx b.read_idx) b.buf;
      read_idx = prepend_size;
      write_idx = add_size prepend_size (readable_bytes b);
    }

unfoldable pub ensure_writable_bytes : Buffer → ℕ → Buffer
ensure_writable_bytes b n = if ltb (writable_bytes b) n then make_space b n else b

unfoldable pub append : Buffer → Bytes → Buffer
append b s =
    let b' = ensure_writable_bytes b (length s) in
    record b' { buf = copy_in b'.write_idx s b'.buf; write_idx = add_size b'.write_idx (length s) }

-- What `readv` answers: an `errno`, or the bytes that it put into the buffers, in order.
pub data ReadResult : Type 0 where
  failed : ℕ → ReadResult
  received : Bytes → ReadResult

-- The room that the buffers handed to `readv` have: the vector's end, and behind it the stack
-- buffer if the vector's end is the smaller.
unfoldable pub read_capacity : Buffer → ℕ
read_capacity b =
    if ltb (writable_bytes b) extra_size then writable_bytes b + extra_size else writable_bytes b

-- `readFd`. The bytes fill the vector's end first; those left over are in the stack buffer.
unfoldable pub read_fd : Buffer → ReadResult → Buffer
read_fd b (failed e) = b
read_fd b (received s) =
    let writable = writable_bytes b in
    let filled = copy_in b.write_idx (take writable s) b.buf in
    if leb (length s) writable
    then record b { buf = filled; write_idx = add_size b.write_idx (length s) }
    else append (record b { buf = filled; write_idx = length b.buf }) (drop writable s)

unfoldable pub shrink : Buffer → ℕ → Buffer
unfolding resize
shrink b reserve = record b { buf = resize b.buf (add_size b.write_idx reserve) }
