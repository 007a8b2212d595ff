-- ===== src/Buffer/Contents.antt =====
-- The buffer as a queue of bytes: what is unread, and how each operation changes it.
use cxx_epoll_http_server.Common.{
  ℕ, zero, suc, ◌+◌, ◌-◌, ◌≤◌, ◌<◌, ◌≡◌, refl, sym, ap, ◌∙◌, [], ◌∷◌, ◌++◌, Bytes, length, take,
  drop, set, get_or, replicate, min, arith, length-append, length-set, length-take, length-drop,
  take-drop, drop-drop, take_all, drop_all, take-append_le, drop-append_le, take-append_eq,
  drop-append_eq, take-set, drop-set, take_step, take-min, drop-min, add_size, take-take,
  take-append-drop, append_assoc, length-drop-take,
}
use native.Mathlib.Nat.{add-zero}
use cxx_epoll_http_server.Buffer.{
  Buffer, readable_bytes, writable_bytes, retrieve, retrieve_as_string, peek_string,
  retrieve_all_as_string, copy_within, copy_in, resize, make_space, ensure_writable_bytes, append,
  shrink,
}
use cxx_epoll_http_server.Buffer.Invariant.{
  IsValid, Fits, MadeRoom, ensure_writable_bytes-MadeRoom, append-IsValid, retrieve-IsValid,
}

-- The unread bytes, oldest first.
unfoldable pub contents : Buffer → Bytes
contents b = drop b.read_idx (take b.write_idx b.buf)

pub length-contents : (b : Buffer) → IsValid b → length (contents b) ≡ readable_bytes b
unfolding contents
length-contents b v =
    omega (arith, length-drop-take b.read_idx b.write_idx b.buf v.ordered v.in_vector)

pub peek_string-contents :
    (b : Buffer) (n : ℕ) → IsValid b → n ≤ readable_bytes b → peek_string b n ≡ take n (contents b)
unfolding contents peek_string
peek_string-contents b n v h =
    take-drop b.read_idx n (b.read_idx + n) b.buf refl
    ∙ ap (drop b.read_idx) (
        sym (
          take-take (b.read_idx + n) b.write_idx b.buf
            (omega (arith, v.ordered, v.in_vector, v.addressable))))
    ∙ sym (take-drop b.read_idx n (b.read_idx + n) (take b.write_idx b.buf) refl)

-- A byte-by-byte copy to a lower place is a block move.
copy_within_lem :
    (src dst n : ℕ) (buf : Bytes)
    → dst < src
    → src + n ≤ length buf
    → copy_within src dst n buf ≡ take dst buf ++ (take n (drop src buf) ++ drop (dst + n) buf)
unfolding copy_within
copy_within_lem src dst zero buf h f = rw (add-zero, take-append-drop)
copy_within_lem src dst (suc n) buf h f =
    copy_within_lem (suc src) (suc dst) n (set buf dst x) (omega arith)
      (omega (arith, length-set buf dst x))
    ∙ rw
        (
          take-set buf dst x (omega arith),
          drop-set buf dst (suc src) x (omega arith),
          drop-set buf dst (suc dst + n) x (omega arith),
          take_step n src buf 0 (omega arith),
          append_assoc,
        )
        (ap (λ k. take dst buf ++ x ∷ (take n (drop (suc src) buf) ++ drop k buf)) (omega arith))
  where
    x : ℕ
    x = get_or buf src 0

copy_in_lem :
    (i : ℕ) (s buf : Bytes)
    → i + length s ≤ length buf
    → copy_in i s buf ≡ take i buf ++ (s ++ drop (i + length s) buf)
unfolding copy_in
copy_in_lem i [] buf f = rw (add-zero, take-append-drop)
copy_in_lem i (x ∷ s) buf f =
    copy_in_lem (suc i) s (set buf i x) (omega (arith, length-set buf i x))
    ∙ rw
        (
          take-set buf i x (omega arith),
          drop-set buf i (suc i + length s) x (omega arith),
          append_assoc,
        )
        (ap (λ k. take i buf ++ x ∷ (s ++ drop k buf)) (omega arith))

-- Bytes copied in behind the unread ones extend them.
pub contents-copy_in :
    (s buf : Bytes) (r w : ℕ)
    → r ≤ w
    → w + length s ≤ length buf
    → drop r (take (w + length s) (copy_in w s buf)) ≡ drop r (take w buf) ++ s
contents-copy_in s buf r w h f =
    rw (copy_in_lem w s buf f, ← append_assoc)
      (ap (drop r) (
          take-append_eq (w + length s) (take w buf ++ s) (drop (w + length s) buf)
            (omega (arith, length-append (take w buf) s, length-take w buf)))
        ∙ drop-append_le r (take w buf) s (omega (arith, length-take w buf)))

pub contents-extended :
    (b : Buffer) (s : Bytes) (w : ℕ)
    → IsValid b
    → w ≡ b.write_idx + length s
    → w ≤ length b.buf
    → contents (record b { buf = copy_in b.write_idx s b.buf; write_idx = w }) ≡ contents b ++ s
unfolding contents
contents-extended b s w v e f =
    ap (λ k. drop b.read_idx (take k (copy_in b.write_idx s b.buf))) e
    ∙ contents-copy_in s b.buf b.read_idx b.write_idx v.ordered (omega arith)

take-resize : (w n : ℕ) (buf : Bytes) → w ≤ n → w ≤ length buf → take w (resize buf n) ≡ take w buf
unfolding resize
take-resize w n buf h l =
    take-append_le w (take n buf) (replicate (n - length buf) 0) (omega (arith, length-take n buf))
    ∙ take-take w n buf h

contents-compaction :
    (r w n : ℕ) (buf : Bytes)
    → w ≡ r + n
    → w ≤ length buf
    → 8 < r
    → drop 8 (take (8 + n) (copy_within r 8 n buf)) ≡ drop r (take w buf)
contents-compaction r w n buf e f h =
    rw (copy_within_lem r 8 n buf h (omega arith), ← append_assoc)
      (ap (drop 8) (
          take-append_eq (8 + n) (take 8 buf ++ take n (drop r buf)) (drop (8 + n) buf) (
            omega (
              arith,
              length-append (take 8 buf) (take n (drop r buf)),
              length-take 8 buf,
              length-take n (drop r buf),
              length-drop r buf,
            )))
        ∙ drop-append_eq 8 (take 8 buf) (take n (drop r buf)) (omega (arith, length-take 8 buf))
        ∙ take-drop r n w buf e)

-- Where a valid buffer lacks room, neither growing the vector nor moving the bytes down one by one
-- from the front loses, changes or reorders an unread byte.
pub contents-make_space :
    (b : Buffer) (n : ℕ)
    → IsValid b
    → Fits b n
    → writable_bytes b < n
    → contents (make_space b n) ≡ contents b
unfolding contents make_space
contents-make_space b n v f h = ground (
  arith,
  take-resize b.write_idx (b.write_idx + n) b.buf,
  contents-compaction b.read_idx b.write_idx (b.write_idx - b.read_idx) b.buf,
)

pub contents-ensure_writable_bytes :
    (b : Buffer) (n : ℕ) → IsValid b → Fits b n → contents (ensure_writable_bytes b n) ≡ contents b
unfolding ensure_writable_bytes
contents-ensure_writable_bytes b n v f = ground (arith, contents-make_space b n v f)

pub contents-append :
    (b : Buffer) (s : Bytes)
    → IsValid b
    → Fits b (length s)
    → contents (append b s) ≡ contents b ++ s
unfolding append
contents-append b s v f =
    contents-extended b' s (add_size b'.write_idx (length s)) m.valid
      (omega (arith, m.room, m.valid)) (omega (arith, m.room, m.valid))
    ∙ ap (λ c. c ++ s) (contents-ensure_writable_bytes b (length s) v f)
  where
    b' : Buffer
    b' = ensure_writable_bytes b (length s)

    m : MadeRoom b b' (length s)
    m = ensure_writable_bytes-MadeRoom b (length s) v f

pub contents-retrieve :
    (b : Buffer) (n : ℕ) → IsValid b → contents (retrieve b n) ≡ drop n (contents b)
unfolding retrieve contents
contents-retrieve b n v = ground (
  arith,
  length-contents b v,
  drop_all n (contents b),
  drop-drop n b.read_idx (b.read_idx + n) (take b.write_idx b.buf),
)

-- Retrieving n bytes of a valid buffer as a string gives the first n unread bytes, or all if there
-- are fewer, leaves the others, and keeps the invariant.
pub retrieve_as_string_lem :
    (b : Buffer) (n : ℕ)
    → IsValid b
    → let (s, b') = retrieve_as_string b n in
      (s ≡ take n (contents b)) × (contents b' ≡ drop n (contents b)) × IsValid b'
unfolding retrieve_as_string
retrieve_as_string_lem b n v = (
  peek_string-contents b m v (omega arith) ∙ take-min n m (contents b) same,
  contents-retrieve b m v ∙ drop-min n m (contents b) same,
  retrieve-IsValid b m v,
)
  where
    m : ℕ
    m = min n (readable_bytes b)

    same : m ≡ min n (length (contents b))
    same = rw (length-contents b v)

pub retrieve_all_as_string_lem :
    (b : Buffer)
    → IsValid b
    → let (s, b') = retrieve_all_as_string b in (s ≡ contents b) × (contents b' ≡ [])
unfolding retrieve_all_as_string
retrieve_all_as_string_lem b v =
    let all = retrieve_as_string_lem b (readable_bytes b) v in
    let fits : length (contents b) ≤ readable_bytes b = omega (arith, length-contents b v) in
    (all.0 ∙ take_all _ (contents b) fits, all.1 ∙ drop_all _ (contents b) fits)

-- `shrink` keeps the unread bytes.
pub contents-shrink :
    (b : Buffer) (n : ℕ) → IsValid b → Fits b n → contents (shrink b n) ≡ contents b
unfolding shrink contents
contents-shrink b n v f = ap (drop b.read_idx) (
    take-resize b.write_idx (add_size b.write_idx n) b.buf (omega (arith, v.in_vector)) v.in_vector)

-- Appending to a valid buffer puts the new bytes behind the unread ones, whether there is room,
-- the bytes are moved down or the vector grows, and keeps the invariant; the vector is to stay
-- within the address space.
pub append_lem :
    (b : Buffer) (s : Bytes)
    → IsValid b
    → Fits b (length s)
    → IsValid (append b s) × (contents (append b s) ≡ contents b ++ s)
append_lem b s v f = (append-IsValid b s v f, contents-append b s v f)
