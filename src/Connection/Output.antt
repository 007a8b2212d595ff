-- ===== src/Connection/Output.antt =====
-- What `send` and `handleWrite` do with the bytes of the responses.
use cxx_epoll_http_server.Common.{
  ℕ, ◌≤◌, ◌≡◌, refl, sym, ap, ◌∙◌, Bool, true, false, ◌||◌, [], ◌∷◌, ◌++◌, Bytes, length, min, take,
  ◌==◌, if◌then◌else◌, arith, if_cases, append-nil, append_assoc, take-append-drop,
}
use cxx_epoll_http_server.Buffer.{Buffer, readable_bytes, append}
use cxx_epoll_http_server.Buffer
use cxx_epoll_http_server.Buffer.Invariant.{IsValid, Fits, append-IsValid, retrieve-IsValid}
use cxx_epoll_http_server.Buffer.Contents.{
  contents, contents-append, contents-retrieve, peek_string-contents,
}
use cxx_epoll_http_server.Connection.{
  WriteResult, took, refused, Scene, close, handle_error, enable_writing, after_write, wrote,
  on_write_result, next_write, handle_write, send, is_empty, eintr, eagain,
}

-- The bytes that were given to `send`: those that the kernel took, and behind them those that
-- still wait in the output buffer.
unfoldable pub stream : Scene → Bytes
stream s = s.sent ++ contents s.conn.output

abbrev pub Kept : Scene → Scene → Type 0
Kept s s' =
    (s'.sent ≡ s.sent)
    × (s'.conn.output ≡ s.conn.output)
    × (s'.conn.input ≡ s.conn.input)
    × (s'.conn.parser ≡ s.conn.parser)

pub close-Kept : (s : Scene) → Kept s (close s)
unfolding close
close-Kept s = ground arith

enable_writing-Kept : (on : Bool) (s : Scene) → Kept s (enable_writing on s)
unfolding enable_writing
enable_writing-Kept on s = ground arith

pub after_write-Kept : (s : Scene) → Kept s (after_write s)
unfolding after_write
after_write-Kept s = ground (
  arith,
  close-Kept s,
  enable_writing-Kept false s,
  enable_writing-Kept true s,
  close-Kept (enable_writing false s),
)

pub handle_error-Kept : (s : Scene) → Kept s (handle_error s)
unfolding handle_error
handle_error-Kept s = close-Kept _

Kept-stream : (s s' : Scene) → Kept s s' → stream s' ≡ stream s
unfolding stream
Kept-stream s s' k = cc (k.0, k.1)

-- The bytes are where they were, and the output buffer is valid.
abbrev Streams : Scene → Scene → Type 0
Streams s s' = (stream s' ≡ stream s) × IsValid s'.conn.output

Kept-Streams : (s s' : Scene) → IsValid s.conn.output → Kept s s' → Streams s s'
Kept-Streams s s' v k = (Kept-stream s s' k, rw (k.1) v)

retrieve-split :
    (o : Buffer) (m : ℕ) (sent : Bytes)
    → IsValid o
    → m ≤ readable_bytes o
    → (sent ++ Buffer.peek_string o m) ++ contents (Buffer.retrieve o m) ≡ sent ++ contents o
retrieve-split o m sent v l =
    append_assoc sent _ _
    ∙ ap (λ d. sent ++ d)
        (ap (λ d. d ++ contents (Buffer.retrieve o m)) (peek_string-contents o m v l)
          ∙ ap (λ d. take m (contents o) ++ d) (contents-retrieve o m v)
          ∙ take-append-drop m (contents o))

-- A write that takes bytes moves them from the buffer to the kernel.
wrote-Streams : (n : ℕ) (s : Scene) → IsValid s.conn.output → Streams s (wrote n s)
unfolding stream wrote
wrote-Streams n s v =
    let o = s.conn.output in
    let m = min n (readable_bytes o) in
    ground (arith, retrieve-split o m s.sent v (omega arith), retrieve-IsValid o m v)

Streams-trans : (s t u : Scene) → Streams s t → (IsValid t.conn.output → Streams t u) → Streams s u
Streams-trans s t u h k = let m = k h.1 in (m.0 ∙ h.0, m.1)

on_write_result-Streams :
    (r : WriteResult) (s : Scene) → IsValid s.conn.output → Streams s (on_write_result r s)
unfolding on_write_result
on_write_result-Streams (took n) s v =
    Streams-trans s (wrote n s) _ (wrote-Streams n s v)
      (λ w. Kept-Streams _ _ w (after_write-Kept _))
on_write_result-Streams (refused e) s v =
    if_cases (Streams s) (e == eintr) (λ _. (refl, v))
      (λ _.
        if_cases (Streams s) (e == eagain) (λ _. Kept-Streams s _ v (after_write-Kept s))
          (λ _. Kept-Streams s _ v (handle_error-Kept s)))

pub handle_write-Streams : (s : Scene) → IsValid s.conn.output → Streams s (handle_write s)
unfolding handle_write stream
handle_write-Streams s v =
    let (r, rs) = next_write s.writes in
    ground (
      arith,
      Kept-Streams s _ v (after_write-Kept s),
      on_write_result-Streams r (record s { writes = rs }) v,
    )

abbrev put_out : Bytes → Scene → Scene
put_out d s = record s { conn = record s.conn { output = append s.conn.output d } }

put_out-stream :
    (d : Bytes) (s : Scene)
    → IsValid s.conn.output
    → Fits s.conn.output (length d)
    → stream (put_out d s) ≡ stream s ++ d
unfolding stream
put_out-stream d s v f =
    ap (λ e. s.sent ++ e) (contents-append s.conn.output d v f) ∙ sym (append_assoc s.sent _ _)

send_nothing : (s : Scene) → send [] s ≡ s
unfolding send is_empty
send_nothing s =
    if_cases (λ x. x ≡ s) (s.conn.is_closed || true) (λ _. refl) (λ e. ground (arith, e))

pub send_open :
    (c : ℕ) (d : Bytes) (s : Scene)
    → s.conn.is_closed ≡ false
    → send (c ∷ d) s ≡ handle_write (put_out (c ∷ d) s)
unfolding send is_empty
send_open c d s o = ap (λ b. if b || false then s else handle_write (put_out (c ∷ d) s)) o

-- On an open connection with a valid output buffer that has room, whatever `write` answers, `send`
-- puts the data behind all that was sent or is pending, and loses, repeats and reorders nothing;
-- the output buffer stays valid.
pub send_lem :
    (d : Bytes) (s : Scene)
    → s.conn.is_closed ≡ false
    → IsValid s.conn.output
    → Fits s.conn.output (length d)
    → (stream (send d s) ≡ stream s ++ d) × IsValid (send d s).conn.output
send_lem [] s o v f = rw (send_nothing s) (sym (append-nil _), v)
send_lem (c ∷ d) s o v f =
    let w = append-IsValid s.conn.output (c ∷ d) v f in
    let m = handle_write-Streams (put_out (c ∷ d) s) w in
    rw (send_open c d s o) (m.0 ∙ put_out-stream (c ∷ d) s v f, m.1)
