-- ===== src/Logger/Async/Drains.antt =====
-- The buffers of the logger: what is appended, written and drained stays in order.
use cxx_epoll_http_server.Common.{
  ℕ, ◌≡◌, refl, sym, ap, ◌∙◌, Bool, true, false, not, ◌||◌, [], ◌∷◌, ◌++◌, append_assoc, append-nil,
  Bytes, length, arith, if_cases,
}
use cxx_epoll_http_server.Logger.Async.{
  AsyncLogger, is_closed, is_empty, to_stdout, open_log, start, Disk, write_loop, write_all,
  write_swapped, write_current, drain, last_drain,
}
use cxx_epoll_http_server.Logger.Async.Writing.{Takes, write_loop_all, write_all_lem}

abbrev pub Ordered : AsyncLogger → Type 0
Ordered l = l.accepted ≡ l.written ++ (l.to_write ++ l.current)

pub insert-Ordered :
    (accepted written to_write current d : Bytes)
    → accepted ≡ written ++ (to_write ++ current)
    → accepted ++ d ≡ written ++ (to_write ++ (current ++ d))
insert-Ordered accepted written to_write current d e =
    ap (λ q. q ++ d) e
    ∙ append_assoc written _ _
    ∙ ap (λ q. written ++ q) (append_assoc to_write _ _)

-- Behind `writeAll` of the whole buffer that was swapped.
pub write_swapped-Ordered :
    (k : Disk) (l : AsyncLogger)
    → is_closed l.sink ≡ false
    → Takes k.writes (length l.to_write)
    → Ordered l
    → Ordered (write_swapped k l)
unfolding write_swapped
write_swapped-Ordered k l o t e =
    let r = write_all_lem k l.to_write l o in
    r.0.2
    ∙ e
    ∙ sym (append_assoc l.written l.to_write l.current)
    ∙ ap (λ q. (l.written ++ q) ++ l.current) (sym (write_loop_all k.writes l.to_write t))
    ∙ ap (λ q. (l.written ++ write_loop k.writes l.to_write) ++ q) (sym r.0.0)
    ∙ ap (λ q. q ++ (write_all k l.to_write l).current) (sym r.1)

pub is_empty→nil : (d : Bytes) → is_empty d ≡ true → d ≡ []
unfolding is_empty
is_empty→nil [] e = refl
is_empty→nil (c ∷ d) e = absurd (ground (arith, e))

-- A drain leaves nothing in the buffer, nothing out of what was appended, and the log open.
abbrev Drained : AsyncLogger → AsyncLogger → Type 0
Drained l x =
    (Ordered x)
    × (x.current ≡ [])
    × (x.to_write ≡ [])
    × (is_closed x.sink ≡ false)
    × (x.running ≡ l.running)

pub drain-Drained :
    (k : Disk) (l : AsyncLogger)
    → is_closed l.sink ≡ false
    → l.to_write ≡ []
    → Takes k.writes (length l.current)
    → Ordered l
    → Drained l (drain k l)
unfolding drain write_current
drain-Drained k l o n t e =
    let r = write_all_lem k l.current l o in
    if_cases (Drained l) (is_empty l.current) (λ q. (e, is_empty→nil l.current q, n, o, refl))
      (λ _. (
        r.0.2
            ∙ e
            ∙ ap (λ q. l.written ++ (q ++ l.current)) n
            ∙ ap (λ q. l.written ++ q) (sym (write_loop_all k.writes l.current t))
            ∙ sym r.1
            ∙ sym (append-nil _)
            ∙ ap (λ q. (write_all k l.current l).written ++ (q ++ [])) (sym (r.0.1 ∙ n)),
        refl,
        r.0.1 ∙ n,
        r.0.5 ∙ o,
        r.0.3,
      ))

pub nil-is_empty : (d : Bytes) → d ≡ [] → is_empty d ≡ true
unfolding is_empty
nil-is_empty d e = rw e refl

pub last_drain-Drained :
    (k k' : Disk) (l : AsyncLogger)
    → is_closed l.sink ≡ false
    → l.to_write ≡ []
    → Takes k.writes (length l.current)
    → Ordered l
    → Drained l (last_drain k k' l)
unfolding last_drain
last_drain-Drained k k' l o n t e =
    let r = drain-Drained k l o n t e in
    if_cases (Drained l) (is_empty (drain k l).to_write) (λ q. r)
      (λ q. absurd (ground (arith, q, nil-is_empty _ r.2)))

abbrev pub Opened : AsyncLogger → Type 0
Opened x = (Ordered x) × (x.to_write ≡ []) × (is_closed x.sink ≡ false)

pub open_log-Opened :
    (opens : Bool) (l : AsyncLogger) → Ordered l → l.to_write ≡ [] → Opened (open_log opens l)
unfolding open_log is_closed
open_log-Opened opens l e n =
    if_cases Opened (to_stdout l.path || not opens) (λ _. (e, n, refl)) (λ _. (e, n, refl))

-- A log that starts has empty buffers and an open descriptor.
pub start-Opened :
    (opens : Bool) (path : Bytes) (flush_ms roll_bytes : ℕ) (l : AsyncLogger)
    → l.running ≡ false
    → l.accepted ≡ l.written
    → Opened (start opens path flush_ms roll_bytes l)
unfolding start
start-Opened opens path flush_ms roll_bytes l r w =
    let o =
      open_log-Opened opens
        (record l {
          path = path;
          flush_ms = flush_ms;
          roll_bytes = roll_bytes;
          written_this_file = 0;
          stop_requested = false;
          current = [];
          to_write = [];
        })
        (w ∙ sym (append-nil l.written)) refl in
    if_cases Opened l.running (λ q. absurd (ground (arith, q, r))) (λ _. o)
