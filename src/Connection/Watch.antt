-- ===== src/Connection/Watch.antt =====
-- What the poller is told of a connection that has output to write.
use cxx_epoll_http_server.Common.{
  ℕ, ◌<◌, ◌≡◌, ◌≢◌, refl, sym, ap, ◌∙◌, Bool, true, false, not, some, List, [], ◌∷◌, ◌++◌, min,
  ◌==◌, ==_refl, if◌then◌else◌, arith, ◌⊎◌, inl, inr, if_cases, if_false,
}
use cxx_epoll_http_server.Buffer.{readable_bytes}
use cxx_epoll_http_server.Connection.{
  WriteResult, took, refused, Scene, Call, poller_add, poller_del, poller_mod, close_fd, mod_calls,
  close, handle_error, enable_writing, after_write, wrote, on_write_result, next_write,
  handle_write, eintr, eagain,
}

abbrev Closed : Scene → Type 0
Closed s = s.conn.is_closed ≡ true

close-Closed : (s : Scene) → Closed (close s)
unfolding close
close-Closed s = if_cases Closed s.conn.is_closed (λ e. e) (λ _. refl)

-- Whether the poller reports room to write for `fd`, behind these calls.
unfoldable pub watched : ℕ → Bool → List Call → Bool
watched fd w [] = w
watched fd w (poller_add x ∷ cs) = watched fd (if x == fd then false else w) cs
watched fd w (poller_mod x on ∷ cs) = watched fd (if x == fd then on else w) cs
watched fd w (poller_del x ∷ cs) = watched fd (if x == fd then false else w) cs
watched fd w (close_fd x ∷ cs) = watched fd w cs

watched-mod :
    (fd : ℕ) (on : Bool) (cs : List Call) (w : Bool)
    → watched fd w (cs ++ poller_mod fd on ∷ []) ≡ on
unfolding watched
watched-mod fd on [] w = ap (λ b. if b then on else w) (==_refl fd)
watched-mod fd on (poller_add x ∷ cs) w = watched-mod fd on cs (if x == fd then false else w)
watched-mod fd on (poller_mod x o ∷ cs) w = watched-mod fd on cs (if x == fd then o else w)
watched-mod fd on (poller_del x ∷ cs) w = watched-mod fd on cs (if x == fd then false else w)
watched-mod fd on (close_fd x ∷ cs) w = watched-mod fd on cs w

-- The flag is what the poller was told.
abbrev pub Told : ℕ → Scene → Type 0
Told fd s = (s.conn.fd ≡ some fd) × (watched fd false s.calls ≡ s.conn.writing)

-- The connection is closed, or watched for room exactly if it has pending output.
abbrev pub Settled : ℕ → Scene → Type 0
Settled fd s =
    (s.conn.is_closed ≡ true)
    ⊎ (Told fd s × (watched fd false s.calls ≡ not (readable_bytes s.conn.output == 0)))

enable_writing-open :
    (fd : ℕ) (on : Bool) (s : Scene)
    → s.conn.is_closed ≡ false
    → s.conn.fd ≡ some fd
    → enable_writing on s
      ≡ record s { conn = record s.conn { writing = on }; calls = s.calls ++ poller_mod fd on ∷ [] }
unfolding enable_writing mod_calls
enable_writing-open fd on s o e =
    if_false s.conn.is_closed _ _ o
    ∙ ap
        (λ f. record s { conn = record s.conn { writing = on }; calls = s.calls ++ mod_calls f on })
        e

enable_writing-Settled :
    (fd : ℕ) (on : Bool) (s : Scene)
    → s.conn.is_closed ≡ false
    → s.conn.fd ≡ some fd
    → on ≡ not (readable_bytes s.conn.output == 0)
    → Settled fd (enable_writing on s)
enable_writing-Settled fd on s o e p =
    let q = watched-mod fd on s.calls false in
    rw (enable_writing-open fd on s o e) (inr ((e, q), q ∙ p))

after_write-Settled :
    (fd : ℕ) (s : Scene) → s.conn.is_closed ≡ false → Told fd s → Settled fd (after_write s)
unfolding after_write
after_write-Settled fd s o t =
    if_cases (Settled fd) (readable_bytes s.conn.output == 0)
      (λ z.
        if_cases (Settled fd) s.conn.close_after_write (λ _. inl (close-Closed _))
          (λ _.
            if_cases (Settled fd) s.conn.writing
              (λ w. enable_writing-Settled fd false s o t.0 (ap not (sym z)))
              (λ w. inr (t, t.1 ∙ w ∙ ap not (sym z)))))
      (λ z.
        if_cases (Settled fd) s.conn.writing (λ w. inr (t, t.1 ∙ w ∙ ap not (sym z)))
          (λ w. enable_writing-Settled fd true s o t.0 (ap not (sym z))))

handle_error-Closed : (s : Scene) → Closed (handle_error s)
unfolding handle_error
handle_error-Closed s = close-Closed _

wrote-is_closed : (n : ℕ) (s : Scene) → (wrote n s).conn.is_closed ≡ s.conn.is_closed
unfolding wrote
wrote-is_closed n s =
    if_cases (λ (x : Scene). x.conn.is_closed ≡ s.conn.is_closed)
      (min n (readable_bytes s.conn.output) == 0) (λ _. refl) (λ _. refl)

wrote-Told : (fd n : ℕ) (s : Scene) → Told fd s → Told fd (wrote n s)
unfolding wrote
wrote-Told fd n s t =
    if_cases (Told fd) (min n (readable_bytes s.conn.output) == 0) (λ _. t) (λ _. t)

on_write_result-Settled :
    (fd : ℕ) (r : WriteResult) (s : Scene)
    → s.conn.is_closed ≡ false
    → Told fd s
    → r ≢ refused eintr
    → Settled fd (on_write_result r s)
unfolding on_write_result
on_write_result-Settled fd (took n) s o t h =
    after_write-Settled fd (wrote n s) (wrote-is_closed n s ∙ o) (wrote-Told fd n s t)
on_write_result-Settled fd (refused e) s o t h =
    if_cases (Settled fd) (e == eintr) (λ q. absurd (h (ap refused (ground (arith, q)))))
      (λ _.
        if_cases (Settled fd) (e == eagain) (λ _. after_write-Settled fd s o t)
          (λ _. inl (handle_error-Closed s)))

-- Of a connection whose flag for writing is what the poller was last told of its descriptor, and
-- where `write` does not answer EINTR: `handleWrite` leaves it closed, or leaves the flag true to
-- the poller, which watches the descriptor for EPOLLOUT exactly if output is pending.
pub handle_write-Settled :
    (fd : ℕ) (s : Scene)
    → Told fd s
    → (next_write s.writes).0 ≢ refused eintr
    → Settled fd (handle_write s)
unfolding handle_write
handle_write-Settled fd s t h = if_cases (Settled fd) s.conn.is_closed inl (λ o.
    if_cases (Settled fd) (readable_bytes s.conn.output == 0) (λ _. after_write-Settled fd s o t)
      (λ _. on_write_result-Settled fd (next_write s.writes).0 _ o t h))

-- Where `write` answers EINTR on an open connection that has pending output and is not watched for
-- EPOLLOUT, `handleWrite` leaves it so, and tells the poller nothing.
pub interrupted_write_stalls :
    (s : Scene) (rs : List WriteResult)
    → s.conn.is_closed ≡ false
    → s.conn.writing ≡ false
    → 0 < readable_bytes s.conn.output
    → s.writes ≡ refused eintr ∷ rs
    → ((handle_write s).conn ≡ s.conn) × ((handle_write s).calls ≡ s.calls)
unfolding handle_write on_write_result next_write
interrupted_write_stalls s rs o w p e =
    if_cases Same s.conn.is_closed (λ q. cc)
      (λ _.
        if_cases Same (readable_bytes s.conn.output == 0) (λ q. absurd (ground (arith, q)))
          (λ _. rw e (refl, refl)))
  where
    Same : Scene → Type 0
    Same x = (x.conn ≡ s.conn) × (x.calls ≡ s.calls)
