-- ===== src/Connection/Reading.antt =====
-- `handleRead`: draining the socket, and what happens where its end is found.
use cxx_epoll_http_server.Common.{
  ℕ, ◌<◌, ◌≡◌, refl, ap, ◌∙◌, true, some, List, [], ◌∷◌, ◌++◌, length, arith, if_cases,
}
use cxx_epoll_http_server.Buffer.{ReadResult, failed, received}
use cxx_epoll_http_server.Http.{HttpRequest, HttpResponse}
use cxx_epoll_http_server.Connection.{Scene, close, eintr, read_loop, handle_read}

module _ (handler : Scene → HttpRequest → HttpResponse → HttpResponse) where
  -- The answers of `readv` to calls that bring bytes or are interrupted.
  abbrev pub Delivers : List ReadResult → Type 0
  Delivers [] = Unit {0}
  Delivers (received s ∷ rs) = (0 < length s) × Delivers rs
  Delivers (failed e ∷ rs) = (e ≡ eintr) × Delivers rs

  -- What the connection has done for the peer.
  abbrev pub Unanswered : Scene → Scene → Type 0
  Unanswered s s' =
      (s'.conn.is_closed ≡ true)
      × (s'.sent ≡ s.sent)
      × (s'.counters.requests ≡ s.counters.requests)
      × (s'.counters.errors ≡ s.counters.errors)

  close-Unanswered : (s : Scene) → Unanswered s (close s)
  unfolding close
  close-Unanswered s =
      if_cases (Unanswered s) s.conn.is_closed (λ c. (c, refl, refl, refl))
        (λ _. (refl, refl, refl, refl))

  read_loop-end :
      (t : ℕ) (rs qs : List ReadResult) (s : Scene)
      → Delivers rs
      → (r : Scene) × (read_loop handler t (rs ++ received [] ∷ qs) s ≡ some r) × Unanswered s r
  unfolding read_loop
  read_loop-end t [] qs s d = (close (record s { reads = qs }), refl, close-Unanswered _)
  read_loop-end t (received [] ∷ rs) qs s d = absurd (omega (arith, d.0))
  read_loop-end t (received (c ∷ w) ∷ rs) qs s d = read_loop-end t rs qs _ d.1
  read_loop-end t (failed e ∷ rs) qs s d =
      let (r, q, u) = read_loop-end t rs qs s d.1 in (r, interrupted e d.0 ∙ q, u)
    where
      interrupted :
          (e : ℕ)
          → e ≡ eintr
          → read_loop handler t (failed e ∷ (rs ++ received [] ∷ qs)) s
            ≡ read_loop handler t (rs ++ received [] ∷ qs) s
      interrupted e h = rw h refl

  -- Where the peer's end of input is found while `handleRead` drains the socket, behind reads that
  -- bring bytes or are interrupted, the connection is closed, with nothing sent and no request or
  -- error counted, whatever the bytes were.
  pub end_of_input_drops_requests :
      (t : ℕ) (rs qs : List ReadResult) (s : Scene)
      → Delivers rs
      → s.reads ≡ rs ++ received [] ∷ qs
      → (r : Scene) × (handle_read handler t s ≡ some r) × Unanswered s r
  unfolding handle_read
  end_of_input_drops_requests t rs qs s d e =
      let (r, q, u) = read_loop-end t rs qs s d in (r, ap (λ l. read_loop handler t l s) e ∙ q, u)
