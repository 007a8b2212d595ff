-- ===== src/Connection/Handlers.antt =====
-- What the methods of a connection that an event calls do, in terms of what closing it and changing
-- its events do. A relation on the states is kept by all of them where these two keep it, and where
-- it does not look at what else they change.
use cxx_epoll_http_server.Common.{
  ◌≡◌, ℕ, zero, suc, refl, Bool, true, false, not, ◌||◌, Option, none, some, List, [], ◌∷◌, Bytes,
  ◌==◌, min, if◌then◌else◌, if_cases,
}
use cxx_epoll_http_server.Kernel.{eintr, eagain, WriteResult, took, refused}
use cxx_epoll_http_server.Buffer
use cxx_epoll_http_server.Buffer.{ReadResult, failed, received}
use cxx_epoll_http_server.Http.{HttpRequest, HttpResponse}
use cxx_epoll_http_server.Parser.{Ret, ok, incomplete, error, HttpParser, parse}
use cxx_epoll_http_server.Input.{buffer_input}
use cxx_epoll_http_server.Connection.{
  Scene, close, handle_error, enable_writing, after_write, wrote, on_write_result, handle_write,
  is_empty, send, Round, done, more, on_bad_request, on_request, on_parsed, request_round,
  request_loop, handle_request, touch, read_loop, handle_read,
}

-- What a step leaves alone that calls neither the poller nor the timers.
abbrev pub Quiet : Scene → Scene → Type 0
Quiet s s' =
    (s'.conn.is_closed ≡ s.conn.is_closed)
    × (s'.conn.fd ≡ s.conn.fd)
    × (s'.connections ≡ s.connections)
    × (s'.calls ≡ s.calls)
    × (s'.timers.heap ≡ s.timers.heap)

pub record Tracks (R : Scene → Scene → Type 0) : Type 0 where
  pub quiet : (s s' : Scene) → Quiet s s' → R s s'
  pub trans : (s t u : Scene) → R s t → R t u → R s u
  pub closes : (s : Scene) → R s (close s)
  pub enables : (b : Bool) (s : Scene) → R s (enable_writing b s)

-- Of a result, where there is one.
abbrev pub Result : (Scene → Scene → Type 0) → Scene → Option Scene → Type 0
Result R s none = Unit
Result R s (some s') = R s s'

module _ (R : Scene → Scene → Type 0) (k : Tracks R) where
  pub handle_error-Tracked : (s : Scene) → R s (handle_error s)
  unfolding handle_error
  handle_error-Tracked s = k.trans s _ _ (k.quiet s _ (refl, refl, refl, refl, refl)) (k.closes _)

  after_write-Tracked : (s : Scene) → R s (after_write s)
  unfolding after_write
  after_write-Tracked s =
      if_cases (R s) (Buffer.readable_bytes s.conn.output == 0)
        (λ _.
          if_cases (R s) s.conn.close_after_write (λ _. k.trans s _ _ off (k.closes _)) (λ _. off))
        (λ _.
          if_cases (R s) s.conn.writing (λ _. k.quiet s s (refl, refl, refl, refl, refl))
            (λ _. k.enables true s))
    where
      off : R s (if s.conn.writing then enable_writing false s else s)
      off =
          if_cases (R s) s.conn.writing (λ _. k.enables false s)
            (λ _. k.quiet s s (refl, refl, refl, refl, refl))

  wrote-Tracked : (n : ℕ) (s : Scene) → R s (wrote n s)
  unfolding wrote
  wrote-Tracked n s =
      if_cases (R s) (min n (Buffer.readable_bytes s.conn.output) == 0)
        (λ _. k.quiet s s (refl, refl, refl, refl, refl))
        (λ _. k.quiet s _ (refl, refl, refl, refl, refl))

  on_write_result-Tracked : (r : WriteResult) (s : Scene) → R s (on_write_result r s)
  unfolding on_write_result
  on_write_result-Tracked (took n) s = k.trans s _ _ (wrote-Tracked n s) (after_write-Tracked _)
  on_write_result-Tracked (refused e) s =
      if_cases (R s) (e == eintr) (λ _. k.quiet s s (refl, refl, refl, refl, refl))
        (λ _.
          if_cases (R s) (e == eagain) (λ _. after_write-Tracked s) (λ _. handle_error-Tracked s))

  pub handle_write-Tracked : (s : Scene) → R s (handle_write s)
  unfolding handle_write
  handle_write-Tracked s =
      if_cases (R s) s.conn.is_closed (λ _. k.quiet s s (refl, refl, refl, refl, refl))
        (λ _.
          if_cases (R s) (Buffer.readable_bytes s.conn.output == 0) (λ _. after_write-Tracked s)
            (λ _.
              k.trans s _ _ (k.quiet s _ (refl, refl, refl, refl, refl))
                (on_write_result-Tracked _ _)))

  send-Tracked : (d : Bytes) (s : Scene) → R s (send d s)
  unfolding send
  send-Tracked d s =
      if_cases (R s) (s.conn.is_closed || is_empty d)
        (λ _. k.quiet s s (refl, refl, refl, refl, refl))
        (λ _. k.trans s _ _ (k.quiet s _ (refl, refl, refl, refl, refl)) (handle_write-Tracked _))

  on_bad_request-Tracked : (s : Scene) → R s (on_bad_request s)
  unfolding on_bad_request
  on_bad_request-Tracked s =
      k.trans s _ _ (k.quiet s _ (refl, refl, refl, refl, refl)) (send-Tracked _ _)

  Result-trans : (s t : Scene) (o : Option Scene) → R s t → Result R t o → Result R s o
  Result-trans s t none a b = tt
  Result-trans s t (some u) a b = k.trans s t u a b

  module _ (handler : Scene → HttpRequest → HttpResponse → HttpResponse) where
    on_request-Tracked : (s : Scene) → R s (on_request handler s)
    unfolding on_request
    on_request-Tracked s =
        k.trans s _ _
          (k.trans s _ _ (k.quiet s _ (refl, refl, refl, refl, refl)) (send-Tracked _ _))
          (k.quiet _ _ (refl, refl, refl, refl, refl))

    scene : Round → Scene
    scene (done s) = s
    scene (more s) = s

    on_parsed-Tracked : (r : Ret) (s : Scene) → R s (scene (on_parsed handler r s))
    unfolding on_parsed scene
    on_parsed-Tracked incomplete s = k.quiet s s (refl, refl, refl, refl, refl)
    on_parsed-Tracked error s = on_bad_request-Tracked s
    on_parsed-Tracked ok s =
        if_cases (λ (x : Round). R s (scene x))
          (not (on_request handler s).conn.stays
            || (Buffer.readable_bytes (on_request handler s).conn.input == 0))
          (λ _. on_request-Tracked s) (λ _. on_request-Tracked s)

    RoundOf : Scene → Option Round → Type 0
    RoundOf s none = Unit
    RoundOf s (some r) = R s (scene r)

    request_round-Tracked : (s : Scene) → RoundOf s (request_round handler s)
    unfolding request_round RoundOf
    request_round-Tracked s = split (parse buffer_input s.conn.parser s.conn.input)
      where
        split :
            (o : Option (Ret × HttpParser × Buffer.Buffer))
            → RoundOf s (elim o as (λ _. Option Round) [
              | none ↦ none
              | some (r, p, b) ↦ some (
                  on_parsed handler r (record s { conn = record s.conn { parser = p; input = b } }))
            ])
        split none = tt
        split (some (r, p, b)) =
            k.trans s _ _ (k.quiet s _ (refl, refl, refl, refl, refl)) (on_parsed-Tracked r _)

    request_loop-Tracked : (f : ℕ) (s : Scene) → Result R s (request_loop handler f s)
    unfolding request_loop RoundOf scene
    request_loop-Tracked zero s = tt
    request_loop-Tracked (suc f) s =
        split (request_round handler s) (request_round-Tracked s) (λ s'. request_loop-Tracked f s')
      where
        split :
            (o : Option Round)
            → RoundOf s o
            → ((s' : Scene) → Result R s' (request_loop handler f s'))
            → Result R s (elim o as (λ _. Option Scene) [
              | none ↦ none
              | some (done s') ↦ some s'
              | some (more s') ↦ request_loop handler f s'
            ])
        split none l k = tt
        split (some (done s')) l k = l
        split (some (more s')) l k = Result-trans s s' _ l (k s')

    handle_request-Tracked : (s : Scene) → Result R s (handle_request handler s)
    unfolding handle_request
    handle_request-Tracked s = request_loop-Tracked _ s

    read_loop-Tracked :
        (t : ℕ) (rs : List ReadResult) (s : Scene) → Result R s (read_loop handler t rs s)
    unfolding read_loop touch
    read_loop-Tracked t [] s =
        Result-trans s _ _ (k.quiet s _ (refl, refl, refl, refl, refl)) (handle_request-Tracked _)
    read_loop-Tracked t (received [] ∷ rs) s =
        k.trans s _ _ (k.quiet s _ (refl, refl, refl, refl, refl)) (k.closes _)
    read_loop-Tracked t (received (c ∷ d) ∷ rs) s =
        Result-trans s _ _ (k.quiet s _ (refl, refl, refl, refl, refl)) (read_loop-Tracked t rs _)
    read_loop-Tracked t (failed e ∷ rs) s =
        if_cases (Result R s) (e == eagain)
          (λ _.
            Result-trans s _ _ (k.quiet s _ (refl, refl, refl, refl, refl))
              (handle_request-Tracked _))
          (λ _.
            if_cases (Result R s) (e == eintr) (λ _. read_loop-Tracked t rs s)
              (λ _.
                k.trans s _ _ (k.quiet s _ (refl, refl, refl, refl, refl))
                  (handle_error-Tracked _)))

    pub handle_read-Tracked : (t : ℕ) (s : Scene) → Result R s (handle_read handler t s)
    unfolding handle_read
    handle_read-Tracked t s = read_loop-Tracked t s.reads s
