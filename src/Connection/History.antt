-- ===== src/Connection/History.antt =====
-- The events of a connection, one after the other, up to its destructor.
use cxx_epoll_http_server.Common.{
  ℕ, ◌≡◌, refl, subst, ap, ◌∙◌, ◌⊎◌, inl, inr, Bool, some, List, [], ◌∷◌, ◌++◌, append_assoc,
  append-nil,
}
use cxx_epoll_http_server.Kernel.{WriteResult}
use cxx_epoll_http_server.Buffer.{ReadResult}
use cxx_epoll_http_server.Http.{HttpRequest, HttpResponse}
use cxx_epoll_http_server.Connection.{
  Scene, poller_del, close_fd, destroy, release_calls, handle_error, handle_write, handle_read,
  arm_idle_timer, on_idle_timer,
}
use cxx_epoll_http_server.Connection.Lifecycle.{
  Open, mods, Lives, Dies, Life, Same-Life, Life-trans,
}
use cxx_epoll_http_server.Connection.Handlers.{Result}
use cxx_epoll_http_server.Connection.Release.{
  handle_error-Life, handle_write-Life, arm_idle_timer-Life, on_idle_timer-Life, handle_read-Life,
}

-- The loop calls a handler, with what the kernel answers then.
pub data Event (handler : Scene → HttpRequest → HttpResponse → HttpResponse) (s : Scene)
    : Scene → Type 0 where
  readable :
      (t : ℕ) (rs : List ReadResult) (ws : List WriteResult) (s' : Scene)
      → handle_read handler t (record s { reads = rs; writes = ws }) ≡ some s'
      → Event handler s s'
  writable : (ws : List WriteResult) → Event handler s (handle_write (record s { writes = ws }))
  hung_up : Event handler s (handle_error s)
  timer : (t : ℕ) → Event handler s (on_idle_timer t s)
  armed : (t : ℕ) → Event handler s (arm_idle_timer t s)

pub data History (handler : Scene → HttpRequest → HttpResponse → HttpResponse) (s : Scene)
    : Scene → Type 0 where
  start : History handler s s
  next : {t u : Scene} → History handler s t → Event handler t u → History handler s u

Event-Life :
    (handler : Scene → HttpRequest → HttpResponse → HttpResponse) {s s' : Scene}
    → Event handler s s'
    → Life s s'
Event-Life handler {s} (readable t rs ws s' e) =
    Life-trans s _ s' (Same-Life s _ (refl, refl, refl, refl))
      (subst (Result Life (record s { reads = rs; writes = ws })) e (handle_read-Life handler t _))
Event-Life handler {s} (writable ws) =
    Life-trans s _ _ (Same-Life s _ (refl, refl, refl, refl)) (handle_write-Life _)
Event-Life handler {s} hung_up = handle_error-Life s
Event-Life handler {s} (timer t) = on_idle_timer-Life t s
Event-Life handler {s} (armed t) = arm_idle_timer-Life t s

History-Life :
    (handler : Scene → HttpRequest → HttpResponse → HttpResponse) {s s' : Scene}
    → History handler s s'
    → Life s s'
History-Life handler {s} start = Same-Life s s (refl, refl, refl, refl)
History-Life handler {s} (next h e) =
    Life-trans s _ _ (History-Life handler h) (Event-Life handler e)

-- Over any sequence of the loop's calls of a connection that is open, whatever the kernel answers:
-- it is open, has its descriptor and its entry in the table, and has changed its events at the
-- poller alone; or it is closed, has no descriptor and no entry, and behind such changes has taken
-- its descriptor off the poller and then closed it, once, and called nothing since.
pub alive_or_gone :
    (handler : Scene → HttpRequest → HttpResponse → HttpResponse) (fd : ℕ) (s s' : Scene)
    → Open fd s
    → History handler s s'
    → Lives fd s s' ⊎ Dies fd s s'
alive_or_gone handler fd s s' o h = (History-Life handler h).while_open fd o

-- From a connection that is open to behind its destructor, whatever the loop calls between, the
-- calls are changes of its events, and then, once, taking the descriptor off the poller and
-- closing it: no descriptor leaks, none is closed twice.
pub released_once :
    (handler : Scene → HttpRequest → HttpResponse → HttpResponse) (fd : ℕ) (s s' : Scene)
    → Open fd s
    → History handler s s'
    → (bs : List Bool) × ((destroy s').calls
        ≡ s.calls ++ (mods fd bs ++ poller_del fd ∷ close_fd fd ∷ []))
unfolding destroy release_calls
released_once handler fd s s' o h = elim (alive_or_gone handler fd s s' o h) [
  | inl (q, c, (bs, e)) ↦ (
    bs,
    ap (λ f. s'.calls ++ release_calls f) q.1
        ∙ ap (λ d. d ++ poller_del fd ∷ close_fd fd ∷ []) e
        ∙ append_assoc s.calls _ _,
  )
  | inr (x, f, c, (bs, e)) ↦ (bs, ap (λ g. s'.calls ++ release_calls g) f ∙ append-nil _ ∙ e)
]
