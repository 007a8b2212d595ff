-- ===== src/Connection/Release.antt =====
-- What each method of a connection does to its descriptor.
use cxx_epoll_http_server.Common.{
  ℕ, ◌-◌, ◌*◌, refl, ap, inl, inr, Bool, ◌||◌, [], ◌∷◌, ◌++◌, ◌==◌, leb, if_cases, arith,
}
use cxx_epoll_http_server.Http.{HttpRequest, HttpResponse}
use cxx_epoll_http_server.Connection.{
  Scene, close, handle_error, enable_writing, handle_write, ns_per_s, handle_read, arm_idle_timer,
  on_idle_timer, release_calls, remove_connection, mod_calls,
}
use cxx_epoll_http_server.Connection.Lifecycle.{Life, Same-Life, Life-trans, Life-refl}
use cxx_epoll_http_server.Connection.Handlers.{
  Tracks, Result, handle_error-Tracked, handle_write-Tracked, handle_read-Tracked,
}

close-Life : (s : Scene) → Life s (close s)
unfolding close remove_connection release_calls
close-Life s =
    if_cases (Life s) s.conn.is_closed (λ _. Same-Life s s (refl, refl, refl, refl))
      (λ n. record {
        while_open = λ fd o. inr (
          refl,
          refl,
          ap (λ f. remove_connection f s.connections) o.1,
          ([], ap (λ f. s.calls ++ release_calls f) o.1),
        );
        when_closed = λ c. absurd (ground (arith, c, n));
      })

enable_writing-Life : (b : Bool) (s : Scene) → Life s (enable_writing b s)
unfolding enable_writing mod_calls
enable_writing-Life b s =
    if_cases (Life s) s.conn.is_closed (λ _. Same-Life s s (refl, refl, refl, refl))
      (λ n. record {
        while_open = λ fd o. inl (o, refl, (b ∷ [], ap (λ f. s.calls ++ mod_calls f b) o.1));
        when_closed = λ c. absurd (ground (arith, c, n));
      })

Life-Tracks : Tracks Life
Life-Tracks = record {
  quiet = λ s s' q. Same-Life s s' (q.0, q.1, q.2, q.3);
  trans = Life-trans;
  closes = close-Life;
  enables = enable_writing-Life;
}

pub arm_idle_timer-Life : (t : ℕ) (s : Scene) → Life s (arm_idle_timer t s)
unfolding arm_idle_timer
arm_idle_timer-Life t s =
    if_cases (Life s) (s.conn.is_closed || (s.conn.idle_timeout_s == 0)) (λ _. Life-refl s)
      (λ _. Same-Life s _ (refl, refl, refl, refl))

pub on_idle_timer-Life : (t : ℕ) (s : Scene) → Life s (on_idle_timer t s)
unfolding on_idle_timer
on_idle_timer-Life t s =
    if_cases (Life s) (leb (s.conn.idle_timeout_s * ns_per_s) (t - s.conn.last_activity))
      (λ _. Life-trans s _ _ (Same-Life s _ (refl, refl, refl, refl)) (close-Life _))
      (λ _. arm_idle_timer-Life t s)

pub handle_error-Life : (s : Scene) → Life s (handle_error s)
handle_error-Life = handle_error-Tracked Life Life-Tracks

pub handle_write-Life : (s : Scene) → Life s (handle_write s)
handle_write-Life = handle_write-Tracked Life Life-Tracks

pub handle_read-Life :
    (handler : Scene → HttpRequest → HttpResponse → HttpResponse) (t : ℕ) (s : Scene)
    → Result Life s (handle_read handler t s)
handle_read-Life = handle_read-Tracked Life Life-Tracks
