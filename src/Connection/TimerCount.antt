-- ===== src/Connection/TimerCount.antt =====
-- What the methods of a connection do to the timers of its loop: handling an event leaves them as
-- they are, as only the callback of a timer adds one again.
use cxx_epoll_http_server.Common.{
  ℕ, suc, ◌≤◌, ◌-◌, ◌*◌, ◌≡◌, refl, ◌∙◌, ap, ◌||◌, length, leb, ◌==◌, add_size, if_cases, arith,
}
use cxx_epoll_http_server.Http.{HttpRequest, HttpResponse}
use cxx_epoll_http_server.Timer.{TimerHeap, add, add_after, cancel}
use cxx_epoll_http_server.Connection.{
  Scene, close, cancel_idle, enable_writing, handle_error, handle_write, handle_read, ns_per_s,
  arm_idle_timer, on_idle_timer,
}
use cxx_epoll_http_server.Connection.Handlers.{
  Tracks, Result, handle_error-Tracked, handle_write-Tracked, handle_read-Tracked,
}
use cxx_epoll_http_server.Connection.Idle.{length-push}

abbrev pub SameHeap : Scene → Scene → Type 0
SameHeap s s' = s'.timers.heap ≡ s.timers.heap

pub close-heap : (s : Scene) → SameHeap s (close s)
unfolding close cancel_idle cancel
close-heap s =
    if_cases (SameHeap s) s.conn.is_closed (λ _. refl)
      (λ _.
        if_cases Same (s.conn.idle_timer == 0) (λ _. refl)
          (λ _.
            if_cases Same ((s.conn.idle_timer == 0) || leb s.timers.next_id s.conn.idle_timer)
              (λ _. refl) (λ _. refl)))
  where
    Same : TimerHeap ℕ → Type 0
    Same h = h.heap ≡ s.timers.heap

SameHeap-Tracks : Tracks SameHeap
unfolding enable_writing
SameHeap-Tracks = record {
  quiet = λ s s' q. q.4;
  trans = λ s t u p q. q ∙ p;
  closes = close-heap;
  enables = λ b s. if_cases (SameHeap s) s.conn.is_closed (λ _. refl) (λ _. refl);
}

pub handle_error-SameHeap : (s : Scene) → SameHeap s (handle_error s)
handle_error-SameHeap = handle_error-Tracked SameHeap SameHeap-Tracks

pub handle_write-SameHeap : (s : Scene) → SameHeap s (handle_write s)
handle_write-SameHeap = handle_write-Tracked SameHeap SameHeap-Tracks

pub handle_read-SameHeap :
    (handler : Scene → HttpRequest → HttpResponse → HttpResponse) (t : ℕ) (s : Scene)
    → Result SameHeap s (handle_read handler t s)
handle_read-SameHeap = handle_read-Tracked SameHeap SameHeap-Tracks

pub arm_idle_timer-length :
    (t : ℕ) (s : Scene) → length (arm_idle_timer t s).timers.heap ≤ suc (length s.timers.heap)
unfolding arm_idle_timer add_after add
arm_idle_timer-length t s =
    if_cases (λ (x : Scene). length x.timers.heap ≤ suc (length s.timers.heap))
      (s.conn.is_closed || (s.conn.idle_timeout_s == 0)) (λ _. omega arith)
      (λ _. omega (arith, length-push _ s.timers.heap))

pub on_idle_timer-length :
    (t : ℕ) (s : Scene) → length (on_idle_timer t s).timers.heap ≤ suc (length s.timers.heap)
unfolding on_idle_timer
on_idle_timer-length t s =
    if_cases (λ (x : Scene). length x.timers.heap ≤ suc (length s.timers.heap))
      (leb (s.conn.idle_timeout_s * ns_per_s) (t - s.conn.last_activity))
      (λ _. omega (
        arith,
        ap length (
            close-heap (record s {
              conn = record s.conn { idle_timer = 0 };
              counters = record s.counters {
                timeouts_closed = add_size s.counters.timeouts_closed 1;
              };
            })),
      ))
      (λ _. arm_idle_timer-length t s)
