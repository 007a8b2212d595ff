-- ===== src/EventLoop.antt =====
-- include/ws/event_loop.h and src/event_loop.cpp: the task queue of an event loop, which other
-- threads and the loop's own fill, and the eventfd that wakes the loop. The steps of the threads
-- are the constructors of a relation on the state; a thread that queues a task does so in two, one
-- under the lock and one that writes the eventfd.
pub mod Wakeup
mod Tests
use cxx_epoll_http_server.Common.{
  ℕ, zero, suc, ◌+◌, ◌-◌, ◌^◌, ◌<◌, ◌≡◌, ◌≢◌, Bool, true, false, not, ◌||◌, List, [], ◌∷◌, ◌++◌,
  min, if◌then◌else◌,
}

-- Where the loop's thread is: in `epoll_wait`, at the events and the timers, in `doPendingFunctors`
-- behind the swap, or behind the loop.
pub data Phase : Type 0 where
  waiting handling calling ended : Phase

-- A task is a number. `batch` is what the swap took and is not run yet, `wake` the count of the
-- eventfd, and `to_wake` the number of threads between the lock and the write. `queued` and `ran`
-- remember all tasks, in the order in which they were queued and run. `quits` is the flag of `quit`,
-- and `by_signal` remembers that a signal's handler called it on the loop's own thread.
pub record EventLoop : Type 0 where
  pub phase : Phase
  pub pending : List ℕ
  pub batch : List ℕ
  pub wake : ℕ
  pub to_wake : ℕ
  pub queued : List ℕ
  pub ran : List ℕ
  pub quits : Bool
  pub by_signal : Bool

abbrev pub new_loop : EventLoop
new_loop = record {
  phase = waiting;
  pending = [];
  batch = [];
  wake = 0;
  to_wake = 0;
  queued = [];
  ran = [];
  quits = false;
  by_signal = false;
}

unfoldable pub is_calling : Phase → Bool
is_calling waiting = false
is_calling handling = false
is_calling calling = true
is_calling ended = false

unfoldable pub push_task : ℕ → EventLoop → EventLoop
push_task t s = record s { pending = s.pending ++ t ∷ []; queued = s.queued ++ t ∷ [] }

-- The write fails where the count is at its greatest.
unfoldable pub wakeup : EventLoop → EventLoop
wakeup s = record s { wake = min (s.wake + 1) (2 ^ 64 - 2) }

-- `queueInLoop`, whole.
unfoldable pub queue_in_loop : Bool → ℕ → EventLoop → EventLoop
queue_in_loop in_loop t s =
    let s' = push_task t s in if not in_loop || is_calling s.phase then wakeup s' else s'

-- A read takes the whole count.
unfoldable pub handle_wakeup : EventLoop → EventLoop
handle_wakeup s = record s { wake = 0 }

unfoldable pub swap_pending : EventLoop → EventLoop
swap_pending s = record s { phase = calling; batch = s.pending; pending = [] }

unfoldable pub run_task : ℕ → List ℕ → EventLoop → EventLoop
run_task t ts s = record s { batch = ts; ran = s.ran ++ t ∷ [] }

-- The test of `loop` behind a round.
unfoldable pub next_phase : Bool → Phase
next_phase quits = if quits then ended else waiting

-- `quit` on another thread, up to the write.
unfoldable pub quit_other : EventLoop → EventLoop
quit_other s = record s { quits = true; to_wake = s.to_wake + 1 }

-- `quit` on the loop's thread, which does not write.
unfoldable pub quit_own : Bool → EventLoop → EventLoop
quit_own by_signal s = record s { quits = true; by_signal = s.by_signal || by_signal }

-- A signal that comes in `epoll_wait` does not end the wait: `Epoller::wait` calls it again.
pub data Step (s : EventLoop) : EventLoop → Type 0 where
  push_other : (t : ℕ) → Step s (record (push_task t s) { to_wake = s.to_wake + 1 })
  wake_other : 0 < s.to_wake → Step s (record (wakeup s) { to_wake = s.to_wake - 1 })
  queue_own : (t : ℕ) → s.phase ≢ waiting → s.phase ≢ ended → Step s (queue_in_loop true t s)
  wait_ends : s.phase ≡ waiting → Step s (record s { phase = handling })
  drain : s.phase ≡ handling → Step s (handle_wakeup s)
  swap : s.phase ≡ handling → Step s (swap_pending s)
  run : (t : ℕ) (ts : List ℕ) → s.phase ≡ calling → s.batch ≡ t ∷ ts → Step s (run_task t ts s)
  finish : s.phase ≡ calling → s.batch ≡ [] → Step s (record s { phase = next_phase s.quits })
  quit_elsewhere : Step s (quit_other s)
  quit_here : s.phase ≢ waiting → Step s (quit_own false s)
  quit_in_handler : Step s (quit_own true s)

pub data Reach : EventLoop → Type 0 where
  start : Reach new_loop
  next : {s s' : EventLoop} → Reach s → Step s s' → Reach s'
