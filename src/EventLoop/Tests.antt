-- ===== src/EventLoop/Tests.antt =====
-- A run of the task queue, and its theorems there.
use cxx_epoll_http_server.Common.{◌+◌, ◌<◌, ◌≡◌, refl, true, false, [], ◌∷◌, ◌++◌, arith}
use cxx_epoll_http_server.EventLoop.{
  waiting, EventLoop, is_calling, push_task, wakeup, queue_in_loop, handle_wakeup, swap_pending,
  run_task, next_phase, quit_other, quit_own, quit_elsewhere, quit_in_handler, new_loop, push_other,
  wake_other, queue_own, wait_ends, drain, swap, run, finish, Reach, start, next,
}
use cxx_epoll_http_server.EventLoop.Wakeup.{no_lost_wakeup, no_lost_quit, tasks_in_order}

-- Another thread has queued task 7, the loop runs it, the task queues 8, and the loop sleeps.
abbrev asleep : EventLoop
asleep = record {
  phase = waiting;
  pending = 8 ∷ [];
  batch = [];
  wake = 1;
  to_wake = 0;
  queued = 7 ∷ 8 ∷ [];
  ran = 7 ∷ [];
  quits = false;
  by_signal = false;
}

asleep_reached : Reach asleep
unfolding push_task wakeup queue_in_loop is_calling handle_wakeup swap_pending run_task next_phase
asleep_reached =
    next
      (next
        (next
          (next
            (next
              (next (next (next start (push_other 7)) (wake_other (omega arith))) (wait_ends refl))
              (drain refl))
            (swap refl))
          (run 7 [] refl refl))
        (queue_own 8 (λ h. cc) (λ h. cc)))
      (finish refl refl)

no_lost_wakeup_example : 0 < asleep.wake + asleep.to_wake
no_lost_wakeup_example = no_lost_wakeup asleep asleep_reached refl (λ h. cc)

tasks_in_order_example : asleep.queued ≡ asleep.ran ++ (asleep.batch ++ asleep.pending)
tasks_in_order_example = tasks_in_order asleep asleep_reached

no_lost_quit_example : 0 < (quit_other new_loop).wake + (quit_other new_loop).to_wake
unfolding quit_other
no_lost_quit_example = no_lost_quit (quit_other new_loop) (next start quit_elsewhere) refl refl refl

-- A signal while the loop waits leaves it waiting, with nothing to wake it.
abbrev signalled : EventLoop
signalled = quit_own true new_loop

signalled_reached : Reach signalled
signalled_reached = next start quit_in_handler

signal_sleeps :
    (signalled.phase ≡ waiting)
    × (signalled.quits ≡ true)
    × (signalled.wake + signalled.to_wake ≡ 0)
unfolding quit_own
signal_sleeps = (refl, refl, refl)
