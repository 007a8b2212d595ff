-- ===== src/EventLoop/Wakeup.antt =====
-- No task is lost, overtaken or left behind by a loop that sleeps, nor is a call of `quit`.
use cxx_epoll_http_server.Common.{
  ℕ, ◌+◌, ◌<◌, ◌≡◌, ◌≢◌, refl, sym, ap, ◌∙◌, true, false, List, [], ◌∷◌, ◌++◌, arith, append_assoc,
  append-nil, if_cases,
}
use cxx_epoll_http_server.EventLoop.{
  Phase, waiting, handling, calling, ended, EventLoop, next_phase, quit_other, quit_own, is_calling,
  push_task, wakeup, queue_in_loop, handle_wakeup, swap_pending, run_task, Step, push_other,
  wake_other, queue_own, wait_ends, drain, swap, run, finish, quit_elsewhere, quit_here,
  quit_in_handler, Reach, start, next,
}

pub record IsValid (s : EventLoop) : Type 0 where
  pub order : s.queued ≡ s.ran ++ (s.batch ++ s.pending)
  pub idle : s.phase ≢ calling → s.batch ≡ []
  pub awake : s.phase ≢ handling → s.phase ≢ ended → s.pending ≢ [] → 0 < s.wake + s.to_wake
  pub stopping : s.phase ≡ waiting → s.quits ≡ true → s.by_signal ≡ false → 0 < s.wake + s.to_wake

push-order :
    (queued ran batch pending : List ℕ) (t : ℕ)
    → queued ≡ ran ++ (batch ++ pending)
    → queued ++ t ∷ [] ≡ ran ++ (batch ++ (pending ++ t ∷ []))
push-order queued ran batch pending t e =
    ap (λ q. q ++ t ∷ []) e ∙ append_assoc ran _ _ ∙ ap (λ q. ran ++ q) (append_assoc batch _ _)

queue_own-IsValid :
    (s : EventLoop) (t : ℕ)
    → s.phase ≢ waiting
    → s.phase ≢ ended
    → IsValid s
    → IsValid (queue_in_loop true t s)
unfolding queue_in_loop push_task wakeup is_calling
queue_own-IsValid s t n m v =
    if_cases IsValid (is_calling s.phase)
      (λ c. record {
        order = push-order s.queued s.ran s.batch s.pending t v.order;
        idle = v.idle;
        awake = λ h l k. omega arith;
        stopping = λ h. absurd (n h);
      })
      (λ c. record {
        order = push-order s.queued s.ran s.batch s.pending t v.order;
        idle = v.idle;
        awake = λ h l k. absurd (only_handling s.phase n h l c);
        stopping = λ h. absurd (n h);
      })
  where
    only_handling : (p : Phase) → p ≢ waiting → p ≢ handling → p ≢ ended → is_calling p ≡ false → ⊥
    only_handling waiting n h l c = n refl
    only_handling handling n h l c = h refl
    only_handling calling n h l c = cc
    only_handling ended n h l c = l refl

-- The end of a round, which waits only where `quit` was not called.
finish-IsValid :
    (s : EventLoop)
    → s.phase ≡ calling
    → s.batch ≡ []
    → IsValid s
    → IsValid (record s { phase = next_phase s.quits })
unfolding next_phase
finish-IsValid s e b v = record {
  order = v.order;
  idle = λ h. b;
  awake = λ h l k. v.awake (λ c. cc) (λ c. cc) k;
  stopping = λ h q. absurd (ground (arith, h, q));
}

Step-IsValid : {s s' : EventLoop} → Step s s' → IsValid s → IsValid s'
unfolding push_task wakeup handle_wakeup swap_pending run_task quit_other quit_own
Step-IsValid {s} (push_other t) v = record {
  order = push-order s.queued s.ran s.batch s.pending t v.order;
  idle = v.idle;
  awake = λ h l k. omega arith;
  stopping = λ h q b. omega arith;
}
Step-IsValid {s} (wake_other l) v = record {
  order = v.order;
  idle = v.idle;
  awake = λ h m k. omega arith;
  stopping = λ h q b. omega arith;
}
Step-IsValid {s} (queue_own t n m) v = queue_own-IsValid s t n m v
Step-IsValid {s} (wait_ends e) v = record {
  order = v.order;
  idle = λ h. v.idle (λ c. cc);
  awake = λ h l k. absurd (h refl);
  stopping = λ h. cc;
}
Step-IsValid {s} (drain e) v = record {
  order = v.order;
  idle = v.idle;
  awake = λ h l k. absurd (h e);
  stopping = λ h. cc;
}
Step-IsValid {s} (swap e) v = record {
  order =
      v.order
      ∙ ap (λ b. s.ran ++ (b ++ s.pending)) (v.idle (λ c. cc))
      ∙ ap (λ q. s.ran ++ q) (sym (append-nil s.pending));
  idle = λ h. absurd (h refl);
  awake = λ h l k. absurd (k refl);
  stopping = λ h. cc;
}
Step-IsValid {s} (run t ts e b) v = record {
  order = v.order ∙ ap (λ q. s.ran ++ (q ++ s.pending)) b ∙ sym (append_assoc s.ran _ _);
  idle = λ h. absurd (h e);
  awake = v.awake;
  stopping = λ h. cc;
}
Step-IsValid {s} (finish e b) v = finish-IsValid s e b v
Step-IsValid {s} quit_elsewhere v = record {
  order = v.order;
  idle = v.idle;
  awake = λ h l k. omega arith;
  stopping = λ h q b. omega arith;
}
Step-IsValid {s} (quit_here n) v = record {
  order = v.order;
  idle = v.idle;
  awake = v.awake;
  stopping = λ h. absurd (n h);
}
Step-IsValid {s} quit_in_handler v = record {
  order = v.order;
  idle = v.idle;
  awake = v.awake;
  stopping = λ h q b. absurd (ground (arith, b));
}

Reach-IsValid : {s : EventLoop} → Reach s → IsValid s
Reach-IsValid start = record {
  order = refl;
  idle = λ h. refl;
  awake = λ h l k. absurd (k refl);
  stopping = λ h q. cc;
}
Reach-IsValid (next r t) = Step-IsValid t (Reach-IsValid r)

-- In every state that the threads' steps reach, however they interleave, a loop that waits while
-- tasks are queued is woken: the eventfd's count is not 0, or a thread that queued a task is about
-- to write it.
pub no_lost_wakeup :
    (s : EventLoop) → Reach s → s.phase ≡ waiting → s.pending ≢ [] → 0 < s.wake + s.to_wake
no_lost_wakeup s r w p = (Reach-IsValid r).awake (λ h. cc) (λ h. cc) p

-- In every state that the threads' steps reach, the tasks queued so far are those that were run,
-- those that the swap took, and those that are pending, in this order: none is lost, run twice or
-- overtaken.
pub tasks_in_order : (s : EventLoop) → Reach s → s.queued ≡ s.ran ++ (s.batch ++ s.pending)
tasks_in_order s r = (Reach-IsValid r).order

-- In every state that the threads' steps reach, a loop that waits after `quit` was called is
-- woken: the eventfd's count is not 0, or a thread is about to write it. The exception is `quit`
-- in the handler of a signal on the loop's own thread, which does not write.
pub no_lost_quit :
    (s : EventLoop)
    → Reach s
    → s.phase ≡ waiting
    → s.quits ≡ true
    → s.by_signal ≡ false
    → 0 < s.wake + s.to_wake
no_lost_quit s r w q b = (Reach-IsValid r).stopping w q b
