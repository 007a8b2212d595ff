-- ===== src/Timer/Tests.antt =====
-- Runs of the timers, and inputs at which their theorems hold.
use cxx_epoll_http_server.Common.{
  ℕ, ◌+◌, ◌*◌, ◌≤◌, ◌<◌, ◌≡◌, refl, some, List, [], ◌∷◌, ◌++◌, arith, ◌⊎◌,
}
use cxx_epoll_http_server.Decimal.{pos}
use cxx_epoll_http_server.Timer.{
  Entry, TimerHeap, new_heap, push, add, add_after, cancel, contains, insert_id, erase_id, run_cb,
  expire_entry, expire_loop, expire_round, expire, next_timeout_ms, ns_per_ms, to_int,
}
use cxx_epoll_http_server.Timer.Order.{AllFrom, IsSorted, IsValid}
use cxx_epoll_http_server.Timer.Expiry.{
  due_count, to_run, kept, kept_ids, run_all, LeavesTimers, AddsNoDue, expire_lem,
}
use cxx_epoll_http_server.Timer.Timeout.{next_timeout_ms_lem}

-- A callback writes its name down.
abbrev note : ℕ → TimerHeap ℕ → List ℕ → TimerHeap ℕ × List ℕ
note k h w = (h, w ++ k ∷ [])

note-LeavesTimers : LeavesTimers note 20
unfolding LeavesTimers
note-LeavesTimers k h g w = (refl, refl)

abbrev entry : ℕ → ℕ → ℕ → Entry ℕ
entry when k i = record { when = when; cb = some k; id = i }

-- The third timer of four is cancelled.
abbrev four : TimerHeap ℕ
four = record {
  heap = entry 10 7 2 ∷ entry 20 8 3 ∷ entry 20 9 1 ∷ entry 5000010 6 4 ∷ [];
  cancelled = 3 ∷ [];
  next_id = 5;
}

four-IsValid : IsValid four
four-IsValid = record {
  sorted = ground arith;
  distinct = ground arith;
  issued = ground arith;
  cancelled_issued = ground arith;
  positive = omega arith;
}

-- What a run of the timers computes with.
whole_timers : ℕ
unfolding add add_after cancel push contains insert_id erase_id run_cb expire_entry expire_loop
    due_count to_run kept kept_ids run_all expire_round expire next_timeout_ms to_int
whole_timers = 0

by_adding :
    (add_after 0 0 (some 8) (add 10 (some 7) (add 20 (some 9) new_heap).1).1).1.heap
    ≡ entry 0 8 3 ∷ entry 10 7 2 ∷ entry 20 9 1 ∷ []
unfolding whole_timers
by_adding = refl

cancelled_once : (cancel 3 four).cancelled ≡ 3 ∷ []
unfolding whole_timers
cancelled_once = refl

expire_lem_example :
    (expire note 20 10 four []
      ≡ some (record {
        timers = record { heap = entry 5000010 6 4 ∷ []; cancelled = []; next_id = 5 };
        world = 7 ∷ 9 ∷ [];
        fired = 2;
      }))
    × IsSorted (entry 10 7 2 ∷ entry 20 9 1 ∷ [])
    × AllFrom 21 (entry 5000010 6 4 ∷ [])
unfolding whole_timers
expire_lem_example = expire_lem note 20 note-LeavesTimers 10 four [] (omega arith) four-IsValid

-- A callback puts a timer back a while later.
abbrev again : ℕ → TimerHeap ℕ → List ℕ → TimerHeap ℕ × List ℕ
again k h w = ((add_after 20 1 (some k) h).1, w ++ k ∷ [])

late_push :
    (e : Entry ℕ) (es : List (Entry ℕ)) → 20 < e.when → due_count 20 (push e es) ≤ due_count 20 es
unfolding push due_count
late_push e [] l = ground arith
late_push e (x ∷ xs) l = ground (arith, late_push e xs l)

again-AddsNoDue : AddsNoDue again 20
unfolding AddsNoDue add_after add
again-AddsNoDue k h w =
    late_push (record { when = 20 + 1 * ns_per_ms; cb = some k; id = h.next_id }) h.heap
      (omega arith)

next_timeout_ms_lem_example :
    (r : ℕ) × (next_timeout_ms 10
        (record { heap = entry 5000010 6 4 ∷ []; cancelled = []; next_id = 5 })
      ≡ pos r)
    × ((r ≡ 0) ⊎ AllFrom (10 + r * ns_per_ms) (entry 5000010 6 4 ∷ []))
    × (5000010 < 10 + (r + 1) * ns_per_ms)
next_timeout_ms_lem_example =
    next_timeout_ms_lem 10 (entry 5000010 6 4) [] [] 5 (tt, tt) (omega arith)
