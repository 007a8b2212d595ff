-- ===== src/Logger/Async/Steps.antt =====
-- The threads of the logger of src/logger.cpp as steps on the state: those that append, the one
-- that writes, and the one that calls `start` and `stop`. What happens under the lock is one step.
-- An `append` is two, the look at `running` and the insertion, and any step may come between. The
-- steps are those in which `write` fails with nothing but EINTR.
pub mod Order
use cxx_epoll_http_server.Common.{
  ℕ, suc, ◌-◌, ◌+◌, ◌<◌, ◌≡◌, ◌≢◌, Bool, true, false, List, [], ◌∷◌, ◌++◌, Bytes, length,
}
use cxx_epoll_http_server.Logger.Async.{
  AsyncLogger, Files, new_logger, start, insert, Disk, swap, write_swapped, drain, last_drain,
  close_log,
}
use cxx_epoll_http_server.Logger.Async.Writing.{Takes}

-- Where the writing thread is: not started, at the head of its loop, in `writeAll`, behind the
-- loop, or at its end; then `stop` has joined it, and has drained and closed the log.
pub data Phase : Type 0 where
  idle top writing leaving exited joined stopped : Phase

-- `in_flight` is the number of threads in `append` behind their look at `running`; `late` remembers
-- what they insert behind the last drain.
pub record World : Type 0 where
  pub log : AsyncLogger
  pub phase : Phase
  pub in_flight : ℕ
  pub late : Bytes

abbrev pub new_world : Files → World
new_world d = record { log = new_logger d; phase = idle; in_flight = 0; late = [] }

unfoldable pub begin_log : Bool → Bytes → ℕ → ℕ → World → World
begin_log opens path flush_ms roll_bytes w = record w {
  log = start opens path flush_ms roll_bytes w.log;
  phase = top;
}

unfoldable pub late_bytes : Phase → Bytes → Bytes
late_bytes stopped d = d
late_bytes idle d = []
late_bytes top d = []
late_bytes writing d = []
late_bytes leaving d = []
late_bytes exited d = []
late_bytes joined d = []

unfoldable pub insert_line : Bytes → World → World
insert_line d w = record w {
  log = insert d w.log;
  in_flight = w.in_flight - 1;
  late = w.late ++ late_bytes w.phase d;
}

unfoldable pub request_stop : World → World
request_stop w = record w { log = record w.log { stop_requested = true } }

unfoldable pub join_thread : World → World
join_thread w = record w { log = record w.log { running = false }; phase = joined }

pub data Step (w : World) : World → Type 0 where
  begin :
      (opens : Bool) (path : Bytes) (flush_ms roll_bytes : ℕ)
      → w.phase ≡ idle
      → Step w (begin_log opens path flush_ms roll_bytes w)
  look : w.log.running ≡ true → Step w (record w { in_flight = suc w.in_flight })
  add : (d : Bytes) → 0 < w.in_flight → d ≢ [] → Step w (insert_line d w)
  take_buffer :
      w.phase ≡ top → w.log.current ≢ [] → Step w (record w { log = swap w.log; phase = writing })
  write :
      (k : Disk)
      → w.phase ≡ writing
      → Takes k.writes (length w.log.to_write)
      → Step w (record w { log = write_swapped k w.log; phase = top })
  leave :
      w.phase ≡ top
      → w.log.current ≡ []
      → w.log.stop_requested ≡ true
      → Step w (record w { phase = leaving })
  exit :
      (k : Disk)
      → w.phase ≡ leaving
      → Takes k.writes (length w.log.current)
      → Step w (record w { log = drain k w.log; phase = exited })
  request : w.log.running ≡ true → Step w (request_stop w)
  join : w.phase ≡ exited → Step w (join_thread w)
  finish :
      (k k' : Disk)
      → w.phase ≡ joined
      → Takes k.writes (length w.log.current)
      → Step w (record w { log = close_log (last_drain k k' w.log); phase = stopped })

pub data Reach (d : Files) : World → Type 0 where
  new : Reach d (new_world d)
  next : {w w' : World} → Reach d w → Step w w' → Reach d w'
