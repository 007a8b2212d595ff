-- ===== src/Logger/Tests.antt =====
-- Runs of the logger, and its theorems there.
use cxx_epoll_http_server.Common.{
  ◌+◌, ◌≤◌, ◌<◌, ◌≡◌, max, refl, true, false, none, some, [], ◌∷◌, ◌++◌, Bytes, codes, length,
  arith, beq,
}
use cxx_epoll_http_server.Kernel.{eintr, took, refused}
use cxx_epoll_http_server.Logger.{
  LogLevel, Stamp, stack_buf, log_line, print_behind, head_text, zero_padded, level_name,
  space_padded, place_text, base_name, has_byte,
}
use cxx_epoll_http_server.Decimal.{to_string}
use cxx_epoll_http_server.Logger.Line.{log_line_lem, fitted, line_text}
use cxx_epoll_http_server.Logger.Async.{
  AsyncLogger, Files, file, new_logger, put, content, start, insert, open_log, to_stdout, is_empty,
  is_closed, roll_if_needed, emit, Disk, swap, write_swapped, drain, last_drain, close_log,
  write_loop, write_all,
}
use cxx_epoll_http_server.Logger.Async.Rolling.{write_all-files, write_all-bound}
use cxx_epoll_http_server.Logger.Async.Steps.{
  Phase, stopped, World, new_world, begin_log, insert_line, late_bytes, request_stop, join_thread,
  begin, look, add, take_buffer, write, leave, exit, request, join, finish, Reach, new, next,
}
use cxx_epoll_http_server.Logger.Async.Steps.Order.{log_in_order, stop_writes_all}

abbrev noon : Stamp
noon = record { year = 2024; mon = 2; mday = 29; hour = 12; min = 5; sec = 9; msec = 42 }

log_line_test :
    log_line noon LogLevel.info (codes "src/a.cpp") 7 (some (codes "up"))
    ≡ some (codes "2024-02-29 12:05:09.042 INFO  a.cpp:7 up" ++ 10 ∷ [])
unfolding log_line print_behind head_text zero_padded to_string level_name space_padded place_text
    base_name has_byte
log_line_test = refl

log_line_lem_example :
    (log_line noon LogLevel.info (codes "src/a.cpp") 7 (some (codes "up"))
      ≡ some (fitted (line_text noon LogLevel.info (codes "src/a.cpp") 7 (codes "up"))))
    × (length (fitted (line_text noon LogLevel.info (codes "src/a.cpp") 7 (codes "up")))
        < stack_buf)
log_line_lem_example = log_line_lem noon LogLevel.info (codes "src/a.cpp") 7 (codes "up")

-- One old file of five bytes.
abbrev old_files : Files
old_files = put (λ _. none) (codes "log") (1 ∷ 2 ∷ 3 ∷ 4 ∷ 5 ∷ [])

abbrev slow_disk : Disk
slow_disk = record {
  renames = true;
  opens = true;
  stamp = codes ".1";
  writes = took 1 ∷ refused eintr ∷ took 1 ∷ [];
}

abbrev quick_disk : Disk
quick_disk = record { renames = true; opens = true; stamp = codes ".2"; writes = [] }

abbrev begun : World
begun = begin_log true (codes "log") 1000 10 (new_world old_files)

abbrev looked : World
looked = record (record begun { in_flight = 1 }) { in_flight = 2 }

abbrev added : World
added = insert_line (6 ∷ 7 ∷ []) looked

abbrev requested : World
requested = request_stop (record added { log = swap added.log; phase = Phase.writing })

abbrev written_out : World
written_out = record requested { log = write_swapped slow_disk requested.log; phase = Phase.top }

abbrev exited : World
exited = record (record written_out { phase = Phase.leaving }) {
  log = drain quick_disk written_out.log;
  phase = Phase.exited;
}

abbrev ended : World
ended = record (join_thread exited) {
  log = close_log (last_drain quick_disk quick_disk (join_thread exited).log);
  phase = stopped;
}

-- A line comes in behind the last drain.
abbrev too_late : World
too_late = insert_line (8 ∷ []) ended

too_late_reached : Reach old_files too_late
unfolding begin_log start open_log to_stdout is_empty beq insert_line insert swap request_stop
    write_swapped write_all write_loop drain join_thread last_drain close_log is_closed
    roll_if_needed late_bytes emit put content
too_late_reached =
    next
      (next
        (next
          (next
            (next
              (next
                (next
                  (next
                    (next
                      (next (next (next new (begin true (codes "log") 1000 10 refl)) (look refl))
                        (look refl))
                      (add (6 ∷ 7 ∷ []) (omega arith) (λ e. cc)))
                    (take_buffer refl (λ e. cc)))
                  (request refl))
                (write slow_disk refl (refl, refl)))
              (leave refl refl refl))
            (exit quick_disk refl refl))
          (join refl))
        (finish quick_disk quick_disk refl refl))
      (add (8 ∷ []) (omega arith) (λ e. cc))

log_in_order_example :
    too_late.log.accepted ≡ too_late.log.written ++ (too_late.log.to_write ++ too_late.log.current)
log_in_order_example = log_in_order old_files too_late too_late_reached

stop_writes_all_example : too_late.log.accepted ≡ too_late.log.written ++ (8 ∷ [])
unfolding insert_line join_thread request_stop begin_log late_bytes
stop_writes_all_example = stop_writes_all old_files too_late too_late_reached refl

-- The old file has five bytes, which are not counted.
abbrev counting : AsyncLogger
counting = record (new_logger old_files) {
  path = codes "log";
  sink = file;
  roll_bytes = 3;
  written_this_file = 2;
}

write_all-files_example :
    let x = write_all slow_disk (6 ∷ 7 ∷ []) counting in
    (x.files (codes "log") ≡ some (6 ∷ 7 ∷ []))
    × (x.files (codes "log.1") ≡ some (1 ∷ 2 ∷ 3 ∷ 4 ∷ 5 ∷ []))
    × (x.printed ≡ [])
    × (x.written_this_file ≡ 2)
unfolding write_loop put to_stdout is_empty beq
write_all-files_example =
    write_all-files slow_disk (1 ∷ 2 ∷ 3 ∷ 4 ∷ 5 ∷ []) (6 ∷ 7 ∷ []) counting refl refl refl
      (λ e. cc) (λ e. cc)

-- `rename` fails, and the old five bytes are gone.
abbrev stubborn_disk : Disk
stubborn_disk = record slow_disk { renames = false }

old_contents_lost :
    let x = write_all stubborn_disk (6 ∷ 7 ∷ []) counting in
    (x.files (codes "log") ≡ some (6 ∷ 7 ∷ []))
    × (x.files (codes "log.1") ≡ none)
    × (x.printed ≡ [])
    × (x.written_this_file ≡ 2)
unfolding write_loop put to_stdout is_empty beq
old_contents_lost =
    write_all-files stubborn_disk (1 ∷ 2 ∷ 3 ∷ 4 ∷ 5 ∷ []) (6 ∷ 7 ∷ []) counting refl refl refl
      (λ e. cc) (λ e. cc)

write_all-bound_example :
    let x = write_all slow_disk (6 ∷ 7 ∷ []) counting in
    (c' : Bytes) × (x.files (codes "log") ≡ some c')
    × (length c' ≤ 3 + x.written_this_file)
    × (x.written_this_file ≤ max 3 2)
unfolding put to_stdout is_empty beq
write_all-bound_example =
    write_all-bound slow_disk 3 (1 ∷ 2 ∷ 3 ∷ 4 ∷ 5 ∷ []) (6 ∷ 7 ∷ []) counting refl refl refl
      (λ e. cc) refl (λ e. cc) (omega arith) (omega arith)
