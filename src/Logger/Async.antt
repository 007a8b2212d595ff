-- ===== src/Logger/Async.antt =====
-- The asynchronous logger of include/ws/logger.h and src/logger.cpp: callers append to one buffer
-- under a lock, and a thread swaps it with another and writes that to the file. The files are a
-- function from names to contents; `sink` is the descriptor. What `write`, `open` and `rename` answer are
-- arguments; a list of answers of `write` that ends stands for a full disk. `accepted` remembers
-- all bytes that were appended, and `written` all that the kernel took, in order.
pub mod Writing
pub mod Naming
pub mod Rolling
pub mod Drains
pub mod Steps
use cxx_epoll_http_server.Common.{
  ℕ, zero, suc, ◌+◌, ◌-◌, ◌*◌, ◌<◌, ◌≡◌, ◌≢◌, Bool, true, false, not, ◌&&◌, ◌||◌, Option, none,
  some, List, [], ◌∷◌, ◌++◌, Bytes, codes, beq, length, take, drop, min, ltb, leb, ◌==◌,
  if◌then◌else◌, add_size,
}
use cxx_epoll_http_server.Kernel.{eintr, WriteResult, took, refused}
use cxx_epoll_http_server.Logger.{LogLevel}

abbrev pub Files : Type 0
Files = Bytes → Option Bytes

unfoldable pub put : Files → Bytes → Bytes → Files
put d name content m = if beq m name then some content else d m

unfoldable pub remove : Files → Bytes → Files
remove d name m = if beq m name then none else d m

abbrev pub bytes_of : Option Bytes → Bytes
bytes_of none = []
bytes_of (some c) = c

-- A file that is not there has no bytes.
unfoldable pub content : Files → Bytes → Bytes
content d name = bytes_of (d name)

-- `rename`, with whether it succeeds where the file is there: a file of the new name is replaced.
unfoldable pub rename : Bool → Files → Bytes → Bytes → Files
rename renames d from to = elim (d from) [
  | none ↦ d
  | some c ↦ if renames then put (remove d from) to c else d
]

-- The descriptor: -1, STDOUT_FILENO, or one that `open` gave for the path.
pub data Sink : Type 0 where
  no_sink stdout file : Sink

pub record AsyncLogger : Type 0 where
  pub current : Bytes
  pub to_write : Bytes
  pub path : Bytes
  pub flush_ms : ℕ
  pub roll_bytes : ℕ
  pub written_this_file : ℕ
  pub sink : Sink
  pub running : Bool
  pub stop_requested : Bool
  pub level : LogLevel
  pub bytes_written : ℕ
  pub enqueued_bytes : ℕ
  pub files : Files
  pub printed : Bytes
  pub stdout_open : Bool
  pub accepted : Bytes
  pub written : Bytes

abbrev pub buffer_size : ℕ
buffer_size = 64 * 1024

abbrev pub default_roll_bytes : ℕ
default_roll_bytes = 256 * 1024 * 1024

abbrev pub new_logger : Files → AsyncLogger
new_logger d = record {
  current = [];
  to_write = [];
  path = [];
  flush_ms = 1000;
  roll_bytes = default_roll_bytes;
  written_this_file = 0;
  sink = no_sink;
  running = false;
  stop_requested = false;
  level = LogLevel.info;
  bytes_written = 0;
  enqueued_bytes = 0;
  files = d;
  printed = [];
  stdout_open = true;
  accepted = [];
  written = [];
}

unfoldable pub set_level : LogLevel → AsyncLogger → AsyncLogger
set_level lv l = record l { level = lv }

unfoldable pub is_empty : Bytes → Bool
is_empty [] = true
is_empty (c ∷ s) = false

-- `path_.empty() || path_ == "-"`.
unfoldable pub to_stdout : Bytes → Bool
to_stdout path = is_empty path || beq path (codes "-")

-- `open` of the path to append; the flag tells whether it succeeds.
unfoldable pub open_log : Bool → AsyncLogger → AsyncLogger
open_log opens l =
    if to_stdout l.path || not opens
    then record l { sink = stdout }
    else record l { sink = file; files = put l.files l.path (content l.files l.path) }

unfoldable pub start : Bool → Bytes → ℕ → ℕ → AsyncLogger → AsyncLogger
start opens path flush_ms roll_bytes l =
    if l.running
    then l
    else record (open_log opens (record l {
      path = path;
      flush_ms = flush_ms;
      roll_bytes = roll_bytes;
      written_this_file = 0;
      stop_requested = false;
      current = [];
      to_write = [];
    })) { running = true }

-- `append`, where it finds the logger running: what it does under the lock.
unfoldable pub insert : Bytes → AsyncLogger → AsyncLogger
insert d l = record l {
  current = l.current ++ d;
  enqueued_bytes = add_size l.enqueued_bytes (length d);
  accepted = l.accepted ++ d;
}

unfoldable pub append : Bytes → AsyncLogger → AsyncLogger
append d l = if not l.running || is_empty d then l else insert d l

-- Whether `append` wakes the thread.
unfoldable pub notifies : AsyncLogger → Bool
notifies l = leb buffer_size (length l.current)

-- What is behind the descriptor gets the bytes.
unfoldable pub emit : Bytes → AsyncLogger → AsyncLogger
emit d l = elim l.sink [
  | no_sink ↦ l
  | stdout ↦ record l { printed = (if l.stdout_open then l.printed ++ d else l.printed) }
  | file ↦ record l { files = put l.files l.path (content l.files l.path ++ d) }
]

-- The loop of `writeAll` over the answers of `write`: the bytes that were taken.
unfoldable pub write_loop : List WriteResult → Bytes → Bytes
write_loop rs [] = []
write_loop [] (c ∷ d) = []
write_loop (took zero ∷ rs) (c ∷ d) = []
write_loop (took (suc n) ∷ rs) (c ∷ d) = c ∷ (take n d ++ write_loop rs (drop n d))
write_loop (refused e ∷ rs) (c ∷ d) =
    let again = write_loop rs (c ∷ d) in if e == eintr then again else []

-- Closing the old file, renaming it, and opening a new one. The answer of `rename` is not looked at.
unfoldable pub roll : Bool → Bool → Bytes → AsyncLogger → AsyncLogger
roll renames opens stamp l =
    let renamed = rename renames l.files l.path (l.path ++ stamp) in
    record l {
      files = if opens then put renamed l.path [] else renamed;
      stdout_open = (elim l.sink [
        | no_sink ↦ l.stdout_open
        | stdout ↦ false
        | file ↦ l.stdout_open
      ]);
      sink = if opens then file else stdout;
      written_this_file = 0;
    }

unfoldable pub is_closed : Sink → Bool
is_closed no_sink = true
is_closed stdout = false
is_closed file = false

unfoldable pub roll_if_needed : Bool → Bool → Bytes → ℕ → AsyncLogger → AsyncLogger
roll_if_needed renames opens stamp incoming l =
    if (to_stdout l.path || is_closed l.sink)
      || leb (add_size l.written_this_file incoming) l.roll_bytes
    then l
    else roll renames opens stamp l

-- What the environment answers while a buffer is written.
pub record Disk : Type 0 where
  pub renames : Bool
  pub opens : Bool
  pub stamp : Bytes
  pub writes : List WriteResult

unfoldable pub write_all : Disk → Bytes → AsyncLogger → AsyncLogger
write_all k d l =
    if is_closed l.sink || is_empty d
    then l
    else (let l1 = roll_if_needed k.renames k.opens k.stamp (length d) l in
        let out = write_loop k.writes d in
        let l2 = emit out l1 in
        record l2 {
          bytes_written = add_size l2.bytes_written (length out);
          written_this_file = add_size l2.written_this_file (length out);
          written = l2.written ++ out;
        })

-- The swap of the thread's loop, where `current` is not empty.
unfoldable pub swap : AsyncLogger → AsyncLogger
swap l = record l { current = l.to_write; to_write = l.current }

unfoldable pub write_swapped : Disk → AsyncLogger → AsyncLogger
write_swapped k l = record (write_all k l.to_write l) { to_write = [] }

unfoldable pub write_current : Disk → AsyncLogger → AsyncLogger
write_current k l = record (write_all k l.current l) { current = [] }

-- The drain at the end of the thread, under the lock.
unfoldable pub drain : Disk → AsyncLogger → AsyncLogger
drain k l = if is_empty l.current then l else write_current k l

-- What `stop` does under the lock behind the join.
unfoldable pub last_drain : Disk → Disk → AsyncLogger → AsyncLogger
last_drain k k' l = let l1 = drain k l in if is_empty l1.to_write then l1 else write_swapped k' l1

unfoldable pub close_log : AsyncLogger → AsyncLogger
close_log l = record l { sink = no_sink }
