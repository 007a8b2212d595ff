-- ===== src/CommandLine.antt =====
-- src/main.cpp: the options, and what `main` does with them. What `getopt_long` returns, call by
-- call up to its -1, is a list: an option with its argument, or anything else, for which the code
-- takes the default case. What `Server::start` answers is an argument. The effects of `main` on
-- the logger and the server are a list, oldest first; messages to the terminal are left out.
pub mod RoundTrip
pub mod Checks
mod Tests
use cxx_epoll_http_server.Common.{
  ℕ, suc, ◌-◌, ◌%◌, ◌^◌, Bool, true, false, Option, none, some, List, [], ◌∷◌, Bytes, codes, beq,
  ltb, if◌then◌else◌,
}
use cxx_epoll_http_server.Decimal.{ℤ, pos, negsuc, strtoll}
use cxx_epoll_http_server.Logger.{LogLevel}
use cxx_epoll_http_server.Timer.{to_int}

-- `Server::Options`.
pub record Options : Type 0 where
  pub port : ℕ
  pub io_threads : ℤ
  pub doc_root : Bytes
  pub idle_timeout_s : ℤ
  pub max_connections : ℤ
  pub tcp_nodelay : Bool

abbrev pub default_options : Options
default_options = record {
  port = 8080;
  io_threads = pos 0;
  doc_root = codes "./www";
  idle_timeout_s = pos 60;
  max_connections = pos 20000;
  tcp_nodelay = true;
}

unfoldable pub parse_level : Bytes → Option LogLevel
parse_level s =
    if beq s (codes "trace")
    then some LogLevel.trace
    else if beq s (codes "debug")
    then some LogLevel.debug
    else if beq s (codes "info")
    then some LogLevel.info
    else if beq s (codes "warn")
    then some LogLevel.warn
    else if beq s (codes "error")
    then some LogLevel.error
    else none

-- A `long` cast to `int`, which is what `atoi` does.
unfoldable pub long_to_int : ℤ → ℤ
long_to_int (pos n) = to_int n
long_to_int (negsuc n) =
    let m = n % 2 ^ 32 in if ltb m (2 ^ 31) then negsuc m else pos (2 ^ 32 - 1 - m)

unfoldable pub atoi : Bytes → ℤ
atoi s = elim (strtoll s) [ none ↦ pos 0 | some n ↦ long_to_int n ]

unfoldable pub to_uint16 : ℤ → ℕ
to_uint16 (pos n) = n % 2 ^ 16
to_uint16 (negsuc n) = 2 ^ 16 - 1 - n % 2 ^ 16

-- What a call of `getopt_long` returns.
pub data Opt : Type 0 where
  port threads doc_root idle max_conn log log_level : Bytes → Opt
  help : Opt
  other : Opt

-- The variables of `main`.
pub record Settings : Type 0 where
  pub opts : Options
  pub log_file : Bytes
  pub level : LogLevel

abbrev pub default_settings : Settings
default_settings = record { opts = default_options; log_file = codes "-"; level = LogLevel.info }

-- The loop over the options goes on, or `main` returns this.
pub data Parsed : Type 0 where
  going : Settings → Parsed
  exits : ℕ → Parsed

unfoldable pub on_option : Opt → Settings → Parsed
on_option (port a) s = going (record s { opts = record s.opts { port = to_uint16 (atoi a) } })
on_option (threads a) s = going (record s { opts = record s.opts { io_threads = atoi a } })
on_option (doc_root a) s = going (record s { opts = record s.opts { doc_root = a } })
on_option (idle a) s = going (record s { opts = record s.opts { idle_timeout_s = atoi a } })
on_option (max_conn a) s = going (record s { opts = record s.opts { max_connections = atoi a } })
on_option (log a) s = going (record s { log_file = a })
on_option (log_level a) s = elim (parse_level a) [
  | none ↦ exits 1
  | some lv ↦ going (record s { level = lv })
]
on_option help s = exits 0
on_option other s = exits 1

unfoldable pub parse_options : List Opt → Settings → Parsed
parse_options [] s = going s
parse_options (o ∷ os) s = elim (on_option o s) [
  | going s' ↦ parse_options os s'
  | exits n ↦ exits n
]

unfoldable pub is_negative : ℤ → Bool
is_negative (pos n) = false
is_negative (negsuc n) = true

-- With the check behind the loop.
unfoldable pub checked : Parsed → Parsed
checked (exits n) = exits n
checked (going s) = if is_negative s.opts.io_threads then exits 1 else going s

unfoldable pub read_command_line : List Opt → Parsed
read_command_line os = checked (parse_options os default_settings)

pub data Effect : Type 0 where
  start_log : Bytes → ℕ → Effect
  set_log_level : LogLevel → Effect
  set_signals : Effect
  start_server : Options → Effect
  stop_log : Effect

-- `main` behind the options: `started` is what `Server::start` returns.
unfoldable pub run_main : Bool → Parsed → List Effect × ℕ
run_main started (exits n) = ([], n)
run_main started (going s) = (
  start_log s.log_file 1000
      ∷ set_log_level s.level
      ∷ set_signals
      ∷ start_server s.opts
      ∷ stop_log
      ∷ [],
  if started then 0 else 1,
)

unfoldable pub main : Bool → List Opt → List Effect × ℕ
main started os = run_main started (read_command_line os)
