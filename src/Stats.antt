-- ===== src/Stats.antt =====
-- include/ws/stats.h: the counters of the server, each an unsigned 64-bit number. The relaxed
-- increments are functions of the state that the connections share.
use cxx_epoll_http_server.Common.{ℕ, ◌-◌, ◌^◌, ltb, sub_size, if◌then◌else◌}
use cxx_epoll_http_server.Decimal.{ℤ, pos, negsuc}

pub record ServerCounters : Type 0 where
  pub accepted : ℕ
  pub opened : ℕ
  pub closed : ℕ
  pub requests : ℕ
  pub responses : ℕ
  pub errors : ℕ
  pub timeouts_closed : ℕ
  pub bytes_read : ℕ
  pub bytes_written : ℕ

abbrev pub new_counters : ServerCounters
new_counters = record {
  accepted = 0;
  opened = 0;
  closed = 0;
  requests = 0;
  responses = 0;
  errors = 0;
  timeouts_closed = 0;
  bytes_read = 0;
  bytes_written = 0;
}

-- A 64-bit number as a signed one.
unfoldable pub to_int64 : ℕ → ℤ
to_int64 n = if ltb n (2 ^ 63) then pos n else negsuc (2 ^ 64 - n - 1)

-- The two counters are cast, and a difference that is out of range wraps round: it is the cast of
-- the unsigned difference.
unfoldable pub active_connections : ServerCounters → ℤ
unfolding to_int64
active_connections c = to_int64 (sub_size c.opened c.closed)
