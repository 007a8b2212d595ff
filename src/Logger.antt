-- ===== src/Logger.antt =====
-- include/ws/logger.h and src/logger.cpp, the part of the thread that logs: the levels, and the
-- line that `Logger::write` makes in a buffer of 4096 bytes. The time of day, broken down, and the
-- text that `vsnprintf` makes of the arguments are parameters; `none` is an error of `vsnprintf`.
pub mod Line
pub mod Async
mod Tests
use cxx_epoll_http_server.Common.{
  ℕ, ◌+◌, ◌-◌, Bool, Option, none, some, [], ◌∷◌, ◌++◌, Bytes, codes, length, take, replicate, ltb,
  leb, ◌==◌, ◌||◌, if◌then◌else◌,
}
use cxx_epoll_http_server.Decimal.{to_string as decimal}

pub data LogLevel : Type 0 where
  trace debug info warn error fatal : LogLevel

-- The number of the enumeration.
unfoldable pub rank : LogLevel → ℕ
rank trace = 0
rank debug = 1
rank info = 2
rank warn = 3
rank error = 4
rank fatal = 5

unfoldable pub level_name : LogLevel → Bytes
level_name trace = codes "TRACE"
level_name debug = codes "DEBUG"
level_name info = codes "INFO"
level_name warn = codes "WARN"
level_name error = codes "ERROR"
level_name fatal = codes "FATAL"

-- The test of the macros: whether a line of the level `lv` is made.
unfoldable pub enabled : LogLevel → LogLevel → Bool
enabled level lv = leb (rank level) (rank lv)

abbrev pub stack_buf : ℕ
stack_buf = 4096

-- What `localtime_r` and `clock_gettime` tell, as the code prints it.
pub record Stamp : Type 0 where
  pub year : ℕ
  pub mon : ℕ
  pub mday : ℕ
  pub hour : ℕ
  pub min : ℕ
  pub sec : ℕ
  pub msec : ℕ

-- `%0wd` and `%-ws`.
unfoldable pub zero_padded : ℕ → ℕ → Bytes
zero_padded w n = let s = decimal n in replicate (w - length s) b'0' ++ s

unfoldable pub space_padded : ℕ → Bytes → Bytes
space_padded w s = s ++ replicate (w - length s) b' '

unfoldable pub head_text : Stamp → LogLevel → Bytes
head_text t lv =
    zero_padded 4 t.year
    ++ (codes "-"
        ++ (zero_padded 2 t.mon
            ++ (codes "-"
                ++ (zero_padded 2 t.mday
                    ++ (codes " "
                        ++ (zero_padded 2 t.hour
                            ++ (codes ":"
                                ++ (zero_padded 2 t.min
                                    ++ (codes ":"
                                        ++ (zero_padded 2 t.sec
                                            ++ (codes "."
                                                ++ (zero_padded 3 t.msec
                                                    ++ (codes " "
                                                        ++ (space_padded 5 (level_name lv)
                                                            ++ codes " "))))))))))))))

unfoldable pub has_byte : ℕ → Bytes → Bool
has_byte c [] = Bool.false
has_byte c (x ∷ s) = x == c || has_byte c s

-- What is behind the last slash.
unfoldable pub base_name : Bytes → Bytes
base_name [] = []
base_name (c ∷ s) =
    let rest = base_name s in if has_byte b'/' s then rest else if c == b'/' then s else c ∷ s

unfoldable pub place_text : Bytes → ℕ → Bytes
place_text file line = base_name file ++ (codes ":" ++ (decimal line ++ codes " "))

-- `snprintf` behind the `length s` bytes that are in the buffer of `size` bytes already: it writes
-- a NUL too, and the code counts what fitted.
unfoldable pub print_behind : ℕ → Bytes → Bytes → Bytes
print_behind size s text = s ++ take (size - length s - 1) text

-- `Logger::write`: the bytes that it hands to the asynchronous logger.
unfoldable pub log_line : Stamp → LogLevel → Bytes → ℕ → Option Bytes → Option Bytes
log_line t lv file line none = none
log_line t lv file line (some message) =
    let head = print_behind 80 [] (head_text t lv) in
    let placed = print_behind stack_buf head (place_text file line) in
    let s = print_behind stack_buf placed message in
    some (if ltb (length s + 1) stack_buf then s ++ b'\n' ∷ [] else s)
