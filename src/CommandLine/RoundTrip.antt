-- ===== src/CommandLine/RoundTrip.antt =====
-- Which options give which settings.
use cxx_epoll_http_server.Common.{
  ℕ, ◌%◌, ◌^◌, ◌<◌, ◌≡◌, ◌≢◌, refl, sym, ap, ◌∙◌, map, Bool, true, false, Option, none, some, List,
  [], ◌∷◌, Bytes, beq, ltb, if_true, if_false, to_lower, arith,
}
use cxx_epoll_http_server.Decimal.{ℤ, pos, to_string as decimal}
use cxx_epoll_http_server.Decimal.RoundTrip.{strtoll-to_string}
use cxx_epoll_http_server.Logger.{LogLevel, level_name}
use cxx_epoll_http_server.Server.{signed_decimal}
use cxx_epoll_http_server.Timer.{to_int}
use cxx_epoll_http_server.CommandLine.{
  Options, parse_level, long_to_int, atoi, to_uint16, Opt, port, threads, doc_root, idle, max_conn,
  log, log_level, Settings, Parsed, going, exits, on_option, parse_options, is_negative, checked,
  read_command_line,
}

to_int-small : (n : ℕ) → n < 2 ^ 31 → to_int n ≡ pos n
unfolding to_int
to_int-small n h = if_true (ltb (n % 2 ^ 32) (2 ^ 31)) _ _ (ground arith) ∙ ap pos (omega arith)

atoi-decimal : (n : ℕ) → n < 2 ^ 31 → atoi (decimal n) ≡ pos n
unfolding atoi long_to_int
atoi-decimal n h =
    ap (λ (o : Option ℤ). elim o as (λ _. ℤ) [ none ↦ pos 0 | some n ↦ long_to_int n ])
      (strtoll-to_string n)
    ∙ ap to_int (omega arith)
    ∙ to_int-small n h

-- The name of a level on the command line.
abbrev pub option_name : LogLevel → Bytes
option_name lv = map to_lower (level_name lv)

parse_level-option_name :
    (lv : LogLevel) → lv ≢ LogLevel.fatal → parse_level (option_name lv) ≡ some lv
unfolding parse_level level_name to_lower beq
parse_level-option_name LogLevel.trace n = refl
parse_level-option_name LogLevel.debug n = refl
parse_level-option_name LogLevel.info n = refl
parse_level-option_name LogLevel.warn n = refl
parse_level-option_name LogLevel.error n = refl
parse_level-option_name LogLevel.fatal n = absurd (n refl)

-- A number of the settings that can be written as an option.
abbrev pub IsInt : ℤ → Type 0
IsInt z = (n : ℕ) × (z ≡ pos n) × (n < 2 ^ 31)

-- The settings as options.
abbrev pub options_of : Settings → List Opt
options_of s =
    port (decimal s.opts.port)
    ∷ threads (signed_decimal s.opts.io_threads)
    ∷ doc_root s.opts.doc_root
    ∷ idle (signed_decimal s.opts.idle_timeout_s)
    ∷ max_conn (signed_decimal s.opts.max_connections)
    ∷ log s.log_file
    ∷ log_level (option_name s.level)
    ∷ []

atoi-signed_decimal : (z : ℤ) → IsInt z → atoi (signed_decimal z) ≡ z
unfolding signed_decimal
atoi-signed_decimal z (n, e, l) = ap (λ z. atoi (signed_decimal z)) e ∙ atoi-decimal n l ∙ sym e

-- Settings written as options are read back the same: the port is below 2^16, the numbers are not
-- negative and fit an `int`, TCP_NODELAY is on, as no option changes it, and the level is not
-- fatal, which has no name among the options.
pub read_command_line-options_of :
    (s : Settings)
    → s.opts.port < 2 ^ 16
    → IsInt s.opts.io_threads
    → IsInt s.opts.idle_timeout_s
    → IsInt s.opts.max_connections
    → s.opts.tcp_nodelay ≡ true
    → s.level ≢ LogLevel.fatal
    → read_command_line (options_of s) ≡ going s
unfolding read_command_line parse_options on_option checked is_negative to_uint16
read_command_line-options_of s p t i m d l =
    ap (λ n. built n (atoi (signed_decimal o.io_threads)) idle0 conn0 true level0)
      (ap to_uint16 (atoi-decimal o.port (omega arith)) ∙ port_kept)
    ∙ ap (λ z. built o.port z idle0 conn0 true level0) (atoi-signed_decimal o.io_threads t)
    ∙ ap (λ z. built o.port o.io_threads z conn0 true level0)
        (atoi-signed_decimal o.idle_timeout_s i)
    ∙ ap (λ z. built o.port o.io_threads o.idle_timeout_s z true level0)
        (atoi-signed_decimal o.max_connections m)
    ∙ ap (λ b. built o.port o.io_threads o.idle_timeout_s o.max_connections b level0) (sym d)
    ∙ ap (built o.port o.io_threads o.idle_timeout_s o.max_connections o.tcp_nodelay)
        (parse_level-option_name s.level l)
    ∙ if_false (is_negative o.io_threads) _ _ not_negative
  where
    o : Options
    o = s.opts

    idle0 : ℤ
    idle0 = atoi (signed_decimal s.opts.idle_timeout_s)

    conn0 : ℤ
    conn0 = atoi (signed_decimal s.opts.max_connections)

    level0 : Option LogLevel
    level0 = parse_level (option_name s.level)

    port_kept : to_uint16 (pos o.port) ≡ o.port
    port_kept = omega arith

    not_negative : is_negative o.io_threads ≡ false
    not_negative = ap is_negative t.1

    after : Parsed → Parsed
    after x = elim x as (λ _. Parsed) [ going s' ↦ going s' | exits n ↦ exits n ]

    -- The settings that the options add up to.
    built : ℕ → ℤ → ℤ → ℤ → Bool → Option LogLevel → Parsed
    built p t i m d lv = checked (
        after (elim lv as (λ _. Parsed) [
          | none ↦ exits 1
          | some lv ↦ going (record {
            opts = record {
              port = p;
              io_threads = t;
              doc_root = s.opts.doc_root;
              idle_timeout_s = i;
              max_connections = m;
              tcp_nodelay = d;
            };
            log_file = s.log_file;
            level = lv;
          })
        ]))
