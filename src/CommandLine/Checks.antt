-- ===== src/CommandLine/Checks.antt =====
-- What the settings satisfy with which the server starts, and what `main` returns.
use cxx_epoll_http_server.Common.{
  ℕ, ◌^◌, ◌<◌, ◌≡◌, ◌⊎◌, inl, inr, refl, Bool, Option, none, some, List, [], ◌∷◌, if◌then◌else◌,
  arith,
}
use cxx_epoll_http_server.Decimal.{ℤ, pos, negsuc}
use cxx_epoll_http_server.Logger.{LogLevel}
use cxx_epoll_http_server.CommandLine.{
  parse_level, atoi, to_uint16, Opt, port, threads, doc_root, idle, max_conn, log, log_level, help,
  other, Settings, default_settings, Parsed, going, exits, on_option, parse_options, is_negative,
  checked, read_command_line, main, run_main, Effect, start_server, stop_log, start_log,
  set_log_level, set_signals,
}

to_uint16-lt : (z : ℤ) → to_uint16 z < 2 ^ 16
unfolding to_uint16
to_uint16-lt (pos n) = omega arith
to_uint16-lt (negsuc n) = omega arith

-- Of what the loop over the options leaves.
abbrev AllGoing : (Settings → Type 0) → Parsed → Type 0
AllGoing P (going s) = P s
AllGoing P (exits n) = (n ≡ 0) ⊎ (n ≡ 1)

abbrev HasPort : Settings → Type 0
HasPort s = s.opts.port < 2 ^ 16

on_option-port : (o : Opt) (s : Settings) → HasPort s → AllGoing HasPort (on_option o s)
unfolding on_option
on_option-port (port a) s h = to_uint16-lt (atoi a)
on_option-port (threads a) s h = h
on_option-port (doc_root a) s h = h
on_option-port (idle a) s h = h
on_option-port (max_conn a) s h = h
on_option-port (log a) s h = h
on_option-port (log_level a) s h = split (parse_level a)
  where
    split :
        (o : Option LogLevel)
        → AllGoing HasPort
            (elim o as (λ _. Parsed) [ none ↦ exits 1 | some lv ↦ going (record s { level = lv }) ])
    split none = inr refl
    split (some lv) = h
on_option-port help s h = inl refl
on_option-port other s h = inr refl

parse_options-port :
    (os : List Opt) (s : Settings) → HasPort s → AllGoing HasPort (parse_options os s)
unfolding parse_options
parse_options-port [] s h = h
parse_options-port (o ∷ os) s h =
    rest (on_option o s) (on_option-port o s h) (λ s' h'. parse_options-port os s' h')
  where
    rest :
        (x : Parsed)
        → AllGoing HasPort x
        → ((s' : Settings) → HasPort s' → AllGoing HasPort (parse_options os s'))
        → AllGoing HasPort
            (elim x as (λ _. Parsed) [ going s' ↦ parse_options os s' | exits n ↦ exits n ])
    rest (going s') h' k = k s' h'
    rest (exits n) h' k = h'

-- The settings with which the server starts.
abbrev pub IsStartable : Settings → Type 0
IsStartable s = (s.opts.port < 2 ^ 16) × ((n : ℕ) × (s.opts.io_threads ≡ pos n))

checked_lem : (x : Parsed) → AllGoing HasPort x → AllGoing IsStartable (checked x)
unfolding checked is_negative
checked_lem (exits n) h = h
checked_lem (going s) h = split s.opts.io_threads refl
  where
    split :
        (z : ℤ)
        → s.opts.io_threads ≡ z
        → AllGoing IsStartable (if is_negative z then exits 1 else going s)
    split (pos n) e = (h, (n, e))
    split (negsuc n) e = inr refl

-- The run of `main` for these settings, or an exit before the log is started.
abbrev pub IsRun : Bool → List Effect × ℕ → Type 0
IsRun started r =
    ((s : Settings) × IsStartable s
      × (r ≡ (
        start_log s.log_file 1000
            ∷ set_log_level s.level
            ∷ set_signals
            ∷ start_server s.opts
            ∷ stop_log
            ∷ [],
        if started then 0 else 1,
      )))
    ⊎ ((r.0 ≡ []) × ((r.1 ≡ 0) ⊎ (r.1 ≡ 1)))

-- Whatever the options, `main` starts the log, sets the level and the signals, runs the server and
-- stops the log, in this order and whether or not the server starts, with a port below 2^16 and a
-- number of threads that is not negative, and returns 0 exactly if the server started; or it has
-- done none of these and returns 0 or 1.
pub main_lem : (started : Bool) (os : List Opt) → IsRun started (main started os)
unfolding main run_main read_command_line
main_lem started os =
    split (checked (parse_options os default_settings))
      (checked_lem _ (parse_options-port os default_settings (omega arith)))
  where
    split : (x : Parsed) → AllGoing IsStartable x → IsRun started (run_main started x)
    split (going s) h = inl (s, h, refl)
    split (exits n) h = inr (refl, h)
