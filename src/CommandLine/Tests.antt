-- ===== src/CommandLine/Tests.antt =====
-- Command lines, and the theorems on them there.
use cxx_epoll_http_server.Common.{◌≡◌, refl, true, false, [], ◌∷◌, codes, beq, arith}
use cxx_epoll_http_server.Logger.{LogLevel}
use cxx_epoll_http_server.CommandLine.{
  Settings, default_settings, going, port, log_level, help, on_option, parse_level, parse_options,
  checked, read_command_line, main, run_main,
}
use cxx_epoll_http_server.CommandLine.RoundTrip.{options_of, read_command_line-options_of}
use cxx_epoll_http_server.CommandLine.Checks.{IsRun, main_lem}

-- An unknown level ends the program with 1, though a help option follows.
unknown_level : main true (log_level (codes "loud") ∷ help ∷ []) ≡ ([], 1)
unfolding main run_main read_command_line parse_options on_option parse_level checked beq
unknown_level = refl

abbrev debugging : Settings
debugging = record default_settings { log_file = codes "a.log"; level = LogLevel.debug }

read_command_line-options_of_example : read_command_line (options_of debugging) ≡ going debugging
read_command_line-options_of_example =
    read_command_line-options_of debugging (omega arith) (0, refl, omega arith)
      (60, refl, omega arith) (20000, refl, omega arith) refl (λ e. cc)

main_lem_example : IsRun false (main false (port (codes "80") ∷ []))
main_lem_example = main_lem false (port (codes "80") ∷ [])
