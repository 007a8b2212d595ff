-- ===== src/Buffer/Tests.antt =====
-- The buffer on concrete bytes, and its theorems at them.
use cxx_epoll_http_server.Common.{ℕ, ◌≡◌, refl, some, ◌++◌, codes, arith}
use cxx_epoll_http_server.Buffer.{
  Buffer, copy_in, ensure_writable_bytes, copy_within, resize, search_crlf, peek_string, append,
  make_space, find_crlf, read_fd, received,
}
use cxx_epoll_http_server.Buffer.Invariant.{IsValid}
use cxx_epoll_http_server.Buffer.Contents.{contents, append_lem}
use cxx_epoll_http_server.Buffer.Search.{crlf}
use cxx_epoll_http_server.Buffer.Reading.{contents-read_fd}

-- What a run of the buffer computes with.
whole_buffer : ℕ
unfolding append copy_in ensure_writable_bytes make_space copy_within resize find_crlf search_crlf
    peek_string
whole_buffer = 0

-- Twelve bytes, of which "hi" is unread and one is free.
abbrev nearly_full : Buffer
nearly_full = record { buf = codes "000000000hi-"; read_idx = 9; write_idx = 11 }

nearly_full-IsValid : IsValid nearly_full
nearly_full-IsValid = omega arith

-- Two bytes fit after the unread ones have been moved down to the eighth place.
compacts :
    append nearly_full (codes "ya")
    ≡ record { buf = codes "00000000hiya"; read_idx = 8; write_idx = 12 }
unfolding whole_buffer
compacts = refl

-- Four do not, and the vector grows.
grows :
    append nearly_full (codes "yaya")
    ≡ record { buf = codes "000000000hiyaya"; read_idx = 9; write_idx = 15 }
unfolding whole_buffer
grows = refl

append_lem_example :
    IsValid (append nearly_full (codes "ya"))
    × (contents (append nearly_full (codes "ya")) ≡ codes "hi" ++ codes "ya")
unfolding contents
append_lem_example = append_lem nearly_full (codes "ya") nearly_full-IsValid (omega arith)

abbrev two_lines : Buffer
two_lines = record {
  buf = codes "ab" ++ (crlf ++ (codes "c" ++ crlf));
  read_idx = 1;
  write_idx = 7;
}

finds_second : find_crlf two_lines 2 ≡ some 4
unfolding whole_buffer
finds_second = refl

contents-read_fd_example :
    IsValid (read_fd nearly_full (received (codes "ya")))
    × (contents (read_fd nearly_full (received (codes "ya"))) ≡ codes "hi" ++ codes "ya")
unfolding contents
contents-read_fd_example =
    contents-read_fd nearly_full (received (codes "ya")) nearly_full-IsValid (omega arith)
