-- ===== src/Kernel.antt =====
-- What the system calls answer, as the calls of `write` in src/connection.cpp and src/logger.cpp
-- read it, and the error numbers of Linux that they test for.
use cxx_epoll_http_server.Common.{ℕ}

abbrev pub eintr : ℕ
eintr = 4

-- EWOULDBLOCK is the same number.
abbrev pub eagain : ℕ
eagain = 11

-- What `write` answers: how many bytes the kernel is ready to take, or an `errno`.
pub data WriteResult : Type 0 where
  took : ℕ → WriteResult
  refused : ℕ → WriteResult
