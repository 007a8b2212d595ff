-- ===== src/Epoller/Tests.antt =====
-- A descriptor that is registered, changed and removed.
use cxx_epoll_http_server.Common.{◌≡◌, refl, none, some, [], ◌∷◌}
use cxx_epoll_http_server.Decimal.{pos}
use cxx_epoll_http_server.Kernel.{eintr}
use cxx_epoll_http_server.Epoller.{count, Epoller, ready_events, wait_error, wait}

abbrev poller : Epoller
poller = record { epfd = pos 3; interest = λ fd. none; ready = []; num_events = pos 0 }

interrupted :
    wait (wait_error eintr ∷ ready_events ((5, 1) ∷ []) ∷ []) poller
    ≡ some (pos 1, record poller { ready = (5, 1) ∷ []; num_events = pos 1 })
unfolding wait count
interrupted = refl
