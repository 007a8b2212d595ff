-- ===== src/Epoller.antt =====
-- include/ws/epoller.h and src/epoller.cpp. The kernel's set of interest is a function from a
-- descriptor to the events that it is registered for; `epoll_ctl` is what it documents: ADD fails
-- on a descriptor that is there, MOD and DEL on one that is not. What `epoll_wait` answers to its
-- calls is a list. Descriptors are integers, -1 among them.
pub mod Interest
mod Tests
use cxx_epoll_http_server.Common.{
  ℕ, suc, Bool, true, false, not, ◌&&◌, ◌||◌, Option, none, some, List, [], ◌∷◌, ◌==◌,
  if◌then◌else◌,
}
use cxx_epoll_http_server.Decimal.{ℤ, pos, negsuc}
use cxx_epoll_http_server.Kernel.{eintr}

-- The events that are ready, with their descriptors, or an `errno`.
pub data WaitAnswer : Type 0 where
  ready_events : List (ℕ × ℕ) → WaitAnswer
  wait_error : ℕ → WaitAnswer

pub record Epoller : Type 0 where
  pub epfd : ℤ
  pub interest : ℕ → Option ℕ
  pub ready : List (ℕ × ℕ)
  pub num_events : ℤ

unfoldable pub set_interest : ℕ → Option ℕ → Epoller → Epoller
set_interest fd o e = record e { interest = λ x. if x == fd then o else e.interest x }

unfoldable pub is_registered : ℕ → Epoller → Bool
is_registered fd e = elim (e.interest fd) [ none ↦ false | some ev ↦ true ]

unfoldable pub is_open : ℤ → Bool
is_open (pos n) = true
is_open (negsuc n) = false

unfoldable pub add_fd : ℕ → ℕ → Epoller → Bool × Epoller
add_fd fd events e =
    if is_registered fd e then (false, e) else (true, set_interest fd (some events) e)

unfoldable pub mod_fd : ℕ → ℕ → Epoller → Bool × Epoller
mod_fd fd events e =
    if is_registered fd e then (true, set_interest fd (some events) e) else (false, e)

unfoldable pub del_fd : ℕ → Epoller → Bool × Epoller
del_fd fd e = if is_registered fd e then (true, set_interest fd none e) else (false, e)

-- `fd < 0 || epfd_ < 0` comes before each.
unfoldable pub add : ℤ → ℕ → Epoller → Bool × Epoller
add (negsuc n) events e = (false, e)
add (pos fd) events e = if not (is_open e.epfd) then (false, e) else add_fd fd events e

unfoldable pub mod_events : ℤ → ℕ → Epoller → Bool × Epoller
mod_events (negsuc n) events e = (false, e)
mod_events (pos fd) events e = if not (is_open e.epfd) then (false, e) else mod_fd fd events e

unfoldable pub del : ℤ → Epoller → Bool × Epoller
del (negsuc n) e = (false, e)
del (pos fd) e = if not (is_open e.epfd) then (false, e) else del_fd fd e

unfoldable pub count : List (ℕ × ℕ) → ℕ
count [] = 0
count (x ∷ xs) = suc (count xs)

-- The loop of `wait`; `none` is that the list of answers ended, and the call blocks.
unfoldable pub wait : List WaitAnswer → Epoller → Option (ℤ × Epoller)
wait [] e = none
wait (ready_events xs ∷ rs) e =
    some (pos (count xs), record e { ready = xs; num_events = pos (count xs) })
wait (wait_error n ∷ rs) e =
    let again = wait rs e in
    if n == eintr then again else some (negsuc 0, record e { num_events = negsuc 0 })
