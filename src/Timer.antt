-- ===== src/Timer.antt =====
-- include/ws/timer.h and src/timer.cpp: the timers of an event loop. Time is a number of
-- nanoseconds, as that of the steady clock, and what `now()` answers is an argument. The priority
-- queue is the list of its entries in the order in which it gives them up: by time, and among
-- entries of one time, where the standard leaves the order open, by insertion. A callback is a
-- value, run by a function over the timers and the rest of the world.
pub mod Order
pub mod Expiry
pub mod Timeout
pub mod World
mod Tests
use cxx_epoll_http_server.Common.{
  ℕ, zero, suc, ◌+◌, ◌-◌, ◌*◌, ◌/◌, ◌%◌, ◌^◌, Bool, true, false, ◌||◌, Option, none, some, List, [],
  ◌∷◌, length, ltb, leb, ◌==◌, if◌then◌else◌,
}
use cxx_epoll_http_server.Decimal.{ℤ, pos, negsuc}

-- A `TimerCallback` may be empty: `cb` is an option.
pub record Entry (K : Type 0) : Type 0 where
  pub when : ℕ
  pub cb : Option K
  pub id : ℕ

pub record TimerHeap (K : Type 0) : Type 0 where
  pub heap : List (Entry K)
  pub cancelled : List ℕ
  pub next_id : ℕ

abbrev pub ns_per_ms : ℕ
ns_per_ms = 1000000

-- `std::unordered_set<TimerId>`: `count`, `insert` and `erase`.
unfoldable pub contains : List ℕ → ℕ → Bool
contains [] i = false
contains (x ∷ xs) i = x == i || contains xs i

unfoldable pub insert_id : List ℕ → ℕ → List ℕ
insert_id xs i = if contains xs i then xs else i ∷ xs

unfoldable pub erase_id : List ℕ → ℕ → List ℕ
erase_id [] i = []
erase_id (x ∷ xs) i = if x == i then xs else x ∷ erase_id xs i

-- `static_cast<int>` of a number of milliseconds that is not negative.
unfoldable pub to_int : ℕ → ℤ
to_int ms = let m = ms % 2 ^ 32 in if ltb m (2 ^ 31) then pos m else negsuc (2 ^ 32 - 1 - m)

module _ {K : Type 0} where
  abbrev pub new_heap : TimerHeap K
  new_heap = record { heap = []; cancelled = []; next_id = 1 }

  -- `push` of the priority queue.
  unfoldable pub push : Entry K → List (Entry K) → List (Entry K)
  push e [] = e ∷ []
  push e (x ∷ xs) = let rest = push e xs in if ltb e.when x.when then e ∷ x ∷ xs else x ∷ rest

  unfoldable pub add : ℕ → Option K → TimerHeap K → ℕ × TimerHeap K
  add when cb h = (
    h.next_id,
    record h {
      heap = push (record { when = when; cb = cb; id = h.next_id }) h.heap;
      next_id = (h.next_id + 1) % 2 ^ 64;
    },
  )

  unfoldable pub add_after : ℕ → ℕ → Option K → TimerHeap K → ℕ × TimerHeap K
  add_after now ms cb h = add (now + ms * ns_per_ms) cb h

  unfoldable pub cancel : ℕ → TimerHeap K → TimerHeap K
  cancel id h =
      if id == 0 || leb h.next_id id then h else record h { cancelled = insert_id h.cancelled id }

  unfoldable pub size : TimerHeap K → ℕ
  size h = length h.heap

  -- A difference below zero is cut off at 0, as the code returns 0 for it.
  unfoldable pub next_timeout_ms : ℕ → TimerHeap K → ℤ
  next_timeout_ms now h = elim h.heap [
    | [] ↦ negsuc 0
    | e ∷ rest ↦ let ms = (e.when - now) / ns_per_ms in if ms == 0 then pos 0 else to_int ms
  ]

-- The loop of `expire` runs over the timers, the rest of the world and the count so far.
pub record Expiring (K W : Type 0) : Type 0 where
  pub timers : TimerHeap K
  pub world : W
  pub fired : ℕ

module _ {K W : Type 0} (exec : K → TimerHeap K → W → TimerHeap K × W) (t : ℕ) where
  unfoldable pub run_cb : Option K → TimerHeap K → W → TimerHeap K × W
  run_cb none h w = (h, w)
  run_cb (some k) h w = exec k h w

  -- The body of the loop, for the entry that was popped.
  unfoldable pub expire_entry : Entry K → Expiring K W → Expiring K W
  expire_entry e s =
      let h = s.timers in
      if contains h.cancelled e.id
      then record s { timers = record h { cancelled = erase_id h.cancelled e.id } }
      else (let (h', w') = run_cb e.cb h s.world in
          record { timers = h'; world = w'; fired = s.fired + 1 })

  -- One round of the loop: `none` where its condition fails.
  unfoldable pub expire_round : Expiring K W → Option (Expiring K W)
  expire_round s = elim s.timers.heap [
    | [] ↦ none
    | e ∷ rest ↦
        if leb e.when t
        then some (expire_entry e (record s { timers = record s.timers { heap = rest } }))
        else none
  ]

  -- The outer option is `none` where the fuel ran out.
  unfoldable pub expire_loop : ℕ → Expiring K W → Option (Expiring K W)
  expire_loop zero s = none
  expire_loop (suc f) s = elim (expire_round s) [ none ↦ some s | some s' ↦ expire_loop f s' ]

  unfoldable pub expire : ℕ → TimerHeap K → W → Option (Expiring K W)
  expire fuel h w = expire_loop fuel (record { timers = h; world = w; fired = 0 })
