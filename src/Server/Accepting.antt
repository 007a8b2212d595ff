-- ===== src/Server/Accepting.antt =====
-- The acceptor: the limit on connections, and how they are dealt out.
use cxx_epoll_http_server.Common.{
  ℕ, ◌+◌, ◌%◌, ◌^◌, ◌≤◌, ◌<◌, ◌≡◌, refl, sym, ap, subst, ◌∙◌, false, sub_size, List, [], ◌∷◌, ◌++◌,
  map, length, append-nil, append_assoc, ◌==◌, add_size, arith, if_cases,
}
use cxx_epoll_http_server.Decimal.{ℤ, pos, negsuc}
use cxx_epoll_http_server.Stats.{to_int64, active_connections}
use cxx_epoll_http_server.Server.{
  AcceptResult, accepted, refused, Acceptor, pick_sub_loop, attach_connection, run_in_loop, at_most,
  at_limit, on_accepted, on_accept,
}

-- The loops that a counter at `k` deals these descriptors to, of `n` loops.
unfoldable pub deal : ℕ → ℕ → List ℕ → List (ℕ × ℕ)
deal n k [] = []
deal n k (fd ∷ fds) = (k % n, fd) ∷ deal n (k + 1) fds

one_dealt :
    (fd : ℕ) (a : Acceptor)
    → 0 < a.sub_loops
    → at_limit a ≡ false
    → on_accepted fd a ≡ record a {
      next_sub = add_size a.next_sub 1;
      tasks = a.tasks ++ (a.next_sub % a.sub_loops, fd) ∷ [];
    }
unfolding on_accepted pick_sub_loop run_in_loop
one_dealt fd a p l = let q : (a.sub_loops == 0) ≡ false = ground arith in rw (l, q) (rw q refl)

-- With sub-reactors, below the limit on connections, and the round robin counter not wrapping
-- round, all the connections accepted in one event are dealt out to the loops in turn, however
-- many they are; the counters that the limit looks at do not change meanwhile.
pub burst_passes_limit :
    (fds : List ℕ) (a : Acceptor)
    → 0 < a.sub_loops
    → a.next_sub + length fds < 2 ^ 64
    → at_limit a ≡ false
    → ((on_accept (map accepted fds) a).tasks ≡ a.tasks ++ deal a.sub_loops a.next_sub fds)
      × ((on_accept (map accepted fds) a).counters ≡ a.counters)
unfolding on_accept deal at_limit
burst_passes_limit [] a p f l = (sym (append-nil _), refl)
burst_passes_limit (fd ∷ fds) a p f l =
    let b : Acceptor = record a {
      next_sub = add_size a.next_sub 1;
      tasks = a.tasks ++ (a.next_sub % a.sub_loops, fd) ∷ [];
    } in
    let next : add_size a.next_sub 1 ≡ a.next_sub + 1 = omega arith in
    let ih = burst_passes_limit fds b p (omega arith) l in
    rw (map, on_accept, one_dealt fd a p l)
      (
        ih.0
            ∙ append_assoc a.tasks _ _
            ∙ ap (λ k. a.tasks ++ (a.next_sub % a.sub_loops, fd) ∷ deal a.sub_loops k fds) next,
        ih.1,
      )

-- The limit on open connections: none may be open where it is below zero.
abbrev pub limit : ℤ → ℕ
limit (pos n) = n
limit (negsuc n) = 0

-- The connections that the limit counts, where no counter wrapped round.
abbrev pub Counted : Acceptor → Type 0
Counted a =
    (a.counters.closed ≤ a.counters.opened)
    × (a.counters.opened ≤ a.counters.closed + limit a.max_connections)

-- What one connection more does to the counters that the limit looks at.
Step : Acceptor → Acceptor → Type 0
Step a b =
    Counted b
    × (b.sub_loops ≡ 0)
    × (b.counters.opened ≤ a.counters.opened + 1)
    × (b.max_connections ≡ a.max_connections)

at_limit_lem :
    (m : ℤ) (opened closed : ℕ)
    → limit m < 2 ^ 63
    → opened < 2 ^ 64
    → closed ≤ opened
    → opened ≤ closed + limit m
    → at_most m (to_int64 (sub_size opened closed)) ≡ false
    → opened + 1 ≤ closed + limit m
unfolding at_most to_int64
at_limit_lem (pos n) o c i b l h e = ground (arith, e)
at_limit_lem (negsuc n) o c i b l h e = ground (arith, e)

on_accepted-Step :
    (fd : ℕ) (a : Acceptor)
    → a.sub_loops ≡ 0
    → limit a.max_connections < 2 ^ 63
    → a.counters.opened + 1 < 2 ^ 64
    → Counted a
    → Step a (on_accepted fd a)
unfolding on_accepted pick_sub_loop run_in_loop attach_connection at_limit active_connections Step
on_accepted-Step fd a z i f c =
    if_cases (Step a) (at_limit a) (λ _. (c, z, omega arith, refl))
      (λ e.
        let l =
          at_limit_lem a.max_connections a.counters.opened a.counters.closed i (omega arith) c.0 c.1
            e in
        ground (arith, l))

-- Without sub-reactors, with a limit that is an int, and with counters that do not wrap round,
-- accepting keeps the number of open connections within the limit, or at none if the limit is
-- below zero.
pub on_accept-Counted :
    (rs : List AcceptResult) (a : Acceptor)
    → a.sub_loops ≡ 0
    → limit a.max_connections < 2 ^ 31
    → a.counters.opened + length rs < 2 ^ 64
    → Counted a
    → Counted (on_accept rs a)
unfolding on_accept Step
on_accept-Counted [] a z i f c = c
on_accept-Counted (accepted fd ∷ rs) a z i f c =
    let s = on_accepted-Step fd a z (omega arith) (omega arith) c in
    on_accept-Counted rs (on_accepted fd a) s.1 (subst (λ m. limit m < 2 ^ 31) (sym s.3) i)
      (omega (arith, s.2)) s.0
on_accept-Counted (refused e ∷ rs) a z i f c =
    if_cases Counted (e == 4) (λ _. on_accept-Counted rs a z i (omega arith) c) (λ _. c)
