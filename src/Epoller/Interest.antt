-- ===== src/Epoller/Interest.antt =====
-- What the calls leave registered, and which answer `wait` returns.
use cxx_epoll_http_server.Common.{
  ℕ, ◌≡◌, refl, sym, ap, ◌∙◌, Bool, true, false, not, Option, none, some, ◌==◌, ==_refl, if_true,
  if_false, if_cases, arith,
}
use cxx_epoll_http_server.Decimal.{pos}
use cxx_epoll_http_server.Epoller.{
  Epoller, set_interest, is_registered, is_open, add_fd, mod_fd, del_fd, add, mod_events, del,
}

-- The call succeeds and leaves this registered for `fd`, and the rest as it was.
abbrev pub Sets : ℕ → Option ℕ → Epoller → Bool × Epoller → Type 0
Sets fd o e (ok, e') =
    (ok ≡ true)
    × (e'.interest fd ≡ o)
    × ((x : ℕ) → (x == fd) ≡ false → e'.interest x ≡ e.interest x)
    × (e'.epfd ≡ e.epfd)

set_interest-Sets : (fd : ℕ) (o : Option ℕ) (e : Epoller) → Sets fd o e (true, set_interest fd o e)
unfolding set_interest
set_interest-Sets fd o e = (
  refl,
  if_true (fd == fd) o (e.interest fd) (==_refl fd),
  (λ x n. if_false (x == fd) o (e.interest x) n),
  refl,
)

registered :
    (fd : ℕ) (e : Epoller) (o : Option ℕ)
    → e.interest fd ≡ o
    → is_registered fd e ≡ (elim o as (λ _. Bool) [ none ↦ false | some ev ↦ true ])
unfolding is_registered
registered fd e o h =
    ap (λ (o : Option ℕ). elim o as (λ _. Bool) [ none ↦ false | some ev ↦ true ]) h

add-Sets :
    (fd ev : ℕ) (e : Epoller)
    → is_open e.epfd ≡ true
    → e.interest fd ≡ none
    → Sets fd (some ev) e (add (pos fd) ev e)
unfolding add add_fd
add-Sets fd ev e o h =
    if_cases (Sets fd (some ev) e) (not (is_open e.epfd)) (λ c. absurd (ground (arith, c, o)))
      (λ _.
        if_cases (Sets fd (some ev) e) (is_registered fd e)
          (λ c. absurd (ground (arith, c, registered fd e none h)))
          (λ _. set_interest-Sets fd (some ev) e))

mod_events-Sets :
    (fd ev old : ℕ) (e : Epoller)
    → is_open e.epfd ≡ true
    → e.interest fd ≡ some old
    → Sets fd (some ev) e (mod_events (pos fd) ev e)
unfolding mod_events mod_fd
mod_events-Sets fd ev old e o h =
    if_cases (Sets fd (some ev) e) (not (is_open e.epfd)) (λ c. absurd (ground (arith, c, o)))
      (λ _.
        if_cases (Sets fd (some ev) e) (is_registered fd e) (λ _. set_interest-Sets fd (some ev) e)
          (λ c. absurd (ground (arith, c, registered fd e (some old) h))))

del-Sets :
    (fd old : ℕ) (e : Epoller)
    → is_open e.epfd ≡ true
    → e.interest fd ≡ some old
    → Sets fd none e (del (pos fd) e)
unfolding del del_fd
del-Sets fd old e o h =
    if_cases (Sets fd none e) (not (is_open e.epfd)) (λ c. absurd (ground (arith, c, o)))
      (λ _.
        if_cases (Sets fd none e) (is_registered fd e) (λ _. set_interest-Sets fd none e)
          (λ c. absurd (ground (arith, c, registered fd e (some old) h))))

-- On an open poller, a descriptor that is not registered can be added, then changed and then
-- removed: all three calls succeed, the change is what is registered, and in the end the set of
-- interest is as it was for every descriptor.
pub add-mod_events-del :
    (fd ev ev' x : ℕ) (e : Epoller)
    → is_open e.epfd ≡ true
    → e.interest fd ≡ none
    → let (a, e1) = add (pos fd) ev e in
      let (m, e2) = mod_events (pos fd) ev' e1 in
      let (d, e3) = del (pos fd) e2 in
      (a ≡ true)
      × (m ≡ true)
      × (d ≡ true)
      × (e2.interest fd ≡ some ev')
      × (e3.interest x ≡ e.interest x)
add-mod_events-del fd ev ev' x e o h =
    let e1 = (add (pos fd) ev e).1 in
    let e2 = (mod_events (pos fd) ev' e1).1 in
    let a = add-Sets fd ev e o h in
    let m = mod_events-Sets fd ev' ev e1 (ap is_open a.3 ∙ o) a.1 in
    let d = del-Sets fd ev' e2 (ap is_open (m.3 ∙ a.3) ∙ o) m.1 in
    (a.0, m.0, d.0, m.1, split (x == fd) refl a m d)
  where
    split :
        (b : Bool)
        → (x == fd) ≡ b
        → Sets fd (some ev) e (add (pos fd) ev e)
        → Sets fd (some ev') (add (pos fd) ev e).1 (mod_events (pos fd) ev' (add (pos fd) ev e).1)
        → Sets fd none
            (mod_events (pos fd) ev' (add (pos fd) ev e).1).1
            (del (pos fd) (mod_events (pos fd) ev' (add (pos fd) ev e).1).1)
        → (del (pos fd) (mod_events (pos fd) ev' (add (pos fd) ev e).1).1).1.interest x
          ≡ e.interest x
    split true q a m d =
        let s : x ≡ fd = ground (arith, q) in
        let p = (del (pos fd) (mod_events (pos fd) ev' (add (pos fd) ev e).1).1).1 in
        ap p.interest s ∙ d.1 ∙ sym h ∙ ap e.interest (sym s)
    split false q a m d = d.2 x q ∙ m.2 x q ∙ a.2 x q
