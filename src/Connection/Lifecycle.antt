-- ===== src/Connection/Lifecycle.antt =====
-- What the methods of a connection tell `epoll` and the kernel, and what becomes of its descriptor
-- and of its entry in the loop's table.
use cxx_epoll_http_server.Common.{
  ℕ, ◌≡◌, refl, sym, ap, ◌∙◌, ◌⊎◌, inl, inr, Bool, true, false, none, some, List, [], ◌∷◌, ◌++◌,
  map, append_assoc, append-nil,
}
use cxx_epoll_http_server.Timer.{erase_id}
use cxx_epoll_http_server.Connection.{Scene, Call, poller_del, poller_mod, close_fd}

abbrev pub Open : ℕ → Scene → Type 0
Open fd s = (s.conn.is_closed ≡ false) × (s.conn.fd ≡ some fd)

abbrev pub mods : ℕ → List Bool → List Call
mods fd bs = map (poller_mod fd) bs

abbrev pub Same : Scene → Scene → Type 0
Same s s' =
    (s'.conn.is_closed ≡ s.conn.is_closed)
    × (s'.conn.fd ≡ s.conn.fd)
    × (s'.connections ≡ s.connections)
    × (s'.calls ≡ s.calls)

abbrev pub Lives : ℕ → Scene → Scene → Type 0
Lives fd s s' =
    Open fd s'
    × (s'.connections ≡ s.connections)
    × ((bs : List Bool) × (s'.calls ≡ s.calls ++ mods fd bs))

abbrev pub Dies : ℕ → Scene → Scene → Type 0
Dies fd s s' =
    (s'.conn.is_closed ≡ true)
    × (s'.conn.fd ≡ none)
    × (s'.connections ≡ erase_id s.connections fd)
    × ((bs : List Bool) × (s'.calls ≡ s.calls ++ (mods fd bs ++ poller_del fd ∷ close_fd fd ∷ [])))

pub record Life (s s' : Scene) : Type 0 where
  pub while_open : (fd : ℕ) → Open fd s → Lives fd s s' ⊎ Dies fd s s'
  pub when_closed : s.conn.is_closed ≡ true → Same s s'

pub Same-Life : (s s' : Scene) → Same s s' → Life s s'
Same-Life s s' e = record {
  while_open = λ fd o. inl ((e.0 ∙ o.0, e.1 ∙ o.1), e.2, ([], e.3 ∙ sym (append-nil s.calls)));
  when_closed = λ _. e;
}

map-append : (fd : ℕ) (bs cs : List Bool) → mods fd (bs ++ cs) ≡ mods fd bs ++ mods fd cs
map-append fd [] cs = refl
map-append fd (b ∷ bs) cs = ap (λ q. poller_mod fd b ∷ q) (map-append fd bs cs)

more_calls :
    (fd : ℕ) (calls : List Call) (bs cs : List Bool) (rest : List Call)
    → (calls ++ mods fd bs) ++ (mods fd cs ++ rest) ≡ calls ++ (mods fd (bs ++ cs) ++ rest)
more_calls fd calls bs cs rest =
    append_assoc calls _ _
    ∙ ap (λ q. calls ++ q)
        (sym (append_assoc (mods fd bs) _ _) ∙ ap (λ q. q ++ rest) (sym (map-append fd bs cs)))

Lives-Life :
    (fd : ℕ) (s t u : Scene)
    → Lives fd s t
    → Lives fd t u ⊎ Dies fd t u
    → Lives fd s u ⊎ Dies fd s u
Lives-Life fd s t u (o, c, (bs, e)) (inl (o', c', (cs, e'))) = inl (
  o',
  c' ∙ c,
  (
    bs ++ cs,
    e'
        ∙ ap (λ q. q ++ mods fd cs) e
        ∙ append_assoc s.calls _ _
        ∙ ap (λ q. s.calls ++ q) (sym (map-append fd bs cs)),
  ),
)
Lives-Life fd s t u (o, c, (bs, e)) (inr (x, f, c', (cs, e'))) = inr (
  x,
  f,
  c' ∙ ap (λ m. erase_id m fd) c,
  (
    bs ++ cs,
    e'
        ∙ ap (λ q. q ++ (mods fd cs ++ poller_del fd ∷ close_fd fd ∷ [])) e
        ∙ more_calls fd s.calls bs cs _,
  ),
)

pub Life-trans : (s t u : Scene) → Life s t → Life t u → Life s u
Life-trans s t u a b = record {
  while_open = λ fd o. elim (a.while_open fd o) [
    | inl l ↦ Lives-Life fd s t u l (b.while_open fd l.0)
    | inr d ↦
        let e = b.when_closed d.0 in inr (e.0 ∙ d.0, e.1 ∙ d.1, e.2 ∙ d.2, (d.3.0, e.3 ∙ d.3.1))
  ];
  when_closed = λ c.
      let e = a.when_closed c in
      let e' = b.when_closed (e.0 ∙ c) in (e'.0 ∙ e.0, e'.1 ∙ e.1, e'.2 ∙ e.2, e'.3 ∙ e.3);
}

pub Life-refl : (s : Scene) → Life s s
Life-refl s = Same-Life s s (refl, refl, refl, refl)
