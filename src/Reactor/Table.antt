-- ===== src/Reactor/Table.antt =====
-- The loop's table of connections: what is in it is open, and an event changes one entry.
use cxx_epoll_http_server.Common.{
  ℕ, ◌≡◌, ◌≢◌, refl, sym, ap, subst, ◌∙◌, ◌⊎◌, inl, inr, Bool, false, ◌&&◌, ◌||◌, Option, none,
  some, List, [], ◌∷◌, ◌++◌, ◌==◌, ==_refl, if◌then◌else◌, if_cases, arith,
}
use native.Mathlib.Decide.{ℕ_discrete}
use cxx_epoll_http_server.Buffer.{ReadResult}
use cxx_epoll_http_server.Buffer.Invariant
use cxx_epoll_http_server.Buffer.Invariant.{Fits}
use cxx_epoll_http_server.Kernel.{WriteResult}
use cxx_epoll_http_server.Http.{HttpRequest, HttpResponse}
use cxx_epoll_http_server.Timer.{contains, erase_id}
use cxx_epoll_http_server.Connection.{Connection, Scene, Call, poller_del, close_fd, handle_read}
use cxx_epoll_http_server.Connection.Lifecycle.{mods, Lives, Dies, Life, Life-trans, Life-refl}
use cxx_epoll_http_server.Connection.Handlers.{Result}
use cxx_epoll_http_server.Connection.Release.{
  handle_error-Life, handle_write-Life, handle_read-Life,
}
use cxx_epoll_http_server.Connection.Total.{
  total_bytes, handle_read_total, handle_write-input, handle_error-input,
}
use cxx_epoll_http_server.Reactor.{
  Connections, Reactor, Event, update, scene_of, put_back, has_fd, then_write, on_event,
}

-- An entry is that of an open connection of this descriptor, with a valid input buffer.
abbrev pub Good : ℕ → Connection → Type 0
Good fd c = (c.is_closed ≡ false) × (c.fd ≡ some fd) × Invariant.IsValid c.input

unfoldable pub IsValid : Reactor → Type 0
IsValid r = (fd : ℕ) (c : Connection) → r.connections fd ≡ some c → Good fd c

-- How a handler leaves the connection that the loop called it for.
abbrev pub Handled : ℕ → Scene → Scene → Type 0
Handled fd s s' = (Lives fd s s' ⊎ Dies fd s s') × Invariant.IsValid s'.conn.input

pub update_same : (fd : ℕ) (o : Option Connection) (m : Connections) → update fd o m fd ≡ o
unfolding update
update_same fd o m = ap (λ b. if b then o else m fd) (==_refl fd)

pub update_other :
    (fd x : ℕ) (o : Option Connection) (m : Connections) → x ≢ fd → update fd o m x ≡ m x
unfolding update
update_other fd x o m n = ap (λ b. if b then o else m x) different
  where
    different : (x == fd) ≡ false
    different = ground (arith, n)

then_write-Life : (out : Bool) (s : Scene) → Life s (then_write out s)
unfolding then_write
then_write-Life out s =
    if_cases (Life s) (has_fd s.conn.fd && out) (λ _. handle_write-Life s) (λ _. Life-refl s)

then_write-input : (out : Bool) (s : Scene) → (then_write out s).conn.input ≡ s.conn.input
unfolding then_write
then_write-input out s =
    if_cases (λ (x : Scene). x.conn.input ≡ s.conn.input) (has_fd s.conn.fd && out)
      (λ _. handle_write-input s) (λ _. refl)

-- A result that a handler leaves behind.
abbrev pub Leaves : Scene → Option Scene → Type 0
Leaves s o = (s' : Scene) × (o ≡ some s') × Life s s' × Invariant.IsValid s'.conn.input

written :
    (out : Bool) (s : Scene) (o : Option Scene)
    → Leaves s o
    → Leaves s (elim o as (λ _. Option Scene) [ none ↦ none | some s' ↦ some (then_write out s') ])
written out s o (s', e, l, v) = (
  then_write out s',
  ap
      (λ (q : Option Scene). elim q as (λ _. Option Scene) [
        | none ↦ none
        | some s' ↦ some (then_write out s')
      ])
      e,
  Life-trans s s' _ l (then_write-Life out s'),
  subst Invariant.IsValid (sym (then_write-input out s')) v,
)

module _ (handler : Scene → HttpRequest → HttpResponse → HttpResponse) where
  read-Leaves :
      (t : ℕ) (s : Scene)
      → Invariant.IsValid s.conn.input
      → Fits s.conn.input (total_bytes s.reads)
      → Leaves s (handle_read handler t s)
  read-Leaves t s v f =
      let (s', e, w) = handle_read_total handler t s v f in
      (s', e, subst (Result Life s) e (handle_read-Life handler t s), w)

  -- `handleRead` and `handleWrite`, as an event asks for them, or `handleError`.
  pub on_event-Leaves :
      (e : Event) (s : Scene)
      → Invariant.IsValid s.conn.input
      → Fits s.conn.input (total_bytes s.reads)
      → Leaves s (on_event handler e s)
  unfolding on_event
  on_event-Leaves e s v f =
      if_cases (Leaves s) e.hup_or_err
        (λ _.
          (_, refl, handle_error-Life s, subst Invariant.IsValid (sym (handle_error-input s)) v))
        (λ _. written e.out s _ (
          if_cases (Leaves s) e.readable (λ _. read-Leaves e.time s v f)
            (λ _. (s, refl, Life-refl s, v))))

-- What an entry becomes.
pub put_back-entry :
    (fd : ℕ) (s : Scene) (r : Reactor)
    → (put_back fd s r).connections fd ≡ (if contains s.connections fd then some s.conn else none)
unfolding put_back
put_back-entry fd s r = update_same fd _ r.connections

pub put_back-others :
    (fd x : ℕ) (s : Scene) (r : Reactor)
    → x ≢ fd
    → (put_back fd s r).connections x ≡ r.connections x
unfolding put_back
put_back-others fd x s r n = update_other fd x _ r.connections n

-- The entry of `fd` behind an event: of an open connection as before, or gone, with its descriptor
-- taken off the poller and closed.
abbrev pub Fate : ℕ → Reactor → Reactor → Type 0
Fate fd r r' =
    ((c : Connection) × (r'.connections fd ≡ some c)
      × Good fd c
      × ((bs : List Bool) × (r'.calls ≡ r.calls ++ mods fd bs)))
    ⊎ ((r'.connections fd ≡ none)
        × ((bs : List Bool) × (r'.calls
              ≡ r.calls ++ (mods fd bs ++ poller_del fd ∷ close_fd fd ∷ []))))

pub put_back-Fate :
    (fd : ℕ) (c : Connection) (rs : List ReadResult) (ws : List WriteResult) (r : Reactor)
    (s' : Scene)
    → Good fd c
    → Life (scene_of r fd c rs ws) s'
    → Invariant.IsValid s'.conn.input
    → Fate fd r (put_back fd s' r)
unfolding scene_of contains erase_id put_back
put_back-Fate fd c rs ws r s' g l v = elim (l.while_open fd (g.0, g.1)) [
  | inl (o, m, (bs, e)) ↦ inl (
    s'.conn,
    put_back-entry fd s' r ∙ ap (entry s'.conn) m ∙ stays,
    (o.0, o.1, v),
    (bs, calls s' _ e),
  )
  | inr (x, f, m, (bs, e)) ↦
      inr (put_back-entry fd s' r ∙ ap (entry s'.conn) m ∙ leaves, (bs, calls s' _ e))
]
  where
    entry : Connection → List ℕ → Option Connection
    entry c m = if contains m fd then some c else none

    stays : entry s'.conn (fd ∷ []) ≡ some s'.conn
    stays = ap (λ b. if b || false then some s'.conn else none) (==_refl fd)

    leaves : entry s'.conn (erase_id (fd ∷ []) fd) ≡ none
    leaves = ap (λ b. entry s'.conn (if b then [] else fd ∷ [])) (==_refl fd)

    calls : (s : Scene) (d : List Call) → s.calls ≡ d → (put_back fd s r).calls ≡ d
    calls s d e = e

Fate-Good :
    (fd : ℕ) (r r' : Reactor)
    → Fate fd r r'
    → (c : Connection) → r'.connections fd ≡ some c
    → Good fd c
Fate-Good fd r r' (inl (d, e, g, l)) c h = let q : d ≡ c = cc in subst (Good fd) q g
Fate-Good fd r r' (inr (e, l)) c h = cc

-- A change of one entry keeps the table.
pub one_entry-IsValid :
    (fd : ℕ) (r r' : Reactor)
    → IsValid r
    → Fate fd r r'
    → ((x : ℕ) → x ≢ fd → r'.connections x ≡ r.connections x)
    → IsValid r'
unfolding IsValid
one_entry-IsValid fd r r' v f o x c h = elim (ℕ_discrete x fd) [
  | yes e ↦ subst (λ y. Good y c) (sym e) (Fate-Good fd r r' f c (ap r'.connections (sym e) ∙ h))
  | no n ↦ v x c (sym (o x n) ∙ h)
]
