-- ===== src/Timer/Order.antt =====
-- The order of the timers, and the ids: what `add` and `cancel` keep.
use cxx_epoll_http_server.Common.{
  ℕ, ◌+◌, ◌≤◌, ◌<◌, ◌≡◌, ◌≢◌, ◌%◌, ◌^◌, sym, Option, List, [], ◌∷◌, arith, inl, inr, Bool-cases,
  ltb,
}
use cxx_epoll_http_server.Timer.{Entry, TimerHeap, push, add, cancel, insert_id}

-- Every cancelled id was given out.
abbrev pub IssuedIds : ℕ → List ℕ → Type 0
IssuedIds n [] = Unit {0}
IssuedIds n (i ∷ is) = ((0 < i) × (i < n)) × IssuedIds n is

IssuedIds-mono : (m n : ℕ) (is : List ℕ) → m ≤ n → IssuedIds m is → IssuedIds n is
IssuedIds-mono m n [] l h = tt
IssuedIds-mono m n (i ∷ is) l h = ((h.0.0, omega arith), IssuedIds-mono m n is l h.1)

module _ {K : Type 0} where
  -- No entry of the list is due before `t`.
  abbrev pub AllFrom : ℕ → List (Entry K) → Type 0
  AllFrom t [] = Unit {0}
  AllFrom t (e ∷ es) = (t ≤ e.when) × AllFrom t es

  abbrev pub IsSorted : List (Entry K) → Type 0
  IsSorted [] = Unit {0}
  IsSorted (e ∷ es) = AllFrom e.when es × IsSorted es

  -- No entry has the id, and each id is there once and was given out.
  abbrev pub LacksId : ℕ → List (Entry K) → Type 0
  LacksId i [] = Unit {0}
  LacksId i (e ∷ es) = (e.id ≢ i) × LacksId i es

  abbrev pub Distinct : List (Entry K) → Type 0
  Distinct [] = Unit {0}
  Distinct (e ∷ es) = LacksId e.id es × Distinct es

  abbrev pub Issued : ℕ → List (Entry K) → Type 0
  Issued n [] = Unit {0}
  Issued n (e ∷ es) = ((0 < e.id) × (e.id < n)) × Issued n es

  pub record IsValid (h : TimerHeap K) : Type 0 where
    pub sorted : IsSorted h.heap
    pub distinct : Distinct h.heap
    pub issued : Issued h.next_id h.heap
    pub cancelled_issued : IssuedIds h.next_id h.cancelled
    pub positive : 0 < h.next_id

  pub AllFrom-mono : {s t : ℕ} (es : List (Entry K)) → s ≤ t → AllFrom t es → AllFrom s es
  AllFrom-mono [] h a = tt
  AllFrom-mono (e ∷ es) h a = (omega arith, AllFrom-mono es h a.1)

  push-AllFrom :
      (t : ℕ) (e : Entry K) (es : List (Entry K))
      → t ≤ e.when
      → AllFrom t es
      → AllFrom t (push e es)
  unfolding push
  push-AllFrom t e [] h a = (h, tt)
  push-AllFrom t e (x ∷ xs) h a = ground (arith, push-AllFrom t e xs h a.1)

  push-IsSorted : (e : Entry K) (es : List (Entry K)) → IsSorted es → IsSorted (push e es)
  unfolding push
  push-IsSorted e [] s = (tt, tt)
  push-IsSorted e (x ∷ xs) s = elim (Bool-cases (ltb e.when x.when)) [
    | inl l ↦ let le : e.when ≤ x.when = ground arith in rw l ((le, AllFrom-mono xs le s.0), s)
    | inr l ↦ rw l (push-AllFrom x.when e xs (ground arith) s.0, push-IsSorted e xs s.1)
  ]

  push-LacksId :
      (i : ℕ) (e : Entry K) (es : List (Entry K)) → e.id ≢ i → LacksId i es → LacksId i (push e es)
  unfolding push
  push-LacksId i e [] h a = (h, tt)
  push-LacksId i e (x ∷ xs) h a = ground (arith, push-LacksId i e xs h a.1)

  Issued-LacksId : (n : ℕ) (es : List (Entry K)) → Issued n es → LacksId n es
  Issued-LacksId n [] h = tt
  Issued-LacksId n (e ∷ es) h = (omega arith, Issued-LacksId n es h.1)

  push-Distinct :
      (e : Entry K) (es : List (Entry K)) → LacksId e.id es → Distinct es → Distinct (push e es)
  unfolding push
  push-Distinct e [] l d = (tt, tt)
  push-Distinct e (x ∷ xs) l d = elim (Bool-cases (ltb e.when x.when)) [
    | inl b ↦ rw b (l, d)
    | inr b ↦ rw b (push-LacksId x.id e xs (λ q. l.0 (sym q)) d.0, push-Distinct e xs l.1 d.1)
  ]

  Issued-mono : (m n : ℕ) (es : List (Entry K)) → m ≤ n → Issued m es → Issued n es
  Issued-mono m n [] l h = tt
  Issued-mono m n (e ∷ es) l h = ((h.0.0, omega arith), Issued-mono m n es l h.1)

  push-Issued :
      (n : ℕ) (e : Entry K) (es : List (Entry K))
      → 0 < e.id
      → e.id < n
      → Issued n es
      → Issued n (push e es)
  unfolding push
  push-Issued n e [] p l h = ((p, l), tt)
  push-Issued n e (x ∷ xs) p l h = ground (arith, push-Issued n e xs p l h.1)

  -- Adding a timer to valid timers whose ids are not used up gives valid timers: sorted by time,
  -- with ids that differ and were given out.
  pub add-IsValid :
      (when : ℕ) (cb : Option K) (h : TimerHeap K)
      → h.next_id + 1 < 2 ^ 64
      → IsValid h
      → IsValid (add when cb h).1
  unfolding add
  add-IsValid when cb h b v =
      let e : Entry K = record { when = when; cb = cb; id = h.next_id } in
      rw next record {
        sorted = push-IsSorted e h.heap v.sorted;
        distinct = push-Distinct e h.heap (Issued-LacksId h.next_id h.heap v.issued) v.distinct;
        issued =
            push-Issued (h.next_id + 1) e h.heap v.positive (omega arith)
              (Issued-mono h.next_id (h.next_id + 1) h.heap (omega arith) v.issued);
        cancelled_issued =
            IssuedIds-mono h.next_id (h.next_id + 1) h.cancelled (omega arith) v.cancelled_issued;
        positive = omega arith;
      }
    where
      next : (h.next_id + 1) % 2 ^ 64 ≡ h.next_id + 1
      next = omega arith

  pub cancel-IsValid : (id : ℕ) (h : TimerHeap K) → IsValid h → IsValid (cancel id h)
  unfolding cancel insert_id
  cancel-IsValid id h v = ground (arith, v.cancelled_issued)
