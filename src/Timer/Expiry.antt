-- ===== src/Timer/Expiry.antt =====
-- `expire`: which timers run, in which order, and what is left. Callbacks that leave the timers
-- alone are followed exactly; for any callbacks that add no timer which is due already, the loop
-- ends.
use cxx_epoll_http_server.Common.{
  ℕ, zero, suc, ◌+◌, ◌≤◌, ◌<◌, ◌≡◌, ◌≢◌, refl, sym, ap, ◌∙◌, true, false, Option, none, some, List,
  [], ◌∷◌, length, arith, inl, inr, Bool-cases, Option-cases, leb, if◌then◌else◌,
}
use cxx_epoll_http_server.Timer.{
  Entry, TimerHeap, Expiring, contains, erase_id, run_cb, expire_entry, expire_round, expire_loop,
  expire,
}
use cxx_epoll_http_server.Timer.Order.{AllFrom, IsSorted, LacksId, Distinct, IsValid}

module _ {K : Type 0} (t : ℕ) where
  -- The entries that are due at `t`, and how many there are.
  unfoldable pub due_count : List (Entry K) → ℕ
  due_count [] = 0
  due_count (e ∷ es) = if leb e.when t then suc (due_count es) else due_count es

  -- The entries that `expire` is to run: those that are due and not cancelled.
  unfoldable pub to_run : List ℕ → List (Entry K) → List (Entry K)
  to_run c [] = []
  to_run c (e ∷ es) =
      let rest = to_run c es in
      if leb e.when t then (if contains c e.id then rest else e ∷ rest) else rest

  -- The entries that stay, and the cancelled ids that stay.
  unfoldable pub kept : List (Entry K) → List (Entry K)
  kept [] = []
  kept (e ∷ es) = let rest = kept es in if leb e.when t then rest else e ∷ rest

  unfoldable pub kept_ids : List ℕ → List (Entry K) → List ℕ
  kept_ids c [] = c
  kept_ids c (e ∷ es) = kept_ids (if leb e.when t then erase_id c e.id else c) es

  all_late :
      (c : List ℕ) (s : ℕ) (es : List (Entry K))
      → t < s
      → AllFrom s es
      → (to_run c es ≡ []) × (kept es ≡ es) × (kept_ids c es ≡ c)
  unfolding to_run kept kept_ids
  all_late c s [] h a = (refl, refl, refl)
  all_late c s (e ∷ es) h a = ground (arith, all_late c s es h a.1)

contains-erase_ne : (c : List ℕ) (i j : ℕ) → i ≢ j → contains (erase_id c i) j ≡ contains c j
unfolding contains erase_id
contains-erase_ne [] i j h = refl
contains-erase_ne (x ∷ c) i j h = ground (arith, contains-erase_ne c i j h)

erase_id_absent : (c : List ℕ) (i : ℕ) → contains c i ≡ false → erase_id c i ≡ c
unfolding contains erase_id
erase_id_absent [] i h = refl
erase_id_absent (x ∷ c) i h = ground (arith, erase_id_absent c i)

to_run-erase :
    {K : Type 0} (t i : ℕ) (c : List ℕ) (es : List (Entry K))
    → LacksId i es
    → to_run t (erase_id c i) es ≡ to_run t c es
unfolding to_run
to_run-erase t i c [] l = refl
to_run-erase t i c (e ∷ es) l =
    ground (arith, contains-erase_ne c i e.id (λ q. l.0 (sym q)), to_run-erase t i c es l.1)

to_run-AllFrom :
    {K : Type 0} (t s : ℕ) (c : List ℕ) (es : List (Entry K))
    → AllFrom s es
    → AllFrom s (to_run t c es)
unfolding to_run
to_run-AllFrom t s c [] a = tt
to_run-AllFrom t s c (e ∷ es) a = ground (arith, to_run-AllFrom t s c es a.1)

to_run-IsSorted :
    {K : Type 0} (t : ℕ) (c : List ℕ) (es : List (Entry K)) → IsSorted es → IsSorted (to_run t c es)
unfolding to_run
to_run-IsSorted t c [] s = tt
to_run-IsSorted t c (e ∷ es) s =
    ground (arith, to_run-IsSorted t c es s.1, to_run-AllFrom t e.when c es s.0)

kept-AllFrom : {K : Type 0} (t : ℕ) (es : List (Entry K)) → AllFrom (suc t) (kept t es)
unfolding kept
kept-AllFrom t [] = tt
kept-AllFrom t (e ∷ es) = ground (arith, kept-AllFrom t es)

module _ {K W : Type 0} (exec : K → TimerHeap K → W → TimerHeap K × W) (t : ℕ) where
  -- Running callbacks one after the other, on the world alone.
  unfoldable pub run_all : TimerHeap K → List (Entry K) → W → W
  run_all h [] w = w
  run_all h (e ∷ es) w = run_all h es (run_cb exec t e.cb h w).1

  -- A callback that does nothing to the timers, nor depends on them.
  unfoldable pub LeavesTimers : Type 0
  LeavesTimers =
      (k : K) (h g : TimerHeap K) (w : W) → ((exec k h w).0 ≡ h) × ((exec k h w).1 ≡ (exec k g w).1)

  run_cb-leaves :
      LeavesTimers
      → (cb : Option K) (h g : TimerHeap K) (w : W)
      → ((run_cb exec t cb h w).0 ≡ h) × ((run_cb exec t cb h w).1 ≡ (run_cb exec t cb g w).1)
  unfolding run_cb LeavesTimers
  run_cb-leaves l none h g w = (refl, refl)
  run_cb-leaves l (some k) h g w = l k h g w

  run_all-leaves :
      LeavesTimers
      → (h g : TimerHeap K) (es : List (Entry K)) (w : W) → run_all h es w ≡ run_all g es w
  unfolding run_all
  run_all-leaves l h g [] w = refl
  run_all-leaves l h g (e ∷ es) w =
      ap (run_all h es) (run_cb-leaves l e.cb h g w).1 ∙ run_all-leaves l h g es _

  -- The state of the loop with its parts named.
  abbrev expiring : List (Entry K) → List ℕ → ℕ → W → ℕ → Expiring K W
  expiring es c n w k = record {
    timers = record { heap = es; cancelled = c; next_id = n };
    world = w;
    fired = k;
  }

  -- What the loop is to leave.
  abbrev expired : List (Entry K) → List ℕ → ℕ → W → ℕ → Expiring K W
  expired es c n w k =
      let h : TimerHeap K = record { heap = es; cancelled = c; next_id = n } in
      expiring (kept t es) (kept_ids t c es) n (run_all h (to_run t c es) w)
        (k + length (to_run t c es))

  loop_next :
      (f : ℕ) (s s' : Expiring K W)
      → expire_round exec t s ≡ some s'
      → expire_loop exec t (suc f) s ≡ expire_loop exec t f s'
  unfolding expire_loop
  loop_next f s s' e = rw (e, expire_loop)

  pub loop_end :
      (f : ℕ) (s : Expiring K W)
      → expire_round exec t s ≡ none
      → expire_loop exec t (suc f) s ≡ some s
  unfolding expire_loop
  loop_end f s e = rw (e, expire_loop)

  module _ (leaves : LeavesTimers) (n : ℕ) where
    round_late :
        (e : Entry K) (es : List (Entry K)) (c : List ℕ) (w : W) (k : ℕ)
        → leb e.when t ≡ false
        → expire_round exec t (expiring (e ∷ es) c n w k) ≡ none
    unfolding expire_round
    round_late e es c w k l = rw l

    round_cancelled :
        (e : Entry K) (es : List (Entry K)) (c : List ℕ) (w : W) (k : ℕ)
        → leb e.when t ≡ true
        → contains c e.id ≡ true
        → expire_round exec t (expiring (e ∷ es) c n w k)
          ≡ some (expiring es (erase_id c e.id) n w k)
    unfolding expire_round expire_entry
    round_cancelled e es c w k l m = rw (l, m)

    round_fired :
        (e : Entry K) (es : List (Entry K)) (c : List ℕ) (w : W) (k : ℕ)
        → leb e.when t ≡ true
        → contains c e.id ≡ false
        → expire_round exec t (expiring (e ∷ es) c n w k)
          ≡ some (
              expiring es c n
                (run_cb exec t e.cb (record { heap = es; cancelled = c; next_id = n }) w).1
                (k + 1))
    unfolding expire_round expire_entry
    round_fired e es c w k l m =
        rw (l, m)
          (ap
            (λ h. some (record {
              timers = h;
              world = (run_cb exec t e.cb (record { heap = es; cancelled = c; next_id = n }) w).1;
              fired = k + 1;
            }))
            (run_cb-leaves leaves e.cb (record { heap = es; cancelled = c; next_id = n })
              (record { heap = es; cancelled = c; next_id = n }) w).0)

    expired-cancelled :
        (e : Entry K) (es : List (Entry K)) (c : List ℕ) (w : W) (k : ℕ)
        → leb e.when t ≡ true
        → contains c e.id ≡ true
        → LacksId e.id es
        → expired es (erase_id c e.id) n w k ≡ expired (e ∷ es) c n w k
    unfolding to_run kept kept_ids
    expired-cancelled e es c w k l m d =
        rw (l, m, to_run-erase t e.id c es d)
          (ap
            (λ v.
              expiring (kept t es) (kept_ids t (erase_id c e.id) es) n v
                (k + length (to_run t c es)))
            (run_all-leaves leaves _ _ (to_run t c es) w))

    expired-fired :
        (e : Entry K) (es : List (Entry K)) (c : List ℕ) (w : W) (k : ℕ)
        → leb e.when t ≡ true
        → contains c e.id ≡ false
        → expired es c n
            (run_cb exec t e.cb (record { heap = es; cancelled = c; next_id = n }) w).1
            (k + 1)
          ≡ expired (e ∷ es) c n w k
    unfolding to_run kept kept_ids run_all
    expired-fired e es c w k l m =
        let h : TimerHeap K = record { heap = es; cancelled = c; next_id = n } in
        let g : TimerHeap K = record { heap = e ∷ es; cancelled = c; next_id = n } in
        let r = to_run t c es in
        rw (l, m, erase_id_absent c e.id m)
          (ap (λ v. expiring (kept t es) (kept_ids t c es) n v (k + 1 + length r))
              (run_all-leaves leaves _ g r _ ∙ ap (run_all g r) (run_cb-leaves leaves e.cb h g w).1)
            ∙ ap (expiring (kept t es) (kept_ids t c es) n _) (omega arith))

    expired-late :
        (e : Entry K) (es : List (Entry K)) (c : List ℕ) (w : W) (k : ℕ)
        → leb e.when t ≡ false
        → AllFrom e.when es
        → expiring (e ∷ es) c n w k ≡ expired (e ∷ es) c n w k
    unfolding to_run kept kept_ids run_all
    expired-late e es c w k l a =
        let q = all_late t c e.when es (ground arith) a in
        rw (l, q.0, q.1, q.2) (ap (expiring (e ∷ es) c n w) (omega arith))

    expired-nil : (c : List ℕ) (w : W) (k : ℕ) → expiring [] c n w k ≡ expired [] c n w k
    unfolding to_run kept kept_ids run_all
    expired-nil c w k = ap (expiring [] c n w) (omega arith)

    round_nil : (c : List ℕ) (w : W) (k : ℕ) → expire_round exec t (expiring [] c n w k) ≡ none
    unfolding expire_round
    round_nil c w k = refl

    expire_loop-expired :
        (f : ℕ) (es : List (Entry K)) (c : List ℕ) (w : W) (k : ℕ)
        → length es < f
        → IsSorted es
        → Distinct es
        → expire_loop exec t f (expiring es c n w k) ≡ some (expired es c n w k)
    expire_loop-expired zero es c w k h s d = absurd (omega arith)
    expire_loop-expired (suc f) [] c w k h s d =
        loop_end f _ (round_nil c w k) ∙ ap some (expired-nil c w k)
    expire_loop-expired (suc f) (e ∷ es) c w k h s d = elim (Bool-cases (leb e.when t)) [
      | inl l ↦ elim (Bool-cases (contains c e.id)) [
        | inl m ↦
            loop_next f _ _ (round_cancelled e es c w k l m)
            ∙ expire_loop-expired f es (erase_id c e.id) w k (omega arith) s.1 d.1
            ∙ ap some (expired-cancelled e es c w k l m d.0)
        | inr m ↦
            loop_next f _ _ (round_fired e es c w k l m)
            ∙ expire_loop-expired f es c _ (k + 1) (omega arith) s.1 d.1
            ∙ ap some (expired-fired e es c w k l m)
      ]
      | inr l ↦ loop_end f _ (round_late e es c w k l) ∙ ap some (expired-late e es c w k l s.0)
    ]

  -- On valid timers, where no callback changes the timers or depends on them, `expire` ends with
  -- fuel for one round more than there are timers: it runs the callbacks of exactly the due
  -- entries whose ids are not cancelled, in order of time, and counts them; the entries that stay
  -- are those that are not due, and the cancelled ids that came up are forgotten.
  pub expire_lem :
      LeavesTimers
      → (f : ℕ) (h : TimerHeap K) (w : W) → length h.heap < f
      → IsValid h
      → let runs = to_run t h.cancelled h.heap in
        (expire exec t f h w
          ≡ some (record {
            timers = record h { heap = kept t h.heap; cancelled = kept_ids t h.cancelled h.heap };
            world = run_all h runs w;
            fired = length runs;
          }))
        × IsSorted runs
        × AllFrom (suc t) (kept t h.heap)
  unfolding expire run_all
  expire_lem leaves f h w l v =
      let runs = to_run t h.cancelled h.heap in
      (
        expire_loop-expired leaves h.next_id f h.heap h.cancelled w 0 l v.sorted v.distinct
            ∙ ap
                (λ k. some (
                  expiring (kept t h.heap) (kept_ids t h.cancelled h.heap) h.next_id
                    (run_all h runs w) k))
                (omega arith),
        to_run-IsSorted t h.cancelled h.heap v.sorted,
        kept-AllFrom t h.heap,
      )

  -- A callback after which no more timers are due than before it.
  unfoldable pub AddsNoDue : Type 0
  AddsNoDue =
      (k : K) (h : TimerHeap K) (w : W) → due_count t (exec k h w).0.heap ≤ due_count t h.heap

  cb-due_count :
      AddsNoDue
      → (cb : Option K) (h : TimerHeap K) (w : W)
      → due_count t (run_cb exec t cb h w).0.heap ≤ due_count t h.heap
  unfolding run_cb AddsNoDue
  cb-due_count a none h w = omega arith
  cb-due_count a (some k) h w = a k h w

  entry-due_count :
      AddsNoDue
      → (e : Entry K) (s : Expiring K W)
      → due_count t (expire_entry exec t e s).timers.heap ≤ due_count t s.timers.heap
  unfolding expire_entry
  entry-due_count a e s = elim (Bool-cases (contains s.timers.cancelled e.id)) [
    | inl c ↦ rw c (omega arith)
    | inr c ↦ rw c (cb-due_count a e.cb s.timers s.world)
  ]

  round_empty :
      (c : List ℕ) (n : ℕ) (w : W) (k : ℕ) → expire_round exec t (expiring [] c n w k) ≡ none
  unfolding expire_round
  round_empty c n w k = refl

  round_due :
      (x : Entry K) (es : List (Entry K)) (c : List ℕ) (n : ℕ) (w : W) (k : ℕ)
      → leb x.when t ≡ true
      → expire_round exec t (expiring (x ∷ es) c n w k)
        ≡ some (expire_entry exec t x (expiring es c n w k))
  unfolding expire_round
  round_due x es c n w k l = rw l

  pub round_not_due :
      (x : Entry K) (es : List (Entry K)) (c : List ℕ) (n : ℕ) (w : W) (k : ℕ)
      → leb x.when t ≡ false
      → expire_round exec t (expiring (x ∷ es) c n w k) ≡ none
  unfolding expire_round
  round_not_due x es c n w k l = rw l

  -- Each round takes away a due entry.
  round-due_count :
      AddsNoDue
      → (es : List (Entry K)) (c : List ℕ) (n : ℕ) (w : W) (k : ℕ) (s' : Expiring K W)
      → expire_round exec t (expiring es c n w k) ≡ some s'
      → due_count t s'.timers.heap < due_count t es
  unfolding expire_round due_count
  round-due_count a [] c n w k s' e = let q = sym (round_empty c n w k) ∙ e in cc
  round-due_count a (x ∷ es) c n w k s' e = elim (Bool-cases (leb x.when t)) [
    | inl l ↦
        let r = sym (round_due x es c n w k l) ∙ e in
        let q : expire_entry exec t x (expiring es c n w k) ≡ s' = cc in
        let m = entry-due_count a x (expiring es c n w k) in rw (l, sym q) (omega arith)
    | inr l ↦ let q = sym (round_not_due x es c n w k l) ∙ e in cc
  ]

  loop_ends :
      AddsNoDue
      → (f : ℕ) (s : Expiring K W) → due_count t s.timers.heap < f
      → (r : Expiring K W) × (expire_loop exec t f s ≡ some r)
  loop_ends a zero s l = absurd (omega arith)
  loop_ends a (suc f) s l = elim (Option-cases (expire_round exec t s)) [
    | inl q ↦ (s, loop_end f s q)
    | inr (s', q) ↦
        let m =
          round-due_count a s.timers.heap s.timers.cancelled s.timers.next_id s.world s.fired s'
            q in
        let r = loop_ends a f s' (omega arith) in (r.0, loop_next f s s' q ∙ r.1)
  ]

  -- `expire` ends for any callbacks after which no more timers are due than before, though they
  -- may add and cancel timers: fuel for one round more than there are due timers is enough.
  pub expire_total :
      AddsNoDue
      → (f : ℕ) (h : TimerHeap K) (w : W) → due_count t h.heap < f
      → (r : Expiring K W) × (expire exec t f h w ≡ some r)
  unfolding expire
  expire_total a f h w l = loop_ends a f (record { timers = h; world = w; fired = 0 }) l
