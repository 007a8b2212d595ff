-- ===== src/Headers/Laws.antt =====
-- What the operations of the header map promise: lookups, size, and the order of the keys.
use cxx_epoll_http_server.Common.{
  ◌+◌, ◌≤◌, ◌≡◌, refl, true, false, some, [], ◌∷◌, Bytes, beq, beq_iff, if◌then◌else◌, length,
  arith, inl, inr, Bool-cases,
}
use cxx_epoll_http_server.Headers.{Headers, before, find, set}

pub find-set :
    (j k v : Bytes) (m : Headers) → find j (set k v m) ≡ (if beq k j then some v else find j m)
unfolding find set
find-set j k v [] = refl
find-set j k v ((i, w) ∷ m) =
    ground (arith, beq_iff k j, beq_iff i k, beq_iff i j, find-set j k v m)

pub length-set_le : (k v : Bytes) (m : Headers) → length (set k v m) ≤ length m + 1
unfolding set
length-set_le k v [] = omega arith
length-set_le k v ((i, w) ∷ m) = ground (arith, length-set_le k v m)

before_trans : (x y z : Bytes) → before x y ≡ true → before y z ≡ true → before x z ≡ true
unfolding before
before_trans [] [] z h k = ground arith
before_trans [] (y ∷ ys) [] h k = ground arith
before_trans [] (y ∷ ys) (z ∷ zs) h k = refl
before_trans (x ∷ xs) [] z h k = ground arith
before_trans (x ∷ xs) (y ∷ ys) [] h k = ground arith
before_trans (x ∷ xs) (y ∷ ys) (z ∷ zs) h k = ground (arith, before_trans xs ys zs)

before_total : (x y : Bytes) → before x y ≡ false → beq y x ≡ false → before y x ≡ true
unfolding before beq
before_total [] [] h k = ground arith
before_total [] (y ∷ ys) h k = ground arith
before_total (x ∷ xs) [] h k = refl
before_total (x ∷ xs) (y ∷ ys) h k = ground (arith, before_total xs ys)

-- Every key of the map comes behind `k`.
abbrev pub AllBehind : Bytes → Headers → Type 0
AllBehind k [] = Unit {0}
AllBehind k ((j, w) ∷ m) = (before k j ≡ true) × AllBehind k m

-- The keys ascend, so none is there twice.
abbrev pub IsSorted : Headers → Type 0
IsSorted [] = Unit {0}
IsSorted ((j, w) ∷ m) = AllBehind j m × IsSorted m

AllBehind-mono : (k j : Bytes) (m : Headers) → before k j ≡ true → AllBehind j m → AllBehind k m
AllBehind-mono k j [] h b = tt
AllBehind-mono k j ((i, w) ∷ m) h b = (before_trans k j i h b.0, AllBehind-mono k j m h b.1)

set-AllBehind :
    (j k v : Bytes) (m : Headers) → before j k ≡ true → AllBehind j m → AllBehind j (set k v m)
unfolding set
set-AllBehind j k v [] h b = (h, tt)
set-AllBehind j k v ((i, w) ∷ m) h b = ground (arith, set-AllBehind j k v m h b.1)

pub set-IsSorted : (k v : Bytes) (m : Headers) → IsSorted m → IsSorted (set k v m)
unfolding set
set-IsSorted k v [] s = (tt, tt)
set-IsSorted k v ((i, w) ∷ m) s = elim (Bool-cases (beq i k)) [
  | inl e ↦ rw e (rw (← (beq_iff i k).0 e) s.0, s.1)
  | inr e ↦ elim (Bool-cases (before k i)) [
    | inl f ↦ rw (e, f) ((f, AllBehind-mono k i m f s.0), s)
    | inr f ↦ rw (e, f) (set-AllBehind i k v m (before_total k i f e) s.0, set-IsSorted k v m s.1)
  ]
]
