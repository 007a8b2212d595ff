-- ===== src/Headers.antt =====
-- The header maps of include/ws/http.h, `std::map<std::string, std::string>`: a list of pairs in
-- the order of the keys, which is the order in which `toString` walks them.
pub mod Laws
use cxx_epoll_http_server.Common.{
  Bool, true, false, Option, none, some, List, [], ◌∷◌, Bytes, beq, ltb, ◌==◌, if◌then◌else◌,
}

abbrev pub Headers : Type 0
Headers = List (Bytes × Bytes)

-- `std::string::operator<`: by bytes, a proper prefix first.
unfoldable pub before : Bytes → Bytes → Bool
before [] [] = false
before [] (y ∷ ys) = true
before (x ∷ xs) [] = false
before (x ∷ xs) (y ∷ ys) =
    let rest = before xs ys in if ltb x y then true else if x == y then rest else false

-- `find`, with the value that the iterator points at.
unfoldable pub find : Bytes → Headers → Option Bytes
find k [] = none
find k ((j, v) ∷ m) = if beq j k then some v else find k m

-- `m[k] = v`.
unfoldable pub set : Bytes → Bytes → Headers → Headers
unfolding before
set k v [] = (k, v) ∷ []
set k v ((j, w) ∷ m) =
    let rest = set k v m in
    if beq j k then (k, v) ∷ m else if before k j then (k, v) ∷ (j, w) ∷ m else (j, w) ∷ rest
