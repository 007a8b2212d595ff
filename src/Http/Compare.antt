-- ===== src/Http/Compare.antt =====
-- `iequals` and `keepAlive`.
use cxx_epoll_http_server.Common.{
  ◌≡◌, ◌≢◌, ◌↔◌, ◌⊎◌, inl, inr, refl, sym, ◌∙◌, Bool, true, false, not, [], ◌∷◌, Bytes, codes, map,
  to_lower, length, arith, ◌==◌, beq, beq_iff, if_true, if_false, Bool-cases,
}
use cxx_epoll_http_server.Http.{HttpRequest, get_header, iequals, same_lower, keep_alive}

same_lower_iff :
    (a b : Bytes)
    → ((length a == length b) ≡ true) × (same_lower a b ≡ true) ↔ (map to_lower a ≡ map to_lower b)
unfolding same_lower
same_lower_iff [] [] = ground arith
same_lower_iff [] (y ∷ ys) = ground arith
same_lower_iff (x ∷ xs) [] = ground arith
same_lower_iff (x ∷ xs) (y ∷ ys) = ground (arith, same_lower_iff xs ys)

-- `iequals` holds exactly if the two texts are the same once every letter is in lower case.
pub iequals_iff : (a b : Bytes) → (iequals a b ≡ true) ↔ (map to_lower a ≡ map to_lower b)
unfolding iequals
iequals_iff a b = ground (arith, same_lower_iff a b)

-- The rule of the protocol: 1.0 closes unless the client asks to keep the connection, and any other
-- version keeps it unless the client asks to close it, in upper or lower case.
abbrev pub Persists : HttpRequest → Type 0
Persists req =
    let asked = map to_lower (get_header req (codes "connection")) in
    ((req.version ≡ codes "HTTP/1.0") × (asked ≡ map to_lower (codes "keep-alive")))
    ⊎ ((req.version ≢ codes "HTTP/1.0") × (asked ≢ map to_lower (codes "close")))

refuted : (b : Bool) → not b ≡ true → b ≢ true
refuted true h e = cc
refuted false h e = cc

ne_true : (b : Bool) → b ≢ true → not b ≡ true
ne_true true n = absurd (n refl)
ne_true false n = refl

keep_alive-Persists : (req : HttpRequest) → keep_alive req ≡ true → Persists req
unfolding keep_alive
keep_alive-Persists req h = elim (Bool-cases (beq req.version (codes "HTTP/1.0"))) [
  | inl e ↦ inl (
    (beq_iff req.version _).0 e,
    (iequals_iff (get_header req (codes "connection")) _).0 (sym (if_true _ _ _ e) ∙ h),
  )
  | inr e ↦ inr (
    λ v. (let b = (beq_iff req.version _).1 v in cc),
    λ a.
        refuted _ (sym (if_false _ _ _ e) ∙ h)
          ((iequals_iff (get_header req (codes "connection")) _).1 a),
  )
]

Persists-keep_alive : (req : HttpRequest) → Persists req → keep_alive req ≡ true
unfolding keep_alive
Persists-keep_alive req (inl (v, a)) =
    if_true _ _ _ ((beq_iff req.version _).1 v)
    ∙ (iequals_iff (get_header req (codes "connection")) _).1 a
Persists-keep_alive req (inr (v, a)) = elim (Bool-cases (beq req.version (codes "HTTP/1.0"))) [
  | inl e ↦ absurd (v ((beq_iff req.version _).0 e))
  | inr e ↦
      if_false _ _ _ e
      ∙ ne_true _ (λ c. a ((iequals_iff (get_header req (codes "connection")) _).0 c))
]

-- `keepAlive` follows the rule.
pub keep_alive_iff : (req : HttpRequest) → (keep_alive req ≡ true) ↔ Persists req
keep_alive_iff req = (keep_alive-Persists req, Persists-keep_alive req)
