-- ===== src/Logger/Async/Naming.antt =====
-- The names of files: what `rename` and a new content do to each, and that the name with a time
-- stamp is another one.
use cxx_epoll_http_server.Common.{
  ◌≡◌, ◌≢◌, refl, ap, ◌∙◌, Bool, true, false, Option, none, some, [], ◌∷◌, ◌++◌, Bytes, beq,
  beq_refl, arith, if◌then◌else◌,
}
use cxx_epoll_http_server.Logger.Async.{bytes_of, Files, put, remove, content, rename}

pub put_same : (f : Files) (n c : Bytes) → put f n c n ≡ some c
unfolding put
put_same f n c = ap (λ b. if b then some c else f n) (beq_refl n)

pub put_other : (f : Files) (n m c : Bytes) → beq m n ≡ false → put f n c m ≡ f m
unfolding put
put_other f n m c e = ap (λ b. if b then some c else f m) e

remove_other : (f : Files) (n m : Bytes) → beq m n ≡ false → remove f n m ≡ f m
unfolding remove
remove_other f n m e = ap (λ b. if b then none else f m) e

pub content-put : (f : Files) (n c : Bytes) → content (put f n c) n ≡ c
unfolding content
content-put f n c = ap bytes_of (put_same f n c)

remove_same : (f : Files) (n : Bytes) → remove f n n ≡ none
unfolding remove
remove_same f n = ap (λ b. if b then none else f n) (beq_refl n)

pub longer : (p s : Bytes) → s ≢ [] → beq (p ++ s) p ≡ false
unfolding beq
longer [] [] n = absurd (n refl)
longer [] (c ∷ s) n = refl
longer (x ∷ p) s n = ground (arith, longer p s n)

pub shorter : (p s : Bytes) → s ≢ [] → beq p (p ++ s) ≡ false
unfolding beq
shorter [] [] n = absurd (n refl)
shorter [] (c ∷ s) n = refl
shorter (x ∷ p) s n = ground (arith, shorter p s n)

-- The files behind `rename`, by the two names.
module _ (f : Files) (n m c : Bytes) (e : f n ≡ some c) where
  rename_there : (b : Bool) → rename b f n m ≡ (if b then put (remove f n) m c else f)
  unfolding rename
  rename_there b =
      ap
        (λ (o : Option Bytes). elim o as (λ _. Files) [
          | none ↦ f
          | some c ↦ if b then put (remove f n) m c else f
        ])
        e

  pub rename-new : (b : Bool) → rename b f n m m ≡ (if b then some c else f m)
  rename-new true = ap (λ g. g m) (rename_there true) ∙ put_same (remove f n) m c
  rename-new false = ap (λ g. g m) (rename_there false)

  pub rename-old : beq n m ≡ false → (b : Bool) → rename b f n m n ≡ (if b then none else some c)
  rename-old d true =
      ap (λ g. g n) (rename_there true) ∙ put_other (remove f n) m n c d ∙ remove_same f n
  rename-old d false = ap (λ g. g n) (rename_there false) ∙ e
