-- ===== src/Task/Ids.antt =====
-- Lists of tasks by the addresses of their states, which tell tasks apart.
use mvsync.Base.{ℕ, List, [], ◌∷◌, ◌++◌, ◌≡◌, refl, ap, modify, zero, suc}
use mvsync.Task.{Task}

abbrev pub ids : List Task → List ℕ
ids [] = []
ids (t ∷ ts) = t.self_state ∷ ids ts

pub ids-append : (ts us : List Task) → ids (ts ++ us) ≡ ids ts ++ ids us
ids-append [] us = refl
ids-append (t ∷ ts) us = ap (λ xs. t.self_state ∷ xs) (ids-append ts us)

pub ids-modify :
    (ts : List Task) (i : ℕ) (f : Task → Task)
    → ((t : Task) → (f t).self_state ≡ t.self_state)
    → ids (modify ts i f) ≡ ids ts
ids-modify [] i f h = refl
ids-modify (t ∷ ts) zero f h = ap (λ a. a ∷ ids ts) (h t)
ids-modify (t ∷ ts) (suc i) f h = ap (λ xs. t.self_state ∷ xs) (ids-modify ts i f h)
