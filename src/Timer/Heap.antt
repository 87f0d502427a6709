-- ===== src/Timer/Heap.antt =====
-- The heap of src/timer.rs: what a pop gives.
use mvsync.Base.{
  ℕ, ◌≤◌, Bool, true, false, ◌||◌, Option, none, some, List, [], ◌∷◌, ◌≡◌, refl, sym, ap, ◌∙◌, leb,
  All, All-mono, if-cases, if◌then◌else◌, arith,
}
use mvsync.Timer.{TimerEntry, pop, at_least}

-- Some entry is due at an instant.
abbrev pub has_by : ℕ → List TimerEntry → Bool
has_by at [] = false
has_by at (e ∷ es) = leb e.when at || has_by at es

-- What a pop gives is an earliest entry.
abbrev pub IsPop : List TimerEntry → Option (TimerEntry × List TimerEntry) → Type 0
IsPop es none = es ≡ []
IsPop es (some (m, rest)) =
    ((at : ℕ) → has_by at es ≡ leb m.when at) × All (λ e. m.when ≤ e.when) es

pub pop-IsPop : (es : List TimerEntry) → IsPop es (pop es)
unfolding pop
pop-IsPop [] = refl
pop-IsPop (e ∷ es) = at (pop es) (pop-IsPop es)
  where
    at :
        (r : Option (TimerEntry × List TimerEntry))
        → IsPop es r
        → IsPop (e ∷ es) (elim r [
          | none ↦ some (e, [])
          | some (m, rest) ↦ if at_least e m then some (e, es) else some (m, e ∷ rest)
        ])
    at none h = rw h ((λ t. ground arith), (omega arith, tt))
    at (some (m, rest)) (by, least) =
        if-cases (IsPop (e ∷ es)) (at_least e m) _ _
          (λ le. (
            (λ t. ap (λ b. leb e.when t || b) (by t) ∙ ground arith),
            (omega arith, All-mono _ _ es (λ x h. ground arith) least),
          ))
          (λ gt. ((λ t. ap (λ b. leb e.when t || b) (by t) ∙ ground arith), (ground arith, least)))

pub has_by_mono : (s t : ℕ) (es : List TimerEntry) → s ≤ t → has_by s es ≡ true → has_by t es ≡ true
has_by_mono s t [] le h = h
has_by_mono s t (e ∷ es) le h = ground (arith, has_by_mono s t es le)

-- What a pop takes where some entry is due.
pub pop-due :
    (t : ℕ) (es : List TimerEntry)
    → has_by t es ≡ true
    → (e : TimerEntry) × (rest : List TimerEntry) × (pop es ≡ some (e, rest))
      × (e.when ≤ t)
      × All (λ x. e.when ≤ x.when) es
pop-due t es h = at (pop es) (pop-IsPop es) refl
  where
    at :
        (r : Option (TimerEntry × List TimerEntry))
        → IsPop es r
        → pop es ≡ r
        → (e : TimerEntry) × (rest : List TimerEntry) × (pop es ≡ some (e, rest))
          × (e.when ≤ t)
          × All (λ x. e.when ≤ x.when) es
    at none k e = let f : false ≡ true = sym (ap (has_by t) k) ∙ h in cc
    at (some (m, rest)) (by, least) e =
        let d : leb m.when t ≡ true = sym (by t) ∙ h in (m, rest, e, ground arith, least)
