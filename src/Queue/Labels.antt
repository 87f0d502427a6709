-- ===== src/Queue/Labels.antt =====
-- `threads.iter().find(..)` of `Queue::run` in src/queue.rs: the thread with a label.
use mvsync.Base.{
  ℕ, zero, suc, ◌<◌, true, false, Option, none, some, List, [], ◌∷◌, String, ◌≡◌, refl, subst, inl,
  inr, Bool-cases, get_elem?, arith,
}
use mvsync.Worker.{WorkerThread}
use mvsync.Queue.Dispatch.{has_label, find_label}
use mathlib.Core.Option
use mathlib.Core.Option.{some-injective}

abbrev pub IsFirst : String → List WorkerThread → ℕ → Type 0
IsFirst label ts i =
    (c : WorkerThread) × (get_elem? ts i ≡ some c)
    × (has_label label c ≡ true)
    × ((j : ℕ) (d : WorkerThread) → j < i → get_elem? ts j ≡ some d → has_label label d ≡ false)

unlabelled-cons :
    (label : String) (t : WorkerThread) (ts : List WorkerThread) (i : ℕ)
    → has_label label t ≡ false
    → ((j : ℕ) (d : WorkerThread) → j < i → get_elem? ts j ≡ some d → has_label label d ≡ false)
    → (j : ℕ) (d : WorkerThread) → j < suc i
    → get_elem? (t ∷ ts) j ≡ some d
    → has_label label d ≡ false
unlabelled-cons label t ts i miss rest zero d lt e =
    subst (λ x. has_label label x ≡ false) (some-injective _ _ e) miss
unlabelled-cons label t ts i miss rest (suc j) d lt e = rest j d (omega arith) e

pub find_label-IsFirst :
    (label : String) (ts : List WorkerThread) (i : ℕ)
    → find_label label ts ≡ some i
    → IsFirst label ts i
unfolding find_label
find_label-IsFirst label [] i e = cc
find_label-IsFirst label (t ∷ ts) i e = elim (Bool-cases (has_label label t)) [
  | inl hit ↦
      subst (IsFirst label (t ∷ ts)) (some-injective _ _ (rw hit at e))
        (t, refl, hit, λ j d lt. absurd (omega arith))
  | inr miss ↦ behind (find_label label ts) (find_label-IsFirst label ts) miss (rw miss at e)
]
  where
    behind :
        (r : Option ℕ)
        → ((k : ℕ) → r ≡ some k → IsFirst label ts k)
        → has_label label t ≡ false
        → Option.map suc r ≡ some i
        → IsFirst label (t ∷ ts) i
    behind none found miss h = cc
    behind (some k) found miss h =
        let (c, at, ok, none_before) = found k refl in
        subst (IsFirst label (t ∷ ts)) (some-injective _ _ h)
          (c, at, ok, unlabelled-cons label t ts k miss none_before)

pub find_label-none :
    (label : String) (ts : List WorkerThread)
    → find_label label ts ≡ none
    → (j : ℕ) (d : WorkerThread) → get_elem? ts j ≡ some d
    → has_label label d ≡ false
unfolding find_label
find_label-none label [] e j d at = cc
find_label-none label (t ∷ ts) e j d at = elim (Bool-cases (has_label label t)) [
  | inl hit ↦ absurd (found (rw hit at e))
  | inr miss ↦
      elsewhere j at miss
        (find_label-none label ts (none_behind (find_label label ts) (rw miss at e)))
]
  where
    found : ◌≡◌ {A = Option ℕ} (some 0) none → ⊥
    found h = cc

    none_behind : (r : Option ℕ) → Option.map suc r ≡ none → r ≡ none
    none_behind none h = refl
    none_behind (some k) h = cc

    elsewhere :
        (j : ℕ)
        → get_elem? (t ∷ ts) j ≡ some d
        → has_label label t ≡ false
        → ((j : ℕ) (d : WorkerThread) → get_elem? ts j ≡ some d → has_label label d ≡ false)
        → has_label label d ≡ false
    elsewhere zero at miss rest =
        subst (λ x. has_label label x ≡ false) (some-injective _ _ at) miss
    elsewhere (suc j) at miss rest = rest j d at
