-- ===== src/Queue/Choice.antt =====
-- Which thread `Queue::run` chooses for a task.
use mvsync.Base.{
  ℕ, zero, suc, ◌≤◌, ◌<◌, true, false, Option, none, some, List, [], ◌∷◌, String, ◌≡◌, refl, subst,
  inl, inr, leb, Bool-cases, Option-cases, get_elem?, arith,
}
use mvsync.Task.{Task}
use mvsync.Worker.{WorkerThread}
use mvsync.Queue.Labels.{IsFirst, find_label-IsFirst, find_label-none}
use mvsync.Queue.Dispatch.{has_label, allowed, find_label, better, max_by_key, target_thread}
use mathlib.Core.Option
use mathlib.Core.Option.{some-injective}

-- No allowed thread has more free workers than the i-th, and none behind it has as many.
abbrev pub IsBest : List String → List WorkerThread → ℕ → WorkerThread → Type 0
IsBest not_on ts i c =
    (get_elem? ts i ≡ some c)
    × (allowed not_on c ≡ true)
    × ((j : ℕ) (d : WorkerThread)
        → get_elem? ts j ≡ some d
        → allowed not_on d ≡ true
        → (d.free_workers ≤ c.free_workers) × (i < j → d.free_workers < c.free_workers))

abbrev Best : List String → List WorkerThread → Option (ℕ × ℕ) → Type 0
Best not_on ts none =
    (j : ℕ) (d : WorkerThread) → get_elem? ts j ≡ some d → allowed not_on d ≡ true → ⊥
Best not_on ts (some (i, k)) = (c : WorkerThread) × IsBest not_on ts i c × (c.free_workers ≡ k)

-- A statement on the allowed threads of a list, from its head and its tail.
on-cons :
    (not_on : List String) (P : ℕ → WorkerThread → Type 0) (t : WorkerThread)
    (ts : List WorkerThread)
    → (allowed not_on t ≡ true → P 0 t)
    → ((j : ℕ) (d : WorkerThread) → get_elem? ts j ≡ some d → allowed not_on d ≡ true → P (suc j) d)
    → (j : ℕ) (d : WorkerThread) → get_elem? (t ∷ ts) j ≡ some d
    → allowed not_on d ≡ true
    → P j d
on-cons not_on P t ts head tail zero d e ok =
    subst (λ x. allowed not_on x ≡ true → P 0 x) (some-injective _ _ e) head ok
on-cons not_on P t ts head tail (suc j) d e ok = tail j d e ok

abbrev Dominates : ℕ → WorkerThread → ℕ → WorkerThread → Type 0
Dominates i c j d = (d.free_workers ≤ c.free_workers) × (i < j → d.free_workers < c.free_workers)

module _ (not_on : List String) (t : WorkerThread) (ts : List WorkerThread) where
  skip :
      (r : Option (ℕ × ℕ))
      → allowed not_on t ≡ false
      → Best not_on ts r
      → Best not_on (t ∷ ts) (Option.map (λ (j, best). (suc j, best)) r)
  skip none h b = on-cons not_on (λ _ _. ⊥) t ts (λ ok. cc) b
  skip (some (i, k)) h (c, (at, ok, top), e) = (
    c,
    (
      at,
      ok,
      on-cons not_on (Dominates (suc i) c) t ts (λ ok. cc)
          λ j d a b. ((top j d a b).0, λ lt. (top j d a b).1 (omega arith)),
    ),
    e,
  )

  join :
      (r : Option (ℕ × ℕ))
      → allowed not_on t ≡ true
      → Best not_on ts r
      → Best not_on (t ∷ ts) (better t.free_workers r)
  unfolding better
  join none h b = (
    t,
    (
      refl,
      h,
      on-cons not_on (Dominates 0 t) t ts (λ ok. omega arith) λ j d a ok. absurd (b j d a ok),
    ),
    refl,
  )
  join (some (i, k)) h (c, (at, ok, top), e) = elim (Bool-cases (leb t.free_workers k)) [
    | inl le ↦ rw le (
      c,
      (
        at,
        ok,
        on-cons not_on (Dominates (suc i) c) t ts (λ _. ground arith)
            λ j d a b. ((top j d a b).0, λ lt. (top j d a b).1 (omega arith)),
      ),
      e,
    )
    | inr gt ↦ rw gt (
      t,
      (
        refl,
        h,
        on-cons not_on (Dominates 0 t) t ts (λ _. omega arith)
            λ j d a b. ground (arith, top j d a b),
      ),
      refl,
    )
  ]

max_by_key-Best :
    (not_on : List String) (ts : List WorkerThread) → Best not_on ts (max_by_key not_on ts)
unfolding max_by_key
max_by_key-Best not_on [] = λ j d e ok. cc
max_by_key-Best not_on (t ∷ ts) = elim (Bool-cases (allowed not_on t)) [
  | inl e ↦ rw e (join not_on t ts _ e (max_by_key-Best not_on ts))
  | inr e ↦ rw e (skip not_on t ts _ e (max_by_key-Best not_on ts))
]

-- What the choice comes to, by the task's preferred thread and its exclusions.
abbrev pub IsTarget : Option String → List String → List WorkerThread → Option ℕ → Type 0
IsTarget (some label) not_on ts (some i) = IsFirst label ts i
IsTarget (some label) not_on ts none =
    (j : ℕ) (d : WorkerThread) → get_elem? ts j ≡ some d → has_label label d ≡ false
IsTarget none not_on ts (some i) = (c : WorkerThread) × IsBest not_on ts i c
IsTarget none not_on ts none =
    (j : ℕ) (d : WorkerThread) → get_elem? ts j ≡ some d → allowed not_on d ≡ false

-- A task that prefers a label gets the first thread with that label, and none only if no thread has it. Any
-- other task gets a thread that it does not exclude, such that no thread that it does not exclude has more
-- free workers and none behind it has as many, and none only if it excludes every thread.
pub target_thread-IsTarget :
    (t : Task) (threads : List WorkerThread)
    → IsTarget t.preferred_thread t.not_on threads (target_thread t threads)
unfolding target_thread
target_thread-IsTarget t threads = elim (Option-cases t.preferred_thread) [
  | inl free ↦
      rw (free, IsTarget) (best (max_by_key t.not_on threads) (max_by_key-Best t.not_on threads))
  | inr (label, prefers) ↦
      rw (prefers, IsTarget)
        (first label (find_label label threads) (find_label-IsFirst label threads)
          (find_label-none label threads))
]
  where
    best :
        (r : Option (ℕ × ℕ))
        → Best t.not_on threads r
        → IsTarget none t.not_on threads (Option.map (λ (j, best). j) r)
    best none b = λ j d at. elim (Bool-cases (allowed t.not_on d)) [
      | inl ok ↦ absurd (b j d at ok)
      | inr bad ↦ bad
    ]
    best (some (j, k)) (c, is_best, _) = (c, is_best)

    first :
        (label : String) (r : Option ℕ)
        → ((i : ℕ) → r ≡ some i → IsFirst label threads i)
        → (r ≡ none
            → (j : ℕ) (d : WorkerThread) → get_elem? threads j ≡ some d
            → has_label label d ≡ false)
        → IsTarget (some label) t.not_on threads r
    first label none found missed = missed refl
    first label (some i) found missed = found i refl

-- The two cases of a task with no preferred thread.
pub target_thread-IsBest :
    (t : Task) (threads : List WorkerThread) (i : ℕ)
    → t.preferred_thread ≡ none
    → target_thread t threads ≡ some i
    → (c : WorkerThread) × IsBest t.not_on threads i c
target_thread-IsBest t threads i free e = subst (IsTarget none t.not_on threads) e (
    subst (λ p. IsTarget p t.not_on threads (target_thread t threads)) free
      (target_thread-IsTarget t threads))

pub target_thread-none :
    (t : Task) (threads : List WorkerThread) (j : ℕ) (d : WorkerThread)
    → t.preferred_thread ≡ none
    → target_thread t threads ≡ none
    → get_elem? threads j ≡ some d
    → allowed t.not_on d ≡ false
target_thread-none t threads j d free e =
    subst (IsTarget none t.not_on threads) e
      (subst (λ p. IsTarget p t.not_on threads (target_thread t threads)) free
        (target_thread-IsTarget t threads))
      j d
