-- ===== src/Timer/Served.antt =====
-- The loop of the timer thread of src/timer.rs over a heap in which every entry is due.
use mvsync.Base.{
  ℕ, suc, ◌≤◌, true, Option, none, some, List, [], ◌∷◌, ◌≡◌, refl, ◌∙◌, subst, map, leb, length,
  All, All-mono, if-cases, if◌then◌else◌, arith,
}
use mathlib.Core.List.Permᴰ
use mathlib.Core.List.{Perm, Permᴰ}
use mvsync.World.{World}
use mvsync.Exec.{done}
use mvsync.Signal
use mvsync.Timer
use mvsync.Timer.{TimerEntry, Timer, Stage, pop, at_least}
use mvsync.Timer.Heap.{IsPop, pop-IsPop}
use mvsync.Timer.Lost.{advance_at}

All-Perm : (Q : TimerEntry → Type 0) {es fs : List TimerEntry} → Permᴰ es fs → All Q es → All Q fs
All-Perm Q Permᴰ.nil all = all
All-Perm Q (Permᴰ.cons e d) (q, qs) = (subst Q e q, All-Perm Q d qs)
All-Perm Q (Permᴰ.swap e e') (p, (q, qs)) = (subst Q e' q, (subst Q e p, qs))
All-Perm Q (Permᴰ.trans d d') all = All-Perm Q d' (All-Perm Q d all)

-- What a pop gives and what it leaves are the entries of the heap.
abbrev Splits : List TimerEntry → Option (TimerEntry × List TimerEntry) → Type 0
Splits es none = es ≡ []
Splits es (some (m, rest)) = Permᴰ es (m ∷ rest) × (length es ≡ suc (length rest))

pop-Splits : (es : List TimerEntry) → Splits es (pop es)
unfolding pop
pop-Splits [] = refl
pop-Splits (e ∷ es) = at (pop es) (pop-Splits es)
  where
    at :
        (r : Option (TimerEntry × List TimerEntry))
        → Splits es r
        → Splits (e ∷ es) (elim r [
          | none ↦ some (e, [])
          | some (m, rest) ↦ if at_least e m then some (e, es) else some (m, e ∷ rest)
        ])
    at none h = rw h (Permᴰ.refl (e ∷ []), refl)
    at (some (m, rest)) (d, n) =
        if-cases (Splits (e ∷ es)) (at_least e m) _ _ (λ _. (Permᴰ.refl (e ∷ es), refl))
          (λ _. (Permᴰ.trans (Permᴰ.cons refl d) (Permᴰ.swap refl refl), omega arith))

abbrev pub IsSorted : List TimerEntry → Type 0
IsSorted [] = Unit {0}
IsSorted (e ∷ es) = All (λ x. e.when ≤ x.when) es × IsSorted es

-- Every entry is due at the instant.
abbrev pub IsPast : List TimerEntry → ℕ → Type 0
IsPast es t = All (λ (e : TimerEntry). e.when ≤ t) es

-- Each instant for four steps.
abbrev pub four : List ℕ → List ℕ
four [] = []
four (t ∷ ts) = t ∷ t ∷ t ∷ t ∷ four ts

abbrev pub peeking : List TimerEntry → Timer
peeking es = record { entries = es; stage = Stage.peeking }

four-steps :
    (es rest : List TimerEntry) (m : TimerEntry) (t : ℕ) (ts : List ℕ) (w : World)
    → pop es ≡ some (m, rest)
    → m.when ≤ t
    → advance_at (four (t ∷ ts)) (peeking es) w
      ≡ advance_at (four ts) (peeking rest) (Signal.call m.waker w)
unfolding advance_at Timer.advance Timer.peek_when
four-steps es rest m t ts w e le =
    let due : leb m.when t ≡ true = ground arith in rw e (rw due (rw (e, Timer.advance) refl))

module _ (t : ℕ) (ts : List ℕ)
    (ih : (es : List TimerEntry) (w : World)
      → length ts ≡ length es
      → All (IsPast es) ts
      → (out : List TimerEntry) × Permᴰ es out
        × IsSorted out
        × (advance_at (four ts) (peeking es) w
            ≡ done (peeking []) (Signal.drain (map (λ (e : TimerEntry). e.waker) out) w))) where
  next-served :
      (e : TimerEntry) (es : List TimerEntry) (w : World)
      → length ts ≡ length es
      → IsPast (e ∷ es) t
      → All (IsPast (e ∷ es)) ts
      → (r : Option (TimerEntry × List TimerEntry)) → pop (e ∷ es) ≡ r
      → IsPop (e ∷ es) r
      → Splits (e ∷ es) r
      → (out : List TimerEntry) × Permᴰ (e ∷ es) out
        × IsSorted out
        × (advance_at (four (t ∷ ts)) (peeking (e ∷ es)) w
            ≡ done (peeking []) (Signal.drain (map (λ (e : TimerEntry). e.waker) out) w))
  unfolding Signal.drain
  next-served e es w n past later none at i h = cc
  next-served e es w n past later (some (m, rest)) at (by, least) (d, k) =
      let (out, d', sorted, serves) = ih rest (Signal.call m.waker w) (omega (arith, k)) (
        All-mono (IsPast (e ∷ es)) (IsPast rest) ts (λ u p. (All-Perm (λ x. x.when ≤ u) d p).1)
          later) in
      (
        m ∷ out,
        Permᴰ.trans d (Permᴰ.cons refl d'),
        (All-Perm (λ x. m.when ≤ x.when) d' (All-Perm (λ x. m.when ≤ x.when) d least).1, sorted),
        four-steps (e ∷ es) rest m t ts w at (All-Perm (λ x. x.when ≤ t) d past).0 ∙ serves,
      )

serves :
    (ts : List ℕ) (es : List TimerEntry) (w : World)
    → length ts ≡ length es
    → All (IsPast es) ts
    → (out : List TimerEntry) × Permᴰ es out
      × IsSorted out
      × (advance_at (four ts) (peeking es) w
          ≡ done (peeking []) (Signal.drain (map (λ (e : TimerEntry). e.waker) out) w))
unfolding advance_at Signal.drain
serves [] [] w n past = ([], Permᴰ.nil, tt, refl)
serves [] (e ∷ es) w n past = absurd (omega (arith, n))
serves (t ∷ ts) [] w n past = absurd (omega (arith, n))
serves (t ∷ ts) (e ∷ es) w n (past, later) =
    next-served t ts (serves ts) e es w (omega (arith, n)) past later (pop (e ∷ es)) refl
      (pop-IsPop (e ∷ es)) (pop-Splits (e ∷ es))

-- The timer thread is about to look at its heap, and takes four steps at each of as many instants as there are
-- entries, all of which are due at each of them. Then the heap is empty, the thread is about to look at it
-- again, and the wakers of all entries were called, each once and in the order of their instants.
pub advance_at-serves :
    (ts : List ℕ) (es : List TimerEntry) (w : World)
    → length ts ≡ length es
    → All (IsPast es) ts
    → (out : List TimerEntry) × Perm es out
      × IsSorted out
      × (advance_at (four ts) (peeking es) w
          ≡ done (peeking []) (Signal.drain (map (λ (e : TimerEntry). e.waker) out) w))
advance_at-serves ts es w n past =
    let (out, d, sorted, runs) = serves ts es w n past in (out, ∣ d ∣₁, sorted, runs)
