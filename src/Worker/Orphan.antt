-- ===== src/Worker/Orphan.antt =====
-- A thread whose handle is gone, in the loop of `WorkerThread::run` in src/queue.rs: what a turn does, and how
-- the loop is left.
use mvsync.Base.{
  ℕ, zero, suc, true, false, not, ◌&&◌, List, [], ◌∷◌, ◌≡◌, refl, sym, subst, ◌⊎◌, inl, inr,
  is_empty, if-cases, Bool-cases, elem, ◌==◌, ◌<◌, All, arith,
}
use mvsync.World.{World}
use mvsync.Exec.{M, ◌>>=◌, pure, Exec, Returns, Returns-and_then, Returns-mono}
use mvsync.Signal
use mvsync.Worker
use mvsync.Worker.{WorkerThread, Running, receive, poll_all, park, turn, run}
use mvsync.Worker.Moves.{states}
use mvsync.Worker.Received.{receive-drained}
use mvsync.Worker.Turns.{Goes, turn-Goes}
use mvsync.Worker.Grows.{IsDone, IsUp}
use mvsync.Worker.Finish.{Ends, Later, Kept, Accounts, retain-Kept}

abbrev pub EndsAll : ℕ → List Running → Type 0
EndsAll n = All (λ r. Ends n r.state r.inner)

-- What is done stays done.
abbrev pub Lasts : World → World → Type 0
Lasts v w = (i : ℕ) → IsDone v i → IsDone w i

-- The loop was left with nothing left, and the tasks with the states `ss` are done.
abbrev pub Left : List ℕ → World → Worker.Turn → World → Type 0
Left ss v (Worker.ends t) w =
    (t.channel ≡ []) × (t.futures ≡ []) × (t.end ≡ 2) × Lasts v w × All (IsDone w) ss
Left ss v _ w = ⊥

pub Left-mono :
    (ss ss' : List ℕ) (v v' : World) (r : Exec Worker.Turn)
    → Lasts v' v
    → ((w : World) → Lasts v w → All (IsDone w) ss → All (IsDone w) ss')
    → Returns (Left ss v) r
    → Returns (Left ss' v') r
Left-mono ss ss' v v' r lasts f = Returns-mono (Left ss v) (Left ss' v') r at
  where
    at : (u : Worker.Turn) (w : World) → Left ss v u w → Left ss' v' u w
    at (Worker.ends t) w (empty, idle, ended, more, d) =
        (empty, idle, ended, (λ i e. more i (lasts i e)), f w more d)
    at (Worker.continues t) w h = absurd h
    at (Worker.parked t) w h = absurd h

-- A thread whose handle is gone, in its loop.
abbrev pub IsOrphan : WorkerThread → Type 0
IsOrphan t = (t.connected ≡ false) × (t.end ≡ 0)

elem-All : (P : ℕ → Type 0) (s : ℕ) (ks : List ℕ) → elem s ks ≡ true → All P ks → P s
elem-All P s [] e d = cc
elem-All P s (k ∷ ks) e (p, d) = elim (Bool-cases (k == s)) [
  | inl same ↦ subst P (ground arith) p
  | inr other ↦ elem-All P s ks (ground arith) d
]

pub Accounts-All :
    (v w : World) (ss : List ℕ) (kept : List Running)
    → Accounts v ss kept
    → Lasts v w
    → All (IsDone w) (states kept)
    → All (IsDone w) ss
Accounts-All v w [] kept a g d = tt
Accounts-All v w (s ∷ ss) kept (inl e, a) g d = (g s e, Accounts-All v w ss kept a g d)
Accounts-All v w (s ∷ ss) kept (inr e, a) g d =
    (elem-All (IsDone w) s (states kept) e d, Accounts-All v w ss kept a g d)

Accounts-Lasts :
    (v w : World) (ss : List ℕ) (kept : List Running)
    → Lasts v w
    → Accounts v ss kept
    → Accounts w ss kept
Accounts-Lasts v w [] kept g a = tt
Accounts-Lasts v w (s ∷ ss) kept g (inl e, a) = (inl (g s e), Accounts-Lasts v w ss kept g a)
Accounts-Lasts v w (s ∷ ss) kept g (inr e, a) = (inr e, Accounts-Lasts v w ss kept g a)

-- A pass over the futures and the wait after it, from the world `v` on.
abbrev pub After : ℕ → WorkerThread → World → WorkerThread → World → Type 0
After n t v u w =
    (u.channel ≡ t.channel)
    × IsOrphan u
    × All (λ r. Later n r.state r.inner) u.futures
    × Lasts v w
    × Accounts w (states t.futures) u.futures

park-Lasts :
    (t : WorkerThread) (w : World)
    → ((is_empty t.futures ≡ true) ⊎ IsUp w t.signal)
    → Returns (λ u v. (u ≡ t) × Lasts w v) (park t w)
unfolding park Signal.wait
park-Lasts t w (inl idle) = rw (idle, Returns) (refl, λ i e. e)
park-Lasts t w (inr up) =
    if-cases (λ (m : M WorkerThread). Returns (λ u v. (u ≡ t) × Lasts w v) (m w))
      (not (is_empty t.futures) && is_empty t.channel) _ _ (λ _. rw (up, Returns) (refl, λ i e. e))
      (λ _. (refl, λ i e. e))

pub pass-After :
    (n : ℕ) (t : WorkerThread) (v : World)
    → IsOrphan t
    → EndsAll n t.futures
    → Returns (After n t v) ((poll_all t >>= park) v)
unfolding poll_all
pass-After n t v orphan ends =
    Returns-and_then (λ u w. After n t v u w × ((is_empty u.futures ≡ true) ⊎ IsUp w u.signal))
      (After n t v) (poll_all t v) park
      (Returns-and_then (Kept t.signal n t.futures v) _
        (Worker.retain t.signal t.futures t.free_workers v) _
        (retain-Kept t.signal n t.futures t.free_workers v ends)
        (λ (kept, _) w (g, later, up, a). ((refl, orphan, later, g.over, a), up)))
      (λ u w ((same, alone, later, g, a), up).
        Returns-mono (λ x y. (x ≡ u) × Lasts w y) (After n t v) (park u w)
          (λ x y (e, g').
            subst (λ z. After n t v z y) (sym e)
              (
                same,
                alone,
                later,
                (λ i d. g' i (g i d)),
                Accounts-Lasts w y (states t.futures) u.futures g' a,
              ))
          (park-Lasts u w up))

module _ (ss : List ℕ) (v : World) where
  pub run-continues :
      (fuel : ℕ) (t u : WorkerThread) (w : World)
      → receive false t ≡ Worker.continues u
      → Returns (λ x y. Returns (Left ss v) (run fuel false x y)) ((poll_all u >>= park) w)
      → Returns (Left ss v) (run (suc fuel) false t w)
  unfolding run
  run-continues fuel t u w r h =
      Returns-and_then (Goes next) (Left ss v) (turn false t w) _ (turn-Goes next false t u w r h)
        at
    where
      next : WorkerThread → World → Type 0
      next x y = Returns (Left ss v) (run fuel false x y)

      at :
          (r : Worker.Turn) (y : World)
          → Goes next r y
          → Returns (Left ss v) (
              (elim r as (λ _. M Worker.Turn) [
                | Worker.continues x ↦ run fuel false x
                | Worker.ends x ↦ pure (Worker.ends x)
                | Worker.parked x ↦ pure (Worker.parked x)
              ])
                y)
      at (Worker.continues x) y h = h
      at (Worker.ends x) y h = absurd h
      at (Worker.parked x) y h = absurd h

  pub run-drained :
      (fuel : ℕ) (t : WorkerThread) (w : World)
      → 0 < fuel
      → t.futures ≡ []
      → t.channel ≡ []
      → IsOrphan t
      → Lasts v w
      → All (IsDone w) ss
      → Returns (Left ss v) (run fuel false t w)
  unfolding run turn
  run-drained zero t w some idle empty orphan g d = absurd (omega arith)
  run-drained (suc fuel) t w some idle empty (gone, _) g d =
      rw (receive-drained t idle empty gone, Returns) (empty, idle, refl, g, d)
