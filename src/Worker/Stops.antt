-- ===== src/Worker/Stops.antt =====
-- Which tasks a pass over the futures of a thread removes.
use mvsync.Base.{
  ℕ, ◌+◌, true, false, ◌⊎◌, inl, inr, List, [], ◌∷◌, ◌≡◌, refl, if-cases, count, All, arith,
}
use mvsync.World.{World, TaskState, context}
use mvsync.Exec.{
  done, Poll, Caught, ok, err, catch_unwind, M, IfDone, IfDone-and_then, IfDone-mono, IfDone-self,
  IfDone-both,
}
use mvsync.Task.State
use mvsync.Task.Body
use mvsync.Task.Body.{Inner}
use mvsync.Worker
use mvsync.Worker.{WorkerThread, Running, Verdict}
use mvsync.Worker.Moves.{states}

-- A poll of the entry came to its end, or the task is cancelled after it.
abbrev pub IsOver : Running → Caught (Poll Inner (Unit {0})) → World → Type 0
IsOver r (ok (Poll.ready _)) w = Unit {0}
IsOver r (ok (Poll.pending _)) w = State.eq (w.states r.state) TaskState.cancelled ≡ true
IsOver r (err _) w = Unit {0}

abbrev pub Stops : ℕ → Running → World → Type 0
Stops signal r w =
    (c : Caught (Poll Inner (Unit {0}))) × (v : World) × (catch_unwind
        (Body.poll (context signal) r.inner) w
      ≡ done c v)
    × IsOver r c v

-- In a pass over the entries, from the world in which it starts, the poll of the task's entry stops it.
abbrev pub StopsIn : ℕ → List Running → World → ℕ → Type 0
StopsIn signal [] w i = ⊥
StopsIn signal (r ∷ rs) w i =
    ((r.state ≡ i) × Stops signal r w)
    ⊎ ((x : Verdict) × (v : World) × (Worker.poll_one signal r w ≡ done x v)
        × StopsIn signal rs v i)

-- An entry that is kept is the same task, and one that is removed has stopped.
abbrev Judged : ℕ → Running → World → Verdict → World → Type 0
Judged signal r w (Verdict.keep r') _ = r'.state ≡ r.state
Judged signal r w (Verdict.remove _) _ = Stops signal r w

judge-Judged :
    (signal : ℕ) (r : Running) (w : World) (c : Caught (Poll Inner (Unit {0}))) (v : World)
    → catch_unwind (Body.poll (context signal) r.inner) w ≡ done c v
    → IfDone (Judged signal r w) (Worker.judge r c v)
unfolding Worker.judge
judge-Judged signal r w (ok (Poll.pending inner)) v e =
    if-cases (IfDone (Judged signal r w)) (State.eq (v.states r.state) TaskState.cancelled) _ _
      (λ cancelled. (ok (Poll.pending inner), v, e, cancelled)) (λ _. refl)
judge-Judged signal r w (err p) v e = (err p, v, e, tt)
judge-Judged signal r w (ok (Poll.ready x)) v e = (ok (Poll.ready x), v, e, tt)

poll_one-Judged :
    (signal : ℕ) (r : Running) (w : World) → IfDone (Judged signal r w) (Worker.poll_one signal r w)
unfolding Worker.poll_one
poll_one-Judged signal r w =
    let polled = catch_unwind (Body.poll (context signal) r.inner) w in
    IfDone-and_then (λ c v. polled ≡ done c v) (Judged signal r w) polled (Worker.judge r)
      (IfDone-self polled) (λ c v e. judge-Judged signal r w c v e)

-- Some entries are removed by a pass over the futures, as they have stopped, and the rest stay.
abbrev Stopped : ℕ → List Running → World → List Running × ℕ → World → Type 0
Stopped signal rs w (kept, _) _ =
    (gone : List ℕ) × ((a : ℕ) → count a (states rs) ≡ count a gone + count a (states kept))
    × All (StopsIn signal rs w) gone

module _ (signal : ℕ) (r : Running) (rs : List Running) (w v : World) (x : Verdict)
    (e : Worker.poll_one signal r w ≡ done x v) where
  behind : (is : List ℕ) → All (StopsIn signal rs v) is → All (StopsIn signal (r ∷ rs) w) is
  behind [] h = tt
  behind (i ∷ is) (stops, h) = (inr (x, v, e, stops), behind is h)

  kept-Stopped :
      (r' : Running) (out : List Running × ℕ) (u : World)
      → r'.state ≡ r.state
      → Stopped signal rs v out u
      → Stopped signal (r ∷ rs) w (r' ∷ out.0, out.1) u
  kept-Stopped r' (kept, free) u same (gone, h, all) =
      (gone, (λ a. rw same (omega (arith, h a))), behind gone all)

  removed-Stopped :
      (out : List Running × ℕ) (u : World)
      → Stops signal r w
      → Stopped signal rs v out u
      → Stopped signal (r ∷ rs) w out u
  removed-Stopped (kept, free) u stops (gone, h, all) =
      (r.state ∷ gone, (λ a. omega (arith, h a)), (inl (refl, stops), behind gone all))

  after_verdict-Stopped :
      (rest : ℕ → M (List Running × ℕ))
      → ((free : ℕ) → IfDone (Stopped signal rs v) (rest free v))
      → (free : ℕ) → Judged signal r w x v
      → IfDone (Stopped signal (r ∷ rs) w) (Worker.after_verdict rest free x v)
  unfolding Worker.after_verdict
  after_verdict-Stopped rest h free judged = at x judged
    where
      at :
          (y : Verdict)
          → Judged signal r w y v
          → IfDone (Stopped signal (r ∷ rs) w) (Worker.after_verdict rest free y v)
      at (Verdict.keep r') j =
          IfDone-and_then (Stopped signal rs v) (Stopped signal (r ∷ rs) w) (rest free v) _ (h free)
            (λ out u k. kept-Stopped r' out u j k)
      at (Verdict.remove true) j =
          IfDone-mono (Stopped signal rs v) (Stopped signal (r ∷ rs) w)
            (rest (Worker.fetch_add free) v) (λ out u k. removed-Stopped out u j k)
            (h (Worker.fetch_add free))
      at (Verdict.remove false) j =
          IfDone-mono (Stopped signal rs v) (Stopped signal (r ∷ rs) w) (rest free v)
            (λ out u k. removed-Stopped out u j k) (h free)

retain-Stopped :
    (signal : ℕ) (rs : List Running) (free : ℕ) (w : World)
    → IfDone (Stopped signal rs w) (Worker.retain signal rs free w)
unfolding Worker.retain
retain-Stopped signal [] free w = ([], (λ a. refl), tt)
retain-Stopped signal (r ∷ rs) free w =
    let polled = Worker.poll_one signal r w in
    IfDone-and_then (λ x v. (polled ≡ done x v) × Judged signal r w x v) (Stopped signal (r ∷ rs) w)
      polled _
      (IfDone-both (λ x v. polled ≡ done x v) (Judged signal r w) polled (IfDone-self polled)
        (poll_one-Judged signal r w))
      (λ x v (e, j).
        after_verdict-Stopped signal r rs w v x e (Worker.retain signal rs)
          (λ free'. retain-Stopped signal rs free' v) free j)

-- A pass leaves the channel as it is.
abbrev pub Passed : WorkerThread → World → WorkerThread → World → Type 0
Passed t w u _ =
    (u.channel ≡ t.channel)
    × ((gone : List ℕ) × ((a : ℕ)
          → count a (states t.futures) ≡ count a gone + count a (states u.futures))
        × All (StopsIn t.signal t.futures w) gone)

pub poll_all-Passed : (t : WorkerThread) (w : World) → IfDone (Passed t w) (Worker.poll_all t w)
unfolding Worker.poll_all
poll_all-Passed t w =
    IfDone-and_then (Stopped t.signal t.futures w) (Passed t w)
      (Worker.retain t.signal t.futures t.free_workers w) _
      (retain-Stopped t.signal t.futures t.free_workers w) (λ _ _ k. (refl, k))
