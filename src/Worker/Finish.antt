-- ===== src/Worker/Finish.antt =====
-- Tasks that come to an end: one pass over the futures of a thread of src/queue.rs takes each of them a poll
-- further.
use mvsync.Base.{
  ℕ, zero, suc, ◌≤◌, ◌<◌, true, false, List, [], ◌∷◌, ◌≡◌, refl, subst, ◌⊎◌, inl, inr, is_empty,
  if-cases, elem, All, arith,
}
use mvsync.World.{World, Value, TaskState, context, set_state}
use mvsync.Exec.{
  M, Poll, Caught, ok, err, caught, catch_unwind, Returns, Returns-and_then, Returns-mono,
}
use mvsync.Signal
use mvsync.Task.State
use mvsync.Task.Body
use mvsync.Task.Body.{Outcome, Script, Reply, Inner}
use mvsync.Await.Scripts.{Resolves}
use mvsync.Worker
use mvsync.Worker.{Running, Verdict, settled}
use mvsync.Worker.Moves.{states}
use mvsync.Worker.Grows.{
  IsDone, IsUp, Grows, Grows-trans, Grows-refl, call-Grows, settle-Grows, set_state-Grows,
  complete-Grows,
}

-- The reply ends the future.
abbrev pub IsLast : Reply → Type 0
IsLast (Reply.pends _) = ⊥
IsLast _ = Unit {0}

-- The future comes to an end after at most `n` polls that pend, each of which calls the waker, and sets the
-- state `s`; it waits for no predecessor.
abbrev pub Ends : ℕ → ℕ → Inner → Type 0
Ends n s (Body.calling _ _ c) = c ≡ s
Ends n s (Body.running f j _ c) =
    (m : ℕ) × (r : Reply) × (m ≤ n) × Resolves f j m r × IsLast r × (c ≡ s)
Ends n s _ = ⊥

pub Ends-suc : (n s : ℕ) (i : Inner) → Ends n s i → Ends (suc n) s i
Ends-suc n s (Body.calling _ _ c) e = e
Ends-suc n s (Body.running f j _ c) (m, r, le, h, last, e) = (m, r, omega arith, h, last, e)
Ends-suc n s (Body.continuing _ _ _ _) e = e
Ends-suc n s (Body.async_continuing _ _ _ _) e = e

-- What is left to do after one poll.
abbrev pub Later : ℕ → ℕ → Inner → Type 0
Later zero s i = ⊥
Later (suc n) s i = Ends n s i

Later-running :
    (n s : ℕ) (f : Script) (j b c m : ℕ) (r : Reply)
    → c ≡ s
    → m < n
    → Resolves f j m r
    → IsLast r
    → Later n s (Body.running f j b c)
Later-running zero s f j b c m r e le h last = absurd (omega arith)
Later-running (suc n) s f j b c m r e le h last = (m, r, omega arith, h, last, e)

-- Between `v` and `w` the tasks with the states `ss` were done, or are kept.
abbrev pub Accounts : World → List ℕ → List Running → Type 0
Accounts w ss kept = All (λ s. IsDone w s ⊎ (elem s (states kept) ≡ true)) ss

module _ (k n : ℕ) where
  -- A poll from the world `v` on for the state `s`.
  abbrev Polled : ℕ → World → Caught (Poll Inner (Unit {0})) → World → Type 0
  Polled s v (ok (Poll.ready _)) w = Grows v w × IsDone w s
  Polled s v (ok (Poll.pending inner)) w = Grows v w × IsUp w k × Later n s inner
  Polled s v (err _) w = Grows v w

  complete-Polled :
      (b c s : ℕ) (x : Value) (v : World)
      → c ≡ s
      → Grows v (Body.complete b c x v) × IsDone (Body.complete b c x v) s
  complete-Polled b c s x v e =
      let (g, d) = complete-Grows b c x v in (g, subst (IsDone (Body.complete b c x v)) e d)

  resume-Polled :
      (f : Script) (j b c s : ℕ) (v : World)
      → c ≡ s
      → (m : ℕ) (r : Reply) → m ≤ n
      → Resolves f j m r
      → IsLast r
      → Returns (Polled s v) (caught (Body.resume (context k) (f j) f j b c v))
  unfolding Body.resume Signal.call
  resume-Polled f j b c s v e zero (Reply.returns x) le h last =
      rw (h, Returns) (complete-Polled b c s x v e)
  resume-Polled f j b c s v e zero (Reply.panics p) le h last = rw (h, Returns) (Grows-refl v)
  resume-Polled f j b c s v e zero (Reply.pends _) le h last = absurd last
  resume-Polled f j b c s v e (suc m) r le (pends, h) last =
      rw (pends, Returns)
        (call-Grows k v, ground arith, Later-running n s f (suc j) b c m r e (omega arith) h last)

  poll-Polled :
      (i : Inner) (s : ℕ) (v : World)
      → Ends n s i
      → Returns (Polled s v) (catch_unwind (Body.poll (context k) i) v)
  unfolding Body.poll Body.call
  poll-Polled (Body.calling (Outcome.returns x) b c) s v e = complete-Polled b c s x v e
  poll-Polled (Body.calling (Outcome.panics p) b c) s v e = Grows-refl v
  poll-Polled (Body.running f j b c) s v (m, r, le, h, last, e) =
      resume-Polled f j b c s v e m r le h last
  poll-Polled (Body.continuing _ _ _ _) s v e = absurd e
  poll-Polled (Body.async_continuing _ _ _ _) s v e = absurd e

  -- The verdict on the entry `r`.
  abbrev Judged : Running → World → Verdict → World → Type 0
  Judged r v (Verdict.keep r') w =
      Grows v w × IsUp w k × (r'.state ≡ r.state) × Later n r'.state r'.inner
  Judged r v (Verdict.remove _) w = Grows v w × IsDone w r.state

  settled-Judged :
      (r : Running) (v w : World)
      → Grows v w
      → IsDone w r.state
      → Grows v (settled r w) × IsDone (settled r w) r.state
  settled-Judged r v w g d =
      let more = settle-Grows r.semaphores r.to_signal w in
      (Grows-trans v w (settled r w) g more, more.over r.state d)

  judge-Judged :
      (r : Running) (v : World) (c : Caught (Poll Inner (Unit {0}))) (w : World)
      → Polled r.state v c w
      → Returns (Judged r v) (Worker.judge r c w)
  unfolding Worker.judge State.eq
  judge-Judged r v (ok (Poll.pending inner)) w (g, up, later) =
      if-cases (Returns (Judged r v)) (State.eq (w.states r.state) TaskState.cancelled) _ _
        (λ cancelled. settled-Judged r v w g (cancelled-IsDone (w.states r.state) cancelled))
        (λ _. (g, up, refl, later))
    where
      cancelled-IsDone :
          (x : TaskState)
          → State.eq x TaskState.cancelled ≡ true
          → State.eq x TaskState.pending ≡ false
      cancelled-IsDone TaskState.pending e = cc
      cancelled-IsDone TaskState.ready e = refl
      cancelled-IsDone (TaskState.panicked _) e = refl
      cancelled-IsDone TaskState.cancelled e = refl
  judge-Judged r v (err p) w g =
      let (more, d) = set_state-Grows r.state (TaskState.panicked p) w refl in
      let w' = set_state r.state (TaskState.panicked p) w in
      settled-Judged r v w' (Grows-trans v w w' g more) d
  judge-Judged r v (ok (Poll.ready _)) w (g, d) = settled-Judged r v w g d

  poll_one-Judged :
      (r : Running) (v : World)
      → Ends n r.state r.inner
      → Returns (Judged r v) (Worker.poll_one k r v)
  unfolding Worker.poll_one
  poll_one-Judged r v e =
      Returns-and_then (Polled r.state v) (Judged r v)
        (catch_unwind (Body.poll (context k) r.inner) v) (Worker.judge r)
        (poll-Polled r.inner r.state v e) (judge-Judged r v)

  -- A pass over the entries `rs` from the world `v` on.
  abbrev pub Kept : List Running → World → List Running × ℕ → World → Type 0
  Kept rs v (kept, _) w =
      Grows v w
      × All (λ r. Later n r.state r.inner) kept
      × ((is_empty kept ≡ true) ⊎ IsUp w k)
      × Accounts w (states rs) kept

  Accounts-cons :
      (r : Running) (w : World) (ss : List ℕ) (kept : List Running)
      → Accounts w ss kept
      → Accounts w ss (r ∷ kept)
  Accounts-cons r w [] kept a = tt
  Accounts-cons r w (s ∷ ss) kept (inl d, a) = (inl d, Accounts-cons r w ss kept a)
  Accounts-cons r w (s ∷ ss) kept (inr e, a) = (inr (ground arith), Accounts-cons r w ss kept a)

  module _ (r : Running) (rs : List Running) (rest : ℕ → M (List Running × ℕ))
      (ih : (free : ℕ) (w : World) → Returns (Kept rs w) (rest free w)) where
    removed-Kept :
        (free : ℕ) (v w : World)
        → Grows v w
        → IsDone w r.state
        → Returns (Kept (r ∷ rs) v) (rest free w)
    removed-Kept free v w g d =
        Returns-mono (Kept rs w) (Kept (r ∷ rs) v) (rest free w)
          (λ (kept, _) u (more, later, up, a).
            (Grows-trans v w u g more, later, up, (inl (more.over r.state d), a)))
          (ih free w)

    after_verdict-Kept :
        (free : ℕ) (v : World) (d : Verdict) (w : World)
        → Judged r v d w
        → Returns (Kept (r ∷ rs) v) (Worker.after_verdict rest free d w)
    unfolding Worker.after_verdict
    after_verdict-Kept free v (Verdict.keep r') w (g, up, same, later) =
        Returns-and_then (Kept rs w) (Kept (r ∷ rs) v) (rest free w) _ (ih free w)
          λ (kept, _) u (more, laters, _, a). (
            Grows-trans v w u g more,
            (later, laters),
            inr (more.awake k up),
            (inr (rw same (ground arith)), Accounts-cons r' u (states rs) kept a),
          )
    after_verdict-Kept free v (Verdict.remove true) w (g, d) =
        removed-Kept (Worker.fetch_add free) v w g d
    after_verdict-Kept free v (Verdict.remove false) w (g, d) = removed-Kept free v w g d

  pub retain-Kept :
      (rs : List Running) (free : ℕ) (v : World)
      → All (λ r. Ends n r.state r.inner) rs
      → Returns (Kept rs v) (Worker.retain k rs free v)
  unfolding Worker.retain
  retain-Kept [] free v e = (Grows-refl v, tt, inl refl, tt)
  retain-Kept (r ∷ rs) free v (e, es) =
      Returns-and_then (Judged r v) (Kept (r ∷ rs) v) (Worker.poll_one k r v) _
        (poll_one-Judged r v e)
        (after_verdict-Kept r rs (Worker.retain k rs) (λ free' w. retain-Kept rs free' w es) free v)
