-- ===== src/Worker/Semaphores.antt =====
-- What the threads do to semaphores: they signal some, and reset none.
use mvsync.Base.{ℕ, true, false, List, [], ◌∷◌, ◌≡◌, refl, ap, ◌∙◌, if-cases, arith}
use mvsync.World.{World, TaskState, context, set_state}
use mvsync.Exec.{Poll, Caught, ok, err, catch_unwind, M, IfDone, IfDone-and_then}
use mvsync.Signal
use mvsync.Task.State
use mvsync.Task.Body
use mvsync.Task.Body.{Inner}
use mvsync.Task.Leaves.{Withstands, IfDone-caught, poll-Leaves}
use mvsync.Run.{settle}
use mvsync.Run.Settle.{settle-Settled}
use mvsync.Worker
use mvsync.Worker.{WorkerThread, Running, Verdict, settled}

-- A semaphore that is signalled in `v` is signalled in `w`.
abbrev pub Signals : World → World → Type 0
Signals v w = (i : ℕ) → v.semaphores i ≡ true → w.semaphores i ≡ true

pub Signals-trans : (u v w : World) → Signals u v → Signals v w → Signals u w
Signals-trans u v w a b = λ i e. b i (a i e)

pub settle-Signals : (ss : List ℕ) (k : ℕ × ℕ) (w : World) → Signals w (settle ss k w)
settle-Signals ss k w i e = (settle-Settled ss k w).semaphores i ∙ ground (arith, e)

-- The semaphores are those of `v`.
abbrev Same : World → World → Type 0
Same v w = w.semaphores ≡ v.semaphores

-- The async block of a task signals nothing itself.
Same-Withstands : (k : ℕ) (v : World) → Withstands k (Same v)
unfolding Signal.call
Same-Withstands k v = record {
  buffer = λ _ _ _ e. e;
  state = λ _ _ _ e. e;
  falls = λ _ _ e. e;
  rises = λ _ e. e;
}

-- The end of an entry signals its semaphores.
judge-Signals :
    (r : Running) (c : Caught (Poll Inner (Unit {0}))) (v w : World)
    → Signals v w
    → IfDone (λ _ u. Signals v u) (Worker.judge r c w)
unfolding Worker.judge
judge-Signals r (ok (Poll.pending inner)) v w s =
    if-cases (IfDone (λ _ u. Signals v u)) (State.eq (w.states r.state) TaskState.cancelled) _ _
      (λ _. Signals-trans v w (settled r w) s (settle-Signals r.semaphores r.to_signal w)) (λ _. s)
judge-Signals r (err e) v w s =
    let w' = set_state r.state (TaskState.panicked e) w in
    Signals-trans v w' (settled r w') s (settle-Signals r.semaphores r.to_signal w')
judge-Signals r (ok (Poll.ready _)) v w s =
    Signals-trans v w (settled r w) s (settle-Signals r.semaphores r.to_signal w)

poll_one-Signals :
    (k : ℕ) (r : Running) (v w : World)
    → Signals v w
    → IfDone (λ _ u. Signals v u) (Worker.poll_one k r w)
unfolding Worker.poll_one
poll_one-Signals k r v w s =
    IfDone-and_then (λ _ u. Same w u) (λ _ u. Signals v u)
      (catch_unwind (Body.poll (context k) r.inner) w) (Worker.judge r)
      (IfDone-caught (Same w) (Body.poll (context k) r.inner w)
        (poll-Leaves k (Same w) (Same-Withstands k w) r.inner w refl))
      (λ c u e. judge-Signals r c v u (λ i up. ap (λ f. f i) e ∙ s i up))

after_verdict-Signals :
    (v : World) (rest : ℕ → M (List Running × ℕ))
    → ((free : ℕ) (w : World) → Signals v w → IfDone (λ _ u. Signals v u) (rest free w))
    → (free : ℕ) (d : Verdict) (w : World) → Signals v w
    → IfDone (λ _ u. Signals v u) (Worker.after_verdict rest free d w)
unfolding Worker.after_verdict
after_verdict-Signals v rest h free (Verdict.keep r) w s =
    IfDone-and_then (λ _ u. Signals v u) (λ _ u. Signals v u) (rest free w) _ (h free w s)
      (λ _ _ s'. s')
after_verdict-Signals v rest h free (Verdict.remove true) w s = h (Worker.fetch_add free) w s
after_verdict-Signals v rest h free (Verdict.remove false) w s = h free w s

retain-Signals :
    (v : World) (k : ℕ) (rs : List Running) (free : ℕ) (w : World)
    → Signals v w
    → IfDone (λ _ u. Signals v u) (Worker.retain k rs free w)
unfolding Worker.retain
retain-Signals v k [] free w s = s
retain-Signals v k (r ∷ rs) free w s =
    IfDone-and_then (λ _ u. Signals v u) (λ _ u. Signals v u) (Worker.poll_one k r w) _
      (poll_one-Signals k r v w s)
      (after_verdict-Signals v (Worker.retain k rs) (retain-Signals v k rs) free)

pub poll_all-Signals :
    (t : WorkerThread) (w : World) → IfDone (λ _ u. Signals w u) (Worker.poll_all t w)
unfolding Worker.poll_all
poll_all-Signals t w =
    IfDone-and_then (λ _ u. Signals w u) (λ _ u. Signals w u)
      (Worker.retain t.signal t.futures t.free_workers w) _
      (retain-Signals w t.signal t.futures t.free_workers w (λ _ e. e)) (λ _ _ s. s)
