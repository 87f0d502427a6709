-- ===== src/Worker/Fair.antt =====
-- One asynchronous task among others on a thread: a pass over the futures polls it once.
use mvsync.Base.{
  ℕ, zero, suc, true, false, List, [], ◌∷◌, ◌≡◌, refl, sym, ap, ◌∙◌, ◌⊎◌, inl, inr, All, arith,
}
use mvsync.World.{World, Value, TaskState}
use mvsync.Exec.{M, Returns, Returns-and_then, Returns-mono}
use mvsync.Signal
use mvsync.Task.State
use mvsync.Task.Body
use mvsync.Task.Body.{Script, Reply}
use mvsync.Task.Handle.{TaskHandle}
use mvsync.Await.Scripts.{Resolves}
use mvsync.Run.Settle.{settle-Settled}
use mvsync.Run.Execute.{Holds}
use mvsync.Worker
use mvsync.Worker.{Running, Verdict, settled}
use mvsync.Worker.Spare.{
  Holds-Spares, IsOther, Spared, poll_one-Spared, AllSpared, retain-AllSpared,
}

module _ (h : TaskHandle) (f : Script) where
  -- The entry of the handle's task after `j` polls.
  pub record IsMine (j : ℕ) (r : Running) : Type 0 where
    pub inner : r.inner ≡ Body.running f j h.inner h.state
    pub state : r.state ≡ h.state
    pub own : r.to_signal.0 ≡ h.signal

  -- The entry is there, once, among others.
  abbrev pub Carries : ℕ → List Running → Type 0
  Carries j [] = ⊥
  Carries j (r ∷ rs) = (IsMine j r × All (IsOther h) rs) ⊎ (IsOther h r × Carries j rs)

  -- What a poll comes to by the number of polls that are to come after it, for a thread with the signal
  -- `k`: the handle holds the result, or the task is there and the thread was woken.
  abbrev pub After : Value → ℕ → ℕ → ℕ → List Running × ℕ → World → Type 0
  After x k j zero (kept, _) w = All (IsOther h) kept × Holds h x w
  After x k j (suc n) (kept, _) w =
      Carries (suc j) kept × (w.states h.state ≡ TaskState.pending) × ((w.signals k).ready ≡ true)

  After-cons :
      (x : Value) (k j n : ℕ) (r : Running) (kept : List Running) (free : ℕ) (w : World)
      → IsOther h r
      → After x k j n (kept, free) w
      → After x k j n (r ∷ kept, free) w
  After-cons x k j zero r kept free w o (all, held) = ((o, all), held)
  After-cons x k j (suc n) r kept free w o (c, p, up) = (inr (o, c), p, up)

  -- The verdict on the entry itself.
  abbrev Judged : Value → ℕ → ℕ → ℕ → Verdict → World → Type 0
  Judged x k j zero (Verdict.remove true) w = Holds h x w
  Judged x k j (suc n) (Verdict.keep r) w =
      IsMine (suc j) r × (w.states h.state ≡ TaskState.pending) × ((w.signals k).ready ≡ true)
  Judged x k j _ _ w = ⊥

  poll_one-Judged :
      (x : Value) (k j n : ℕ) (r : Running) (w : World)
      → IsMine j r
      → Resolves f j n (Reply.returns x)
      → w.states h.state ≡ TaskState.pending
      → Returns (Judged x k j n) (Worker.poll_one k r w)
  unfolding Worker.poll_one Worker.judge Body.poll Body.resume Body.complete Signal.call State.eq
  poll_one-Judged x k j zero r w m returns pending =
      let d = settle-Settled r.semaphores r.to_signal (Body.complete h.inner h.state x w) in
      rw (m.inner, Returns)
        (rw (returns, Returns)
          (record {
            up =
                ap (λ i. ((settled r (Body.complete h.inner h.state x w)).signals i).ready)
                  (sym m.own)
                ∙ d.own;
            state = ap (λ g. g h.state) d.states ∙ ground arith;
            inner = ap (λ g. g h.inner) d.buffers ∙ ground arith;
          }))
  poll_one-Judged x k j (suc n) r w m (pends, _) pending =
      rw (m.inner, Returns)
        (rw (pends, Returns)
          (rw (m.state, Returns)
            (rw (pending, Returns, State.eq)
              (record { inner = refl; state = refl; own = m.own }, pending, ground arith))))

  -- The entries behind the task's own leave it as it is.
  then_others :
      (x : Value) (k j n : ℕ) (rest : ℕ → M (List Running × ℕ))
      → ((free : ℕ) (w : World) → Returns (AllSpared h w) (rest free w))
      → (free : ℕ) (d : Verdict) (w : World) → Judged x k j n d w
      → Returns (After x k j n) (Worker.after_verdict rest free d w)
  unfolding Worker.after_verdict
  then_others x k j zero rest ih free (Verdict.remove true) w held =
      Returns-mono (AllSpared h w) (After x k j zero) (rest (Worker.fetch_add free) w)
        (λ _ v (all, s). (all, Holds-Spares h x w v s held)) (ih (Worker.fetch_add free) w)
  then_others x k j zero rest ih free (Verdict.remove false) w held = absurd held
  then_others x k j zero rest ih free (Verdict.keep r) w held = absurd held
  then_others x k j (suc n) rest ih free (Verdict.keep r) w (m, pending, up) =
      Returns-and_then (AllSpared h w) (After x k j (suc n)) (rest free w) _ (ih free w)
        (λ (kept, _) v (all, s). (inl (m, all), s.state ∙ pending, s.awake k up))
  then_others x k j (suc n) rest ih free (Verdict.remove true) w none = absurd none
  then_others x k j (suc n) rest ih free (Verdict.remove false) w none = absurd none

  -- The entries before it too.
  others_then :
      (x : Value) (k j n : ℕ) (rest : ℕ → M (List Running × ℕ)) (v : World)
      → v.states h.state ≡ TaskState.pending
      → ((free : ℕ) (w : World)
          → w.states h.state ≡ TaskState.pending
          → Returns (After x k j n) (rest free w))
      → (free : ℕ) (d : Verdict) (w : World) → Spared h v d w
      → Returns (After x k j n) (Worker.after_verdict rest free d w)
  unfolding Worker.after_verdict
  others_then x k j n rest v pending ih free (Verdict.keep r) w (o, s) =
      Returns-and_then (After x k j n) (After x k j n) (rest free w) _
        (ih free w (s.state ∙ pending)) (λ (kept, free') u a. After-cons x k j n r kept free' u o a)
  others_then x k j n rest v pending ih free (Verdict.remove true) w s =
      ih (Worker.fetch_add free) w (s.state ∙ pending)
  others_then x k j n rest v pending ih free (Verdict.remove false) w s =
      ih free w (s.state ∙ pending)

  pub retain-After :
      (x : Value) (k j n : ℕ)
      → Resolves f j n (Reply.returns x)
      → (rs : List Running) (free : ℕ) (w : World) → Carries j rs
      → w.states h.state ≡ TaskState.pending
      → Returns (After x k j n) (Worker.retain k rs free w)
  unfolding Worker.retain
  retain-After x k j n resolves [] free w c pending = absurd c
  retain-After x k j n resolves (r ∷ rs) free w (inl (m, others)) pending =
      Returns-and_then (Judged x k j n) (After x k j n) (Worker.poll_one k r w) _
        (poll_one-Judged x k j n r w m resolves pending)
        (then_others x k j n (Worker.retain k rs)
          (λ free' v. retain-AllSpared h k rs free' v others) free)
  retain-After x k j n resolves (r ∷ rs) free w (inr (o, c)) pending =
      Returns-and_then (Spared h w) (After x k j n) (Worker.poll_one k r w) _
        (poll_one-Spared h k r o w)
        (others_then x k j n (Worker.retain k rs) w pending
          (λ free' v p. retain-After x k j n resolves rs free' v c p) free)
