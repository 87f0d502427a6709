-- ===== src/Worker/Spare.antt =====
-- What the other tasks of a thread do to the handle of one: nothing. The others are any tasks without a
-- predecessor: their functions and futures may return, panic, or pend for ever.
use mvsync.Base.{ℕ, true, false, List, [], ◌∷◌, ◌≡◌, ◌≢◌, refl, ap, ◌∙◌, if-cases, All, arith}
use mvsync.World.{World, Value, TaskState, context, set_state}
use mvsync.Exec.{M, Poll, Caught, ok, err, catch_unwind, Returns, Returns-and_then, Returns-mono}
use mvsync.Signal
use mvsync.Task.State
use mvsync.Task.Body
use mvsync.Task.Body.{Outcome, Script, Reply, Inner}
use mvsync.Task.Handle.{TaskHandle}
use mvsync.Run.Settle.{settle-Settled}
use mvsync.Run.Execute.{Holds}
use mvsync.Worker
use mvsync.Worker.{Running, Verdict, settled}

-- Between `v` and `w` nothing happened to the handle, but that signals may have been woken.
pub record Spares (h : TaskHandle) (v w : World) : Type 0 where
  pub state : w.states h.state ≡ v.states h.state
  pub buffer : w.buffers h.inner ≡ v.buffers h.inner
  pub awake : (i : ℕ) → (v.signals i).ready ≡ true → (w.signals i).ready ≡ true

pub Spares-refl : (h : TaskHandle) (w : World) → Spares h w w
Spares-refl h w = record { state = refl; buffer = refl; awake = λ i e. e }

pub Spares-trans : (h : TaskHandle) (u v w : World) → Spares h u v → Spares h v w → Spares h u w
Spares-trans h u v w a b = record {
  state = b.state ∙ a.state;
  buffer = b.buffer ∙ a.buffer;
  awake = λ i e. b.awake i (a.awake i e);
}

pub Holds-Spares :
    (h : TaskHandle) (x : Value) (v w : World) → Spares h v w → Holds h x v → Holds h x w
Holds-Spares h x v w s k = record {
  up = s.awake h.signal k.up;
  state = s.state ∙ k.state;
  inner = s.buffer ∙ k.inner;
}

-- What does not wait for a predecessor and ends on another state and in another buffer than the handle's.
abbrev pub IsApart : TaskHandle → Inner → Type 0
IsApart h (Body.calling _ b s) = (b ≢ h.inner) × (s ≢ h.state)
IsApart h (Body.running _ _ b s) = (b ≢ h.inner) × (s ≢ h.state)
IsApart h _ = ⊥

-- An entry for a user's function or future of another task.
abbrev pub IsOther : TaskHandle → Running → Type 0
IsOther h r = IsApart h r.inner × (r.state ≢ h.state)

settled-Spares :
    (h : TaskHandle) (r : Running) (v w : World) → Spares h v w → Spares h v (settled r w)
settled-Spares h r v w s =
    let d = settle-Settled r.semaphores r.to_signal w in
    Spares-trans h v w (settled r w) s (record {
      state = ap (λ f. f h.state) d.states;
      buffer = ap (λ f. f h.inner) d.buffers;
      awake = d.others;
    })

complete-Spares :
    (h : TaskHandle) (b s : ℕ) (x : Value) (w : World)
    → b ≢ h.inner
    → s ≢ h.state
    → Spares h w (Body.complete b s x w)
unfolding Body.complete
complete-Spares h b s x w nb ns = record {
  state = ground arith;
  buffer = ground arith;
  awake = λ i e. e;
}

set_state-Spares :
    (h : TaskHandle) (s : ℕ) (x : TaskState) (w : World)
    → s ≢ h.state
    → Spares h w (set_state s x w)
set_state-Spares h s x w ns = record { state = ground arith; buffer = refl; awake = λ i e. e }

call-Spares : (h : TaskHandle) (k : ℕ) (w : World) → Spares h w (Signal.call (context k) w)
unfolding Signal.call
call-Spares h k w = record { state = refl; buffer = refl; awake = λ i e. ground arith }

-- A verdict on another entry.
abbrev pub Spared : TaskHandle → World → Verdict → World → Type 0
Spared h v (Verdict.keep r) w = IsOther h r × Spares h v w
Spared h v (Verdict.remove _) w = Spares h v w

module _ (h : TaskHandle) (signal : ℕ) where
  -- A poll of another entry's future: it spares the handle, and pends in its next state.
  abbrev Polled : World → Caught (Poll Inner (Unit {0})) → World → Type 0
  Polled w (ok (Poll.pending inner)) v = IsApart h inner × Spares h w v
  Polled w _ v = Spares h w v

  call-Polled :
      (a : Outcome) (b s : ℕ) (w : World)
      → b ≢ h.inner
      → s ≢ h.state
      → Returns (Polled w) (catch_unwind (Body.call a b s) w)
  unfolding Body.call
  call-Polled (Outcome.returns x) b s w nb ns = complete-Spares h b s x w nb ns
  call-Polled (Outcome.panics p) b s w nb ns = Spares-refl h w

  resume-Polled :
      (a : Reply) (f : Script) (n b s : ℕ) (w : World)
      → b ≢ h.inner
      → s ≢ h.state
      → Returns (Polled w) (catch_unwind (Body.resume (context signal) a f n b s) w)
  unfolding Body.resume
  resume-Polled (Reply.returns x) f n b s w nb ns = complete-Spares h b s x w nb ns
  resume-Polled (Reply.panics p) f n b s w nb ns = Spares-refl h w
  resume-Polled (Reply.pends true) f n b s w nb ns = ((nb, ns), call-Spares h signal w)
  resume-Polled (Reply.pends false) f n b s w nb ns = ((nb, ns), Spares-refl h w)

  poll-Polled :
      (i : Inner) (w : World)
      → IsApart h i
      → Returns (Polled w) (catch_unwind (Body.poll (context signal) i) w)
  unfolding Body.poll
  poll-Polled (Body.calling a b s) w (nb, ns) = call-Polled a b s w nb ns
  poll-Polled (Body.running f n b s) w (nb, ns) = resume-Polled (f n) f n b s w nb ns
  poll-Polled (Body.continuing _ _ _ _) w none = absurd none
  poll-Polled (Body.async_continuing _ _ _ _) w none = absurd none

  judge-Spared :
      (r : Running) (w : World)
      → r.state ≢ h.state
      → (c : Caught (Poll Inner (Unit {0}))) (v : World) → Polled w c v
      → Returns (Spared h w) (Worker.judge r c v)
  unfolding Worker.judge
  judge-Spared r w ns (ok (Poll.pending inner)) v (free, s) =
      if-cases (Returns (Spared h w)) (State.eq (v.states r.state) TaskState.cancelled) _ _
        (λ _. settled-Spares h r w v s) (λ _. ((free, ns), s))
  judge-Spared r w ns (err p) v s =
      settled-Spares h r w (set_state r.state (TaskState.panicked p) v) (
        Spares-trans h w v (set_state r.state (TaskState.panicked p) v) s
          (set_state-Spares h r.state (TaskState.panicked p) v ns))
  judge-Spared r w ns (ok (Poll.ready _)) v s = settled-Spares h r w v s

  pub poll_one-Spared :
      (r : Running) → IsOther h r → (w : World) → Returns (Spared h w) (Worker.poll_one signal r w)
  unfolding Worker.poll_one
  poll_one-Spared r (free, ns) w =
      Returns-and_then (Polled w) (Spared h w) (catch_unwind (Body.poll (context signal) r.inner) w)
        (Worker.judge r) (poll-Polled r.inner w free) (judge-Spared r w ns)

-- A pass over other entries.
abbrev pub AllSpared : TaskHandle → World → List Running × ℕ → World → Type 0
AllSpared h v (kept, _) w = All (IsOther h) kept × Spares h v w

-- What one verdict and the rest of a pass come to together.
both-Spared :
    (h : TaskHandle) (rest : ℕ → M (List Running × ℕ)) (v : World)
    → ((free : ℕ) (w : World) → Returns (AllSpared h w) (rest free w))
    → (free : ℕ) (d : Verdict) (w : World) → Spared h v d w
    → Returns (AllSpared h v) (Worker.after_verdict rest free d w)
unfolding Worker.after_verdict
both-Spared h rest v ih free (Verdict.keep r) w (o, s) =
    Returns-and_then (AllSpared h w) (AllSpared h v) (rest free w) _ (ih free w)
      (λ (kept, _) u (all, s'). ((o, all), Spares-trans h v w u s s'))
both-Spared h rest v ih free (Verdict.remove true) w s =
    Returns-mono (AllSpared h w) (AllSpared h v) (rest (Worker.fetch_add free) w)
      (λ _ u (all, s'). (all, Spares-trans h v w u s s')) (ih (Worker.fetch_add free) w)
both-Spared h rest v ih free (Verdict.remove false) w s =
    Returns-mono (AllSpared h w) (AllSpared h v) (rest free w)
      (λ _ u (all, s'). (all, Spares-trans h v w u s s')) (ih free w)

pub retain-AllSpared :
    (h : TaskHandle) (signal : ℕ) (rs : List Running) (free : ℕ) (w : World)
    → All (IsOther h) rs
    → Returns (AllSpared h w) (Worker.retain signal rs free w)
unfolding Worker.retain
retain-AllSpared h signal [] free w others = (tt, Spares-refl h w)
retain-AllSpared h signal (r ∷ rs) free w (o, others) =
    Returns-and_then (Spared h w) (AllSpared h w) (Worker.poll_one signal r w) _
      (poll_one-Spared h signal r o w)
      (both-Spared h (Worker.retain signal rs) w
        (λ free' v. retain-AllSpared h signal rs free' v others) free)
