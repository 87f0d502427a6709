-- ===== src/Await/Handles.antt =====
-- `TaskHandle::wait` and `TaskHandle::wait_async` of src/task.rs.
use mvsync.Base.{
  ℕ, suc, ◌<◌, true, false, ◌≡◌, refl, sym, ap, ◌∙◌, subst, inl, inr, Bool-cases, Option-cases,
  arith,
}
use mvsync.World.{World, TaskState, context}
use mvsync.Exec.{Exec, done, unwinds, blocks, out_of_fuel, and_then, pure, Poll, ◌>>◌}
use mvsync.Signal
use mvsync.Task.State
use mvsync.Task.Handle
use mvsync.Task.Handle.{TaskHandle, TaskResult}
use mvsync.Await.{await_sync, await_loop}

-- Two runs end in the same way: both return the same, unwind with the same panic, or park.
abbrev pub SameEnd : Exec TaskResult → Exec TaskResult → Type 0
SameEnd (done a _) (done b _) = a ≡ b
SameEnd (unwinds p _) (unwinds q _) = p ≡ q
SameEnd (blocks _) (blocks _) = Unit {0}
SameEnd _ _ = ⊥

-- What is taken from a handle depends on its state and its buffer alone.
take_inner-SameEnd :
    (b : ℕ) (v w : World)
    → w.buffers ≡ v.buffers
    → SameEnd (Handle.take_inner b v) (Handle.take_inner b w)
unfolding Handle.take_inner
take_inner-SameEnd b v w e = elim (Option-cases (v.buffers b)) [
  | inl h ↦
      rw (h, SameEnd, Handle.take_inner) (rw (ap (λ f. f b) e ∙ h, SameEnd, Handle.take_inner) refl)
  | inr (x, h) ↦
      rw (h, SameEnd, Handle.take_inner) (rw (ap (λ f. f b) e ∙ h, SameEnd, Handle.take_inner) refl)
]

result_of-SameEnd :
    (b : ℕ) (s : TaskState) (v w : World)
    → w.buffers ≡ v.buffers
    → SameEnd (Handle.result_of b s v) (Handle.result_of b s w)
unfolding Handle.result_of
result_of-SameEnd b TaskState.pending v w e = refl
result_of-SameEnd b TaskState.ready v w e = take_inner-SameEnd b v w e
result_of-SameEnd b (TaskState.panicked p) v w e = refl
result_of-SameEnd b TaskState.cancelled v w e = refl

take_result-SameEnd :
    (h : TaskHandle) (v w : World)
    → w.buffers ≡ v.buffers
    → w.states ≡ v.states
    → SameEnd (Handle.take_result h v) (Handle.take_result h w)
unfolding Handle.take_result
take_result-SameEnd h v w e f =
    subst
      (λ s.
        SameEnd (Handle.result_of h.inner (State.take (v.states h.state)) v)
          (Handle.result_of h.inner (State.take s) w))
      (ap (λ g. g h.state) (sym f))
      (result_of-SameEnd h.inner (State.take (v.states h.state)) v w e)

module _ (h : TaskHandle) (fuel : ℕ) where
  -- `h.wait_async()`, awaited by a thread that blocks.
  abbrev pub awaited : World → Exec TaskResult
  awaited = await_sync (λ k f. Handle.poll_async k h f) (suc fuel) (Signal.wait_async h.signal)

  -- The loop passes on what the poll takes.
  after_poll : ℕ → Poll Signal.SignalFuture TaskResult → World → Exec TaskResult
  after_poll k p = elim p [
    | Poll.ready output ↦ pure output
    | Poll.pending f ↦ Signal.wait k >> await_loop (λ k f. Handle.poll_async k h f) fuel k f
  ]

  passes_on :
      (k : ℕ) (r : Exec TaskResult)
      → and_then (and_then r (λ a. pure (Poll.ready a))) (after_poll k) ≡ r
  unfolding after_poll
  passes_on k (done a w) = refl
  passes_on k (unwinds p w) = refl
  passes_on k (blocks w) = refl
  passes_on k out_of_fuel = refl

  wait-blocks :
      (k : ℕ) (v : World) (m : World → Exec TaskResult)
      → (v.signals k).ready ≡ false
      → (Signal.wait k >> m) v ≡ blocks v
  unfolding Signal.wait
  wait-blocks k v m down = rw (down, Signal.wait) refl

  awaited_up :
      (w : World)
      → h.signal < w.next
      → (w.signals h.signal).ready ≡ true
      → awaited w ≡ Handle.take_result h (Signal.new w).1
  unfolding await_sync await_loop Handle.poll_async Signal.poll Signal.wait_async Signal.new
      after_poll
  awaited_up w old up =
      let there : ((Signal.new w).1.signals h.signal).ready ≡ true = ground (arith, up) in
      rw there (passes_on w.next (Handle.take_result h (Signal.new w).1))

  -- A poll while the signal is down leaves the waker.
  poll_down :
      (k : ℕ) (v : World)
      → (v.signals h.signal).ready ≡ false
      → Handle.poll_async (context k) h (Signal.wait_async h.signal) v
        ≡ done
            (Poll.pending (record { signal = h.signal; started = true }))
            (Signal.leave_waker (context k) h.signal v)
  unfolding Handle.poll_async Signal.poll Signal.wait_async
  poll_down k v down = rw down refl

  awaited-after_poll :
      (w : World)
      → let (k, v) = Signal.new w in
        awaited w
        ≡ and_then (Handle.poll_async (context k) h (Signal.wait_async h.signal) v) (after_poll k)
  unfolding await_sync await_loop after_poll
  awaited-after_poll w = refl

  new_is_down :
      (w : World)
      → h.signal < w.next
      → ((Signal.leave_waker (context w.next) h.signal (Signal.new w).1).signals w.next).ready
        ≡ false
  unfolding Signal.leave_waker Signal.new
  new_is_down w old = ground arith

  awaited_down :
      (w : World)
      → h.signal < w.next
      → (w.signals h.signal).ready ≡ false
      → (v : World) × (awaited w ≡ blocks v)
  unfolding after_poll Signal.new
  awaited_down w old down =
      let there : ((Signal.new w).1.signals h.signal).ready ≡ false = ground (arith, down) in
      let v = Signal.leave_waker (context w.next) h.signal (Signal.new w).1 in
      (
        v,
        awaited-after_poll w
            ∙ ap (λ r. and_then r (after_poll w.next)) (poll_down w.next (Signal.new w).1 there)
            ∙ wait-blocks w.next v _ (new_is_down w old),
      )

  -- On a handle whose signal is there, `wait`, and `wait_async` awaited by a thread that blocks, end in the
  -- same way: both return the same, or unwind with the same panic, or park.
  pub awaited-wait : (w : World) → h.signal < w.next → SameEnd (awaited w) (Handle.wait h w)
  unfolding Handle.wait Signal.wait Signal.new
  awaited-wait w old = elim (Bool-cases (w.signals h.signal).ready) [
    | inl up ↦
        rw (awaited_up w old up, SameEnd)
          (rw up
            (take_result-SameEnd h (Signal.new w).1 (Signal.set_ready h.signal false w) refl refl))
    | inr down ↦ let (v, e) = awaited_down w old down in rw (e, SameEnd) (rw (down, SameEnd) tt)
  ]
