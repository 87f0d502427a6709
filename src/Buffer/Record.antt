-- ===== src/Buffer/Record.antt =====
-- A chain of commands from the first call on a buffer to the handle of the last one.
use mvsync.Base.{ℕ, suc, true, List, [], ◌≡◌, refl, ap, ◌∙◌, arith}
use mvsync.World.{World, Value}
use mvsync.Exec.{unwinds, done}
use mvsync.Task
use mvsync.Task.{Task}
use mvsync.Task.Body
use mvsync.Task.Body.{Outcome}
use mvsync.Task.Handle
use mvsync.Task.Handle.{TaskHandle, TaskResult}
use mvsync.Run.{run_all, try_run, run_pass}
use mvsync.Run.Execute.{Completed, Completed-Holds, Holds, after_take, execute-calling, wait-Holds}
use mvsync.Buffer.Command.{Shared}
use mvsync.Buffer.Linking.{OnlyNew, link-IsLinked}
use mvsync.Buffer.Pipeline.{
  pipe, and_call, run_pass-IsLinked, Completed-semaphores, states-Completed, try_run-runnable,
  run_pass-ran, IsLinked-frame,
}
use mvsync.Buffer.Panics.{
  execute-calling_panics, try_run-panicking, run_pass-panics, run_pass-unwinds,
  run_pass-unwinds_later,
}
use mvsync.Buffer.Calls.{after, shared, unbaked, record_chain, spent}
use mvsync.Buffer.Recorded

module _ (q : ℕ) (v : Value) (gs : List (Value → Outcome)) (w : World) where
  abbrev o : Outcome
  o = Outcome.returns v

  abbrev first_handle : TaskHandle
  first_handle = Recorded.first_handle q o gs w

  abbrev first : Task × World
  first = Recorded.first q o gs w

  abbrev chain : List Task
  chain = Recorded.chain q o gs w

  abbrev last : TaskHandle
  last = Recorded.last q o gs w

  abbrev linked : List Task × World
  linked = Recorded.linked q o gs w

  -- The first task after linking, executed.
  first-executes :
      (fuel : ℕ) (u : Task)
      → u ≡ record (first.0) { semaphores = u.semaphores }
      → (world : World) → OnlyNew (after gs first.1) world
      → (w' : World) × (try_run (suc fuel) u world ≡ done true w')
        × Completed u first_handle.inner first_handle.state v world w'
  unfolding Task.from_function Handle.new_handle
  first-executes fuel u e world new =
      let (w', runs, c) =
        execute-calling u first_handle.inner first_handle.state fuel v world
          (ap (λ t. t.inner) e) in
      let runnable = Recorded.first-IsRunnable q o gs w u e world new.states in
      (w', try_run-runnable (suc fuel) u world w' runnable runs, c)

  linked-runs :
      (fuel : ℕ) (x : Value)
      → pipe v gs ≡ Outcome.returns x
      → (w' : World) × (run_pass (suc fuel) linked.0 linked.1 ≡ done ([], true) w')
        × Holds last x w'
  linked-runs fuel x e =
      let hi : ℕ = (after gs first.1).next in
      let lo : ℕ = suc first_handle.state in
      let (u, us, listed, keeps, chained, new) =
        link-IsLinked first_handle first.0 gs chain lo hi last (after gs first.1)
          (Recorded.chain-IsChain q o gs w) in
      let (w₁, runs, c) = first-executes fuel u keeps linked.1 new in
      let (b, w₂, runs', held) =
        run_pass-IsLinked fuel hi first_handle u.semaphores gs us lo last v x w₁
          (IsLinked-frame first_handle u.semaphores gs us lo hi last linked.1 w₁
            (states-Completed u first_handle.inner first_handle.state v linked.1 w₁ c) chained)
          (Completed-Holds u first_handle v linked.1 w₁
            (ap (λ t. t.signal.0) keeps ∙ Recorded.first-own q o gs w) c)
          (Completed-semaphores u first_handle.inner first_handle.state v linked.1 w₁ c)
          (Recorded.first-old q o gs w) (omega (arith, new.next, c.next)) e in
      (w₂, rw listed (run_pass-ran (suc fuel) u us linked.1 w₁ w₂ b runs runs'), held)

  linked-panics :
      (fuel : ℕ) (p : Value)
      → pipe v gs ≡ Outcome.panics p
      → (w' : World) × (run_pass (suc fuel) linked.0 linked.1 ≡ unwinds p w')
  linked-panics fuel p e =
      let hi : ℕ = (after gs first.1).next in
      let lo : ℕ = suc first_handle.state in
      let (u, us, listed, keeps, chained, new) =
        link-IsLinked first_handle first.0 gs chain lo hi last (after gs first.1)
          (Recorded.chain-IsChain q o gs w) in
      let (w₁, runs, c) = first-executes fuel u keeps linked.1 new in
      let (w₂, fails) =
        run_pass-panics fuel hi first_handle u.semaphores gs us lo last v p w₁
          (IsLinked-frame first_handle u.semaphores gs us lo hi last linked.1 w₁
            (states-Completed u first_handle.inner first_handle.state v linked.1 w₁ c) chained)
          (Completed-Holds u first_handle v linked.1 w₁
            (ap (λ t. t.signal.0) keeps ∙ Recorded.first-own q o gs w) c)
          (Completed-semaphores u first_handle.inner first_handle.state v linked.1 w₁ c)
          (Recorded.first-old q o gs w) (omega (arith, new.next, c.next)) e in
      (w₂, rw listed (run_pass-unwinds_later (suc fuel) u us p linked.1 w₁ w₂ runs fails))

-- A chain of synchronous functions that is recorded, baked, and run in one round: the round leaves no
-- task, and the last handle gives the composition of the functions. The buffer is freed.
pub record_chain-runs :
    (q fuel : ℕ) (v x : Value) (gs : List (Value → Outcome)) (w : World)
    → pipe v gs ≡ Outcome.returns x
    → (h : TaskHandle) × (ts : List Task) × (s : Shared) × (w₁ w₂ w₃ : World) × (record_chain
          unbaked
          (Outcome.returns v)
          gs
          (shared [] [] q 1)
          w
        ≡ done ((h, ts), s) w₁)
      × (s.freed ≡ true)
      × (run_pass (suc fuel) ts w₁ ≡ done ([], true) w₂)
      × (Handle.wait h w₂ ≡ done (TaskResult.returned x) w₃)
record_chain-runs q fuel v x gs w e =
    let (w₂, runs, held) = linked-runs q v gs w fuel x e in
    let h = last q v gs w in
    (
      h,
      (linked q v gs w).0,
      spent q,
      (linked q v gs w).1,
      w₂,
      after_take h w₂,
      Recorded.record_chain_lem q (Outcome.returns v) gs w,
      refl,
      runs,
      wait-Holds h x w₂ held,
    )

module _ (q : ℕ) (o : Outcome) (p : Value) (gs : List (Value → Outcome)) (w : World) where
  -- The first function panics.
  linked-panics_first :
      (fuel : ℕ)
      → o ≡ Outcome.panics p
      → let ts = Recorded.linked q o gs w in
        (w' : World) × (run_pass (suc fuel) ts.0 ts.1 ≡ unwinds p w')
  unfolding Task.from_function Handle.new_handle
  linked-panics_first fuel e =
      let h = Recorded.first_handle q o gs w in
      let f = Recorded.first q o gs w in
      let w₁ = (Recorded.linked q o gs w).1 in
      let (u, us, listed, keeps, _, new) =
        link-IsLinked h f.0 gs (Recorded.chain q o gs w) (suc h.state) (after gs f.1).next
          (Recorded.last q o gs w) (after gs f.1) (Recorded.chain-IsChain q o gs w) in
      let (w₂, fails) =
        execute-calling_panics u h.inner h.state fuel p w₁
          (ap (λ t. t.inner) keeps ∙ ap (λ x. Body.calling x h.inner h.state) e) in
      let runnable = Recorded.first-IsRunnable q o gs w u keeps w₁ new.states in
      (
        w₂,
        rw listed (
            run_pass-unwinds (suc fuel) u us p w₁ w₂
              (try_run-panicking (suc fuel) u p w₁ w₂ runnable fails)),
      )

-- The chain is recorded, and its round panics, for any first function.
linked-panics_any :
    (q fuel : ℕ) (o : Outcome) (p : Value) (gs : List (Value → Outcome)) (w : World)
    → and_call o (λ v. pipe v gs) ≡ Outcome.panics p
    → let ts = Recorded.linked q o gs w in
      (w' : World) × (run_pass (suc fuel) ts.0 ts.1 ≡ unwinds p w')
linked-panics_any q fuel (Outcome.returns v) p gs w e = linked-panics q v gs w fuel p e
linked-panics_any q fuel (Outcome.panics x) p gs w e =
    linked-panics_first q (Outcome.panics x) p gs w fuel e

-- If the composition of a recorded chain panics, in its first function or in a later one, `run_all` on its
-- tasks unwinds with that panic.
pub record_chain-panics :
    (q rounds fuel : ℕ) (o : Outcome) (p : Value) (gs : List (Value → Outcome)) (w : World)
    → and_call o (λ v. pipe v gs) ≡ Outcome.panics p
    → (h : TaskHandle) × (ts : List Task) × (s : Shared) × (w₁ w₂ : World) × (record_chain unbaked o
          gs
          (shared [] [] q 1)
          w
        ≡ done ((h, ts), s) w₁)
      × (run_all (suc rounds) (suc fuel) ts w₁ ≡ unwinds p w₂)
unfolding run_all
record_chain-panics q rounds fuel o p gs w e =
    let (w₂, fails) = linked-panics_any q fuel o p gs w e in
    (
      Recorded.last q o gs w,
      (Recorded.linked q o gs w).0,
      spent q,
      (Recorded.linked q o gs w).1,
      w₂,
      Recorded.record_chain_lem q o gs w,
      rw fails refl,
    )
