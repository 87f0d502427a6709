-- ===== src/Buffer/Recorded.antt =====
-- What a chain of commands of src/command_buffers/buffer.rs records: its tasks before and after they are linked.
use mvsync.Base.{ℕ, suc, ◌<◌, List, [], ◌∷◌, ◌≡◌, refl, ap, ◌∙◌, all, arith}
use mathlib.Core.List.{append-nil}
use mvsync.World.{World, Value}
use mvsync.Exec.{done}
use mvsync.Task
use mvsync.Task.{Task}
use mvsync.Task.Body.{Outcome}
use mvsync.Task.Handle
use mvsync.Task.Handle.{TaskHandle}
use mvsync.Run.Execute.{IsRunnable}
use mvsync.Buffer.Chain.{link}
use mvsync.Buffer.Pipeline.{IsChain}
use mvsync.Buffer.Calls.{
  conts, last_handle, after, shared, unbaked, record_chain, add_all_lem, after-next, states-after,
  conts-IsChain, spent,
}

module _ (q : ℕ) (o : Outcome) (gs : List (Value → Outcome)) (w : World) where
  -- The first task, its handle, and the world after it was added.
  abbrev pub first_handle : TaskHandle
  first_handle = (Handle.new_handle w).0

  abbrev pub first : Task × World
  first =
      Task.from_function o first_handle.inner first_handle.state (first_handle.signal, q)
        (Handle.new_handle w).1

  abbrev pub chain : List Task
  chain = conts gs first_handle q first.1

  abbrev pub last : TaskHandle
  last = last_handle gs first_handle first.1

  abbrev pub linked : List Task × World
  linked = link first.0 chain (after gs first.1)

  pub record_chain_lem :
      record_chain unbaked o gs (shared [] [] q 1) w ≡ done ((last, linked.0), spent q) linked.1
  unfolding record_chain
  record_chain_lem =
      rw
        (add_all_lem gs first_handle (first.0 ∷ []) (Handle.make_controller first_handle ∷ []) q
          first.1)
        (rw (append-nil linked.0))

  states-first : (i : ℕ) → i < first.1.next → (after gs first.1).states i ≡ first.1.states i
  states-first i h = states-after gs first.1 i h

  pub chain-IsChain :
      IsChain first_handle gs chain
        (suc first_handle.state)
        (after gs first.1).next
        last
        (after gs first.1)
  unfolding Task.from_function Handle.new_handle
  chain-IsChain = conts-IsChain gs first_handle q (suc first_handle.state) first.1 (omega arith)

  pub first-own : first.0.signal.0 ≡ first_handle.signal
  unfolding Task.from_function
  first-own = refl

  pub first-old : first_handle.signal < (after gs first.1).next
  unfolding Task.from_function Handle.new_handle
  first-old = omega (arith, after-next gs first.1)

  -- The first task after linking can be executed.
  pub first-IsRunnable :
      (u : Task)
      → u ≡ record (first.0) { semaphores = u.semaphores }
      → (world : World) → world.states ≡ (after gs first.1).states
      → IsRunnable u world
  unfolding Task.from_function Handle.new_handle
  first-IsRunnable u e world same = record {
    state =
        ap world.states (ap (λ t. t.state) e)
        ∙ ap (λ f. f first.0.state) same
        ∙ states-first first.0.state (omega arith)
        ∙ ground arith;
    self_state =
        ap world.states (ap (λ t. t.self_state) e)
        ∙ ap (λ f. f first.0.self_state) same
        ∙ states-first first.0.self_state (omega arith)
        ∙ ground arith;
    waits = ap (all world.semaphores) (ap (λ t. t.wait) e);
  }
