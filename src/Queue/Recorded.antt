-- ===== src/Queue/Recorded.antt =====
-- A chain of commands of src/command_buffers/buffer.rs, from the first call on the buffer through a queue of one
-- thread of src/queue.rs to the handle of the last command.
use mvsync.Base.{ℕ, suc, true, List, [], ◌∷◌, ◌≡◌, refl, ap, ◌∙◌, length, arith}
use mvsync.World.{World, Value, context}
use mvsync.Exec.{done}
use mvsync.Signal
use mvsync.Signal.Frame.{wake-SameData}
use mvsync.Task
use mvsync.Task.{Task}
use mvsync.Task.Body
use mvsync.Task.Body.{Outcome}
use mvsync.Task.Handle
use mvsync.Task.Handle.{TaskHandle}
use mvsync.Buffer.Command.{Shared}
use mvsync.Buffer.Pipeline.{and_call, pipe, IsLinked-frame}
use mvsync.Buffer.Linking.{link-IsLinked}
use mvsync.Buffer.Calls.{after, unbaked, shared, record_chain, spent}
use mvsync.Buffer.Recorded
use mvsync.Worker.{WorkerThread}
use mvsync.Queue
use mvsync.Queue.{Queue}
use mvsync.Queue.Stepped.{told, wait-Told, IsPlain, sent-Stepped, chain-Told}
use mvsync.Queue.Single.{IsIdle, submit_all-alone, alone, alternate}

-- A chain of synchronous functions is recorded on a new command buffer, baked, taken out, and submitted to a
-- queue with nothing at hand and one thread, which nobody has ended, which has nothing to do, and which has a
-- free worker. As many turns of the queue as there are tasks, each of which is followed by one of the thread,
-- leave no task with the queue, and the last handle then gives the composition of the functions: its value,
-- or, if one of them panics, a panic whose payload is the unit. The buffer was freed.
pub alternate-record_chain :
    (q : Queue) (c : WorkerThread) (rounds fuel : ℕ) (o : Outcome) (gs : List (Value → Outcome))
    (w : World)
    → IsIdle q c
    → (h : TaskHandle) × (ts : List Task) × (s : Shared) × (q₁ q₂ : Queue) × (w₁ w₂ w₃ w₄ : World)
      × (record_chain unbaked o gs (shared [] [] q.signal 1) w ≡ done ((h, ts), s) w₁)
      × (s.freed ≡ true)
      × (Queue.submit_all rounds fuel ts q w₁ ≡ done q₁ w₂)
      × (alternate (suc (length gs)) q₁ w₂ ≡ done q₂ w₃)
      × (q₂.channel ≡ [])
      × (q₂.tasks ≡ [])
      × (Handle.wait h w₃ ≡ done (told (and_call o (λ x. pipe x gs))) w₄)
unfolding Task.from_function Body.poll
alternate-record_chain q c rounds fuel o gs w idle =
    let h = Recorded.first_handle q.signal o gs w in
    let first = Recorded.first q.signal o gs w in
    let ts = Recorded.chain q.signal o gs w in
    let l = Recorded.last q.signal o gs w in
    let linked = Recorded.linked q.signal o gs w in
    let hi = (after gs first.1).next in
    let w₂ = Signal.wake q.signal linked.1 in
    let woken = wake-SameData q.signal linked.1 in
    let free = c.free_workers in
    let (u, us, listed, keeps, chained, new) =
      link-IsLinked h first.0 gs ts (suc h.state) hi l (after gs first.1)
        (Recorded.chain-IsChain q.signal o gs w) in
    let plain : IsPlain h u = record {
      self_state = ap (λ t. t.self_state) keeps;
      own = ap (λ t. t.signal.0) keeps ∙ Recorded.first-own q.signal o gs w;
      anywhere = ap (λ t. t.preferred_thread) keeps;
      included = ap (λ t. t.not_on) keeps;
    } in
    let (free₁, w₃, steps, held, spares, same, up) =
      sent-Stepped q c u h plain us free w₂ o (Signal.wake c.signal w₂) idle.more idle.few
        (Recorded.first-IsRunnable q.signal o gs w u keeps w₂ (woken.states ∙ new.states))
        ((wake-SameData c.signal w₂).states)
        (ap (λ i. Body.poll (context c.signal) i (Signal.wake c.signal w₂))
          (ap (λ t. t.inner) keeps)) in
    let k =
      IsLinked-frame h u.semaphores gs us (suc h.state) hi l linked.1 w₃
        (λ s lt. same s (omega arith) ∙ ap (λ f. f s) woken.states) chained in
    let (free₂, w₄, runs, held₂) =
      chain-Told q c h u.semaphores gs us (suc h.state) hi l free₁ o w₃ held spares up k in
    let (w₅, gives) = wait-Told l (and_call o (λ x. pipe x gs)) w₄ held₂ in
    (
      l,
      linked.0,
      spent q.signal,
      alone q c (u ∷ us) free,
      alone q c [] free₂,
      linked.1,
      w₂,
      w₄,
      w₅,
      Recorded.record_chain_lem q.signal o gs w,
      refl,
      rw listed (submit_all-alone q c rounds fuel (u ∷ us) linked.1 idle),
      steps (length gs) ∙ runs,
      refl,
      refl,
      gives,
    )
