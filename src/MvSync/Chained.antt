-- ===== src/MvSync/Chained.antt =====
-- A task and continuations of it, from their creation by src/lib.rs through a queue of one thread of src/queue.rs
-- to the last handle.
use mvsync.Base.{ℕ, suc, ◌<◌, List, [], ◌∷◌, ◌≡◌, refl, ap, ◌∙◌, length, arith}
use mvsync.World.{World, Value}
use mvsync.Exec.{done}
use mvsync.Signal
use mvsync.Signal.Frame.{wake-SameData}
use mvsync.Task
use mvsync.Task.{Task}
use mvsync.Task.Body
use mvsync.Task.Body.{Outcome}
use mvsync.Task.Handle
use mvsync.Task.Handle.{TaskHandle}
use mvsync.Buffer.Pipeline.{and_call, pipe, IsChain-IsLinked, IsLinked-frame}
use mvsync.Buffer.Calls.{conts, last_handle, after, states-after, conts-IsChain}
use mvsync.Worker.{WorkerThread}
use mvsync.Queue
use mvsync.Queue.{Queue}
use mvsync.MvSync.{create_task, create_continuation}
use mvsync.Queue.Stepped.{told, wait-Told, sent-Stepped, chain-Told}
use mvsync.Queue.Single.{IsIdle, submit_all-alone, alone, alternate}

-- Continuations of the task of a handle, one behind the other; the last handle.
unfoldable pub create_continuations :
    ℕ → List (Value → Outcome) → TaskHandle → World → (List Task × TaskHandle) × World
unfolding create_continuation
create_continuations queue_signal [] h w = (([], h), w)
create_continuations queue_signal (g ∷ gs) h w =
    let ((t, r), w₁) = create_continuation queue_signal g h w in
    let ((ts, l), w₂) = create_continuations queue_signal gs r w₁ in ((t ∷ ts, l), w₂)

create_continuations_lem :
    (queue_signal : ℕ) (gs : List (Value → Outcome)) (h : TaskHandle) (w : World)
    → create_continuations queue_signal gs h w
      ≡ ((conts gs h queue_signal w, last_handle gs h w), after gs w)
unfolding create_continuations create_continuation
create_continuations_lem queue_signal [] h w = refl
create_continuations_lem queue_signal (g ∷ gs) h w =
    let ((t, r), w₁) = create_continuation queue_signal g h w in
    ap (λ ((ts, l), w₂). ((t ∷ ts, l), w₂)) (create_continuations_lem queue_signal gs r w₁)

-- A task over a function, and continuations of it one behind the other, are submitted together to a queue with
-- nothing at hand and one thread, which nobody has ended, which has nothing to do, and which has a free
-- worker. As many turns of the queue as there are tasks, each of which is followed by one of the thread,
-- leave no task with the queue, and the last handle then gives the composition of the functions: its value,
-- or, if one of them panics, a panic whose payload is the unit.
pub alternate-create_continuations :
    (q : Queue) (c : WorkerThread) (rounds fuel : ℕ) (o : Outcome) (gs : List (Value → Outcome))
    (w : World)
    → IsIdle q c
    → let ((t, h), w₀) = create_task q.signal o w in
      let ((ts, l), w₁) = create_continuations q.signal gs h w₀ in
      (q₁ q₂ : Queue) × (w₂ w₃ w₄ : World) × (Queue.submit_all rounds fuel (t ∷ ts) q w₁
        ≡ done q₁ w₂)
      × (alternate (suc (length gs)) q₁ w₂ ≡ done q₂ w₃)
      × (q₂.channel ≡ [])
      × (q₂.tasks ≡ [])
      × (Handle.wait l w₃ ≡ done (told (and_call o (λ x. pipe x gs))) w₄)
unfolding create_task Handle.new_handle Task.from_function Body.poll
alternate-create_continuations q c rounds fuel o gs w idle =
    let ((t, h), w₀) = create_task q.signal o w in
    let ts = conts gs h q.signal w₀ in
    let l = last_handle gs h w₀ in
    let w₁ = after gs w₀ in
    let w₂ = Signal.wake q.signal w₁ in
    let woken = (wake-SameData q.signal w₁).states in
    let old : (s : ℕ) → s < w₀.next → w₂.states s ≡ w₀.states s =
      λ s lt. ap (λ f. f s) woken ∙ states-after gs w₀ s lt in
    let free = c.free_workers in
    let (free₁, w₃, steps, held, spares, same, up) =
      sent-Stepped q c t h
        (record { self_state = refl; own = refl; anywhere = refl; included = refl }) ts free w₂ o
        (Signal.wake c.signal w₂) idle.more idle.few
        (record {
          state = old t.state (omega arith) ∙ ground arith;
          self_state = old h.state (omega arith) ∙ ground arith;
          waits = refl;
        })
        ((wake-SameData c.signal w₂).states) refl in
    let k =
      IsLinked-frame h t.semaphores gs ts (suc h.state) w₁.next l w₁ w₃
        (λ s lt. same s (omega arith) ∙ ap (λ f. f s) woken)
        (IsChain-IsLinked h t.semaphores gs ts (suc h.state) w₁.next l w₁
          (conts-IsChain gs h q.signal (suc h.state) w₀ (omega arith))) in
    let (free₂, w₄, runs, held₂) =
      chain-Told q c h t.semaphores gs ts (suc h.state) w₁.next l free₁ o w₃ held spares up k in
    let (w₅, gives) = wait-Told l (and_call o (λ x. pipe x gs)) w₄ held₂ in
    rw (create_continuations_lem q.signal gs h w₀) (
      alone q c (t ∷ ts) free,
      alone q c [] free₂,
      w₂,
      w₄,
      w₅,
      submit_all-alone q c rounds fuel (t ∷ ts) w₁ idle,
      steps (length gs) ∙ runs,
      refl,
      refl,
      gives,
    )
