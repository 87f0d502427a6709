-- ===== src/MvSync/Served.antt =====
-- An asynchronous task from its creation through a queue and one of its threads to its handle:
-- `create_async_task` of src/lib.rs, `submit` and `run` of src/queue.rs.
use mvsync.Base.{
  ◌==◌, ℕ, ◌+◌, ◌≤◌, ◌<◌, Bool, false, none, some, [], ◌∷◌, map, ◌≡◌, All-get_elem?, refl, sym, ap,
  subst, ◌∙◌, inl, length, length-append, get_elem?, All, All-mono, arith,
}
use mathlib.Core.List.{map-append}
use mvsync.World.{World, Value, TaskState}
use mvsync.Exec.{done}
use mvsync.Signal
use mvsync.Signal.Frame.{wake-SameData}
use mvsync.Task
use mvsync.Task.{Task}
use mvsync.Task.State
use mvsync.Task.Body
use mvsync.Task.Body.{Script, Reply, Inner}
use mvsync.Task.Handle
use mvsync.Task.Handle.{TaskHandle}
use mvsync.Await.Scripts.{Resolves}
use mvsync.Run.Execute.{IsRunnable-can_execute}
use mvsync.Worker
use mvsync.Worker.{WorkerThread, Running, start}
use mvsync.Worker.Spare.{IsApart, IsOther}
use mvsync.Worker.Fair.{IsMine, Carries}
use mvsync.Worker.Turns.{Within}
use mvsync.Worker.Carried.{Gives, append-Carries}
use mvsync.Worker.Served.{Carries-Within}
use mvsync.Queue
use mvsync.Queue.{Queue}
use mvsync.Queue.Dispatch.{send_to, dispatch, dispatch_all}
use mvsync.Queue.Conserve.{send_to-states}
use mvsync.Queue.Sends.{get_elem?-send_to, dispatch-Sent}
use mvsync.MvSync.{create_async_task}

-- Work of a task that was made before `n`, and that waits for no predecessor.
abbrev pub IsOld : ℕ → Inner → Type 0
IsOld n (Body.calling _ b s) = (b < n) × (s < n)
IsOld n (Body.running _ _ b s) = (b < n) × (s < n)
IsOld n _ = ⊥

abbrev pub IsEarlier : ℕ → Running → Type 0
IsEarlier n r = IsOld n r.inner × (r.state < n)

-- A thread that nobody has ended, with earlier tasks only.
abbrev pub Serves : ℕ → WorkerThread → Type 0
Serves n t = All (IsEarlier n) t.futures × All (IsEarlier n) (map start t.channel) × (t.end ≡ 0)

module _ (n : ℕ) (h : TaskHandle) (new_inner : n ≤ h.inner) (new_state : n ≤ h.state) where
  IsApart-of_old : (i : Inner) → IsOld n i → IsApart h i
  IsApart-of_old (Body.calling _ b s) (b_old, s_old) = (omega arith, omega arith)
  IsApart-of_old (Body.running _ _ b s) (b_old, s_old) = (omega arith, omega arith)
  IsApart-of_old (Body.continuing _ _ _ _) old = absurd old
  IsApart-of_old (Body.async_continuing _ _ _ _) old = absurd old

  IsOther-of_earlier : (r : Running) → IsEarlier n r → IsOther h r
  IsOther-of_earlier r (old, s_old) = (IsApart-of_old r.inner old, omega arith)

module _ (h : TaskHandle) (f : Script) (x : Value) (e : Bool) (n : ℕ) (task : Task)
    (own : IsMine h f 0 (start task)) (resolves : Resolves f 0 n (Reply.returns x)) where
  -- Once it was sent to a thread with earlier tasks only, the thread serves it.
  send-Within :
      (k : ℕ) (c : WorkerThread) (v w : World)
      → k ≤ h.inner
      → k ≤ h.state
      → Serves k c
      → w.states h.state ≡ TaskState.pending
      → Within (Gives h x) (length c.channel + 1 + n) e (Worker.send task c v).0 w
  unfolding Worker.send
  send-Within k c v w new_inner new_state (running_earlier, waiting_earlier, live) pending =
      let other = IsOther-of_earlier k h new_inner new_state in
      subst (λ m. Within (Gives h x) (m + n) e (Worker.send task c v).0 w)
        (length-append c.channel (task ∷ []))
        (Carries-Within h f x e n (Worker.send task c v).0 w
          (subst (Carries h f 0) (sym (map-append start c.channel (task ∷ []))) (
            append-Carries h f x e 0 (map start c.channel) (start task ∷ [])
              (All-mono (IsEarlier k) (IsOther h) (map start c.channel) other waiting_earlier)
              (inl (own, tt))))
          (All-mono (IsEarlier k) (IsOther h) c.futures other running_earlier) live pending
          resolves)

submit-alone :
    (q : Queue) (fuel : ℕ) (task : Task) (w : World)
    → 0 < q.specs.thread_count
    → q.channel ≡ []
    → Queue.submit fuel task q w ≡ done (record q { channel = task ∷ [] }) (Signal.wake q.signal w)
unfolding Queue.submit Queue.enqueue
submit-alone q fuel task w threaded empty =
    let threads : (q.specs.thread_count == 0) ≡ false = ground arith in rw threads (rw empty refl)

-- A queue with nothing at hand and one task in its channel sends it in one turn.
turn-sends :
    (q : Queue) (task : Task) (i : ℕ) (w : World)
    → q.channel ≡ task ∷ []
    → q.tasks ≡ []
    → let sent = send_to i task q.threads w in
      dispatch task q.threads w ≡ done (none, sent.0) sent.1
      → Queue.turn q w
        ≡ done (Queue.continues (record q { channel = []; tasks = []; threads = sent.0 })) sent.1
unfolding Queue.turn Queue.receive Queue.round Queue.park dispatch_all
turn-sends q task i w at empty sends = rw empty (rw at (rw sends refl))

-- An asynchronous task, whose future pends `n` times, calling its waker, and then returns, is submitted to
-- a queue with threads that nobody has ended and with nothing at hand. Some thread has a free worker, and
-- all tasks of the threads are earlier ones without a predecessor, whose functions and futures may return,
-- panic or pend for ever. Then the next turn of the queue sends it to a thread that had a free worker. After
-- at most as many turns of that thread as its channel was long and `n + 1` more, each of which goes on, a
-- pass over the futures leaves the handle done with the value.
pub submit-Within :
    (q : Queue) (fuel : ℕ) (f : Script) (n : ℕ) (x : Value) (j : ℕ) (d : WorkerThread)
    (end_when_done : Bool) (w : World)
    → 0 < q.specs.thread_count
    → q.channel ≡ []
    → q.tasks ≡ []
    → All (Serves w.next) q.threads
    → get_elem? q.threads j ≡ some d
    → 0 < d.free_workers
    → Resolves f 0 n (Reply.returns x)
    → let ((task, h), w₀) = create_async_task q.signal f w in
      (q₁ q₂ : Queue) × (w₁ w₂ : World) × (i : ℕ) × (c t : WorkerThread) × (Queue.submit fuel task q
          w₀
        ≡ done q₁ w₁)
      × (Queue.turn q₁ w₁ ≡ done (Queue.continues q₂) w₂)
      × (q₂.tasks ≡ [])
      × (get_elem? q.threads i ≡ some c)
      × (0 < c.free_workers)
      × (get_elem? q₂.threads i ≡ some t)
      × Within (Gives h x) (length c.channel + 1 + n) end_when_done t w₂
unfolding create_async_task Queue.submit Queue.enqueue Task.from_async Handle.new_handle
    Task.can_execute Task.is_panicked Task.is_cancelled State.eq start
submit-Within q fuel f n x j d e w threaded empty at_hand earlier at free resolves =
    let ((task, h), w₀) = create_async_task q.signal f w in
    let w₁ = Signal.wake q.signal w₀ in
    let same = (wake-SameData q.signal w₀).states in
    let pending : w₁.states h.state ≡ TaskState.pending = ap (λ g. g h.state) same ∙ ground arith in
    let ready : w₁.states task.state ≡ TaskState.ready =
      ap (λ g. g task.state) same ∙ ground arith in
    let (can, sound, uncancelled) =
      IsRunnable-can_execute task w₁
        (record { state = ready; self_state = pending; waits = refl }) in
    let (i, c, at_i, more, sends) =
      dispatch-Sent task q.threads w₁ j d refl refl at free can sound uncancelled in
    let sent = send_to i task q.threads w₁ in
    (
      record q { channel = task ∷ [] },
      record q { channel = []; tasks = []; threads = sent.0 },
      w₁,
      sent.1,
      i,
      c,
      (Worker.send task c w₁).0,
      submit-alone q fuel task w₀ threaded empty,
      turn-sends (record q { channel = task ∷ [] }) task i w₁ refl at_hand sends,
      refl,
      at_i,
      more,
      get_elem?-send_to i task q.threads w₁ c at_i,
      send-Within h f x e n task (record { inner = refl; state = refl; own = refl }) resolves w.next
          c w₁ sent.1 (omega arith) (omega arith)
          (All-get_elem? (Serves w.next) q.threads i c at_i earlier)
          (ap (λ g. g h.state) (send_to-states i task q.threads w₁) ∙ pending),
    )
