-- ===== src/Queue/Single.antt =====
-- A queue of one thread: the loop of `Queue::run` and the loop of its thread, in src/queue.rs, by turns.
use mvsync.Base.{
  ap, ◌==◌, ℕ, zero, suc, ◌-◌, ◌<◌, ◌^◌, true, false, none, some, List, [], ◌∷◌, ◌≡◌, refl,
  get_elem?, arith,
}
use mvsync.World.{World, Value, TaskState, unit, context, set_state}
use mvsync.Exec.{done, unwinds, Poll, M, ◌>>=◌, pure}
use mvsync.Task
use mvsync.Task.{Task}
use mvsync.Task.Body
use mvsync.Signal
use mvsync.Run.{settle}
use mvsync.Run.Settle.{pass_panic_lem}
use mvsync.Worker
use mvsync.Worker.{WorkerThread}
use mvsync.Worker.Single.{given, rid, turn-ready, turn-unwinds}
use mvsync.Queue
use mvsync.Queue.{Queue}
use mvsync.Queue.Dispatch.{dispatch, dispatch_all, send_to}
use mvsync.Queue.Sends.{dispatch-Sent}

abbrev after_turn : Worker.Turn → WorkerThread
after_turn (Worker.continues t) = t
after_turn (Worker.ends t) = t
after_turn (Worker.parked t) = t

-- A turn of the first thread.
unfoldable pub serve : Queue → M Queue
unfolding Worker.turn
serve q = elim q.threads [
  | [] ↦ pure q
  | t ∷ ts ↦ Worker.turn false t >>= λ r. pure (record q { threads = after_turn r ∷ ts })
]

-- Turns of the queue, each of which is followed by one of the thread.
unfoldable pub alternate : ℕ → Queue → M Queue
unfolding Queue.turn serve
alternate zero q = pure q
alternate (suc n) q = Queue.turn q >>= λ r. elim r [
  | Queue.continues q' ↦ serve q' >>= alternate n
  | Queue.ends q' ↦ pure q'
  | Queue.parked q' ↦ pure q'
]

module _ (q : Queue) (c : WorkerThread) where
  -- The thread with nothing to do, and the queue with it.
  abbrev pub idle : ℕ → WorkerThread
  idle free = record (rid free [] c) { connected = true }

  abbrev pub alone : List Task → ℕ → Queue
  alone ts free = record q { channel = ts; tasks = []; threads = idle free ∷ [] }

  module _ (task : Task) (ts : List Task) (free : ℕ) (w : World) where
    abbrev sent : WorkerThread
    sent = (Worker.send task (idle free) w).0

    turn-sent :
        task.preferred_thread ≡ none
        → task.not_on ≡ []
        → 0 < free
        → Task.can_execute task w ≡ true
        → Task.is_panicked task w ≡ false
        → Task.is_cancelled task w ≡ false
        → Queue.turn (alone (task ∷ ts) free) w
          ≡ done
              (Queue.continues (record q { channel = ts; tasks = []; threads = sent ∷ [] }))
              (Signal.wake c.signal w)
    unfolding Queue.turn Queue.receive Queue.round Queue.park dispatch_all send_to Worker.send
    turn-sent anywhere included more can sound uncancelled = at (
        dispatch-Sent task (idle free ∷ []) w 0 (idle free) anywhere included refl more can sound
          uncancelled)
      where
        at :
            ((i : ℕ) × (d : WorkerThread) × (get_elem? (idle free ∷ []) i ≡ some d)
              × (0 < d.free_workers)
              × (dispatch task (idle free ∷ []) w
                  ≡ done
                      (none, (send_to i task (idle free ∷ []) w).0)
                      (send_to i task (idle free ∷ []) w).1))
            → Queue.turn (alone (task ∷ ts) free) w
              ≡ done
                  (Queue.continues (record q { channel = ts; tasks = []; threads = sent ∷ [] }))
                  (Signal.wake c.signal w)
        at (zero, d, _, _, sends) = rw sends refl
        at (suc i, d, e, _, _) = cc

    module _ (anywhere : task.preferred_thread ≡ none) (included : task.not_on ≡ [])
        (more : 0 < free) (few : free < 2 ^ 32) (can : Task.can_execute task w ≡ true)
        (sound : Task.is_panicked task w ≡ false) (uncancelled : Task.is_cancelled task w ≡ false)
        (u : World) where
      -- The task is sent, and ends at its first poll; the worker is given back if it does not panic.
      pub alternate-ready :
          (n : ℕ)
          → Body.poll (context c.signal) task.inner (Signal.wake c.signal w)
            ≡ done (Poll.ready tt) u
          → alternate (suc n) (alone (task ∷ ts) free) w
            ≡ alternate n (alone ts free) (settle task.semaphores task.signal u)
      unfolding alternate serve Worker.send
      alternate-ready n ends =
          let same : sent ≡ given (task ∷ []) sent = refl in
          let back : Worker.fetch_add (Worker.fetch_sub free) ≡ free = omega arith in
          rw (turn-sent anywhere included more can sound uncancelled)
            (rw (turn-ready sent task [] (Signal.wake c.signal w) u false ends) (rw back refl))

      pub alternate-unwinds :
          (n : ℕ) (p : Value)
          → Body.poll (context c.signal) task.inner (Signal.wake c.signal w) ≡ unwinds p u
          → alternate (suc n) (alone (task ∷ ts) free) w
            ≡ alternate n (alone ts (free - 1)) (
                settle task.semaphores task.signal
                  (set_state task.self_state (TaskState.panicked p) u))
      unfolding alternate serve Worker.send
      alternate-unwinds n p ends =
          let taken : Worker.fetch_sub free ≡ free - 1 = omega arith in
          rw (turn-sent anywhere included more can sound uncancelled)
            (rw (turn-unwinds sent task [] (Signal.wake c.signal w) u false p ends) (rw taken refl))

    -- A task whose predecessor has panicked is not sent; the thread has nothing to do in its turn.
    pub alternate-passes :
        (n : ℕ)
        → Task.can_execute task w ≡ true
        → Task.is_panicked task w ≡ true
        → alternate (suc n) (alone (task ∷ ts) free) w
          ≡ alternate n (alone ts free) (
              settle task.semaphores task.signal
                (set_state task.self_state (TaskState.panicked unit) w))
    unfolding alternate serve Queue.turn Queue.receive Queue.round Queue.park dispatch_all dispatch
        Worker.turn Worker.receive Worker.receive_first Worker.receive_none
    alternate-passes n can panics = rw can (rw panics (rw (pass_panic_lem task w panics) refl))

-- A queue with nothing at hand, whose one thread nobody has ended, has nothing to do and has a free worker.
pub record IsIdle (q : Queue) (c : WorkerThread) : Type 0 where
  pub threaded : 0 < q.specs.thread_count
  pub no_channel : q.channel ≡ []
  pub at_hand : q.tasks ≡ []
  pub only : q.threads ≡ c ∷ []
  pub no_tasks : c.channel ≡ []
  pub no_futures : c.futures ≡ []
  pub live : c.end ≡ 0
  pub connected : c.connected ≡ true
  pub more : 0 < c.free_workers
  pub few : c.free_workers < 2 ^ 32

pub submit_all-alone :
    (q : Queue) (c : WorkerThread) (rounds fuel : ℕ) (ts : List Task) (w : World)
    → IsIdle q c
    → Queue.submit_all rounds fuel ts q w
      ≡ done (alone q c ts c.free_workers) (Signal.wake q.signal w)
unfolding Queue.submit_all Queue.enqueue
submit_all-alone q c rounds fuel ts w i =
    let threads : (q.specs.thread_count == 0) ≡ false = ground (arith, i.threaded) in
    let same : c ≡ idle q c c.free_workers =
      rw i.no_tasks (rw i.no_futures (rw i.live (rw i.connected refl))) in
    let whole : Queue.push_all ts q ≡ alone q c ts c.free_workers = rw i.no_channel (
      rw i.at_hand
        (rw i.only (ap (λ d. record q { channel = ts; tasks = []; threads = d ∷ [] }) same))) in
    rw threads (ap (λ x. done x (Signal.wake q.signal w)) whole)
