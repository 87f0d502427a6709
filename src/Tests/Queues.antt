-- ===== src/Tests/Queues.antt =====
-- The theorems on the queue and its threads at concrete inputs.
use mvsync.Base.{List, [], ◌∷◌, ◌++◌, ◌≡◌, refl, arith}
use mvsync.World.{World, num}
use mvsync.Exec.{done, Returns}
use mvsync.Task.{Task}
use mvsync.Task.Body
use mvsync.Task.Ids.{ids}
use mvsync.Worker.{WorkerThread, poll_all}
use mvsync.Queue
use mvsync.Queue.Spec.{Spec, view}
use mvsync.Queue.Effects.{StopsBy, submitted_by}
use mvsync.Queue.Refines.{Step-refines}
use mvsync.Sync.Semaphore
use mvsync.Queue.Ordered.{IsOrdered}
use mvsync.Queue.Waits.{Reach-fresh-IsOrdered}
use mvsync.Queue.Balance.{Balances, Reach-Balances}
use mvsync.Signal
use mvsync.Task
use mvsync.Task.State
use mvsync.Worker
use mvsync.Queue.{new_threads, label_all}
use mvsync.Queue.Dispatch.{
  send_to, dispatch, assign, offer, offer_to, better, target_thread, max_by_key, dispatch_all,
}
use mvsync.Queue.Choice.{IsBest, target_thread-IsTarget}
use mvsync.Queue.Load.{Balanced, dispatch_all-load}
use mvsync.Queue.Conserve.{Fate, queued, dispatch_all-Fate}
use mvsync.Queue.System.{fresh, System, Step, Reach, Fits, Reach-new-Fits}
use mvsync.Queue.Starved.{panic_starves}
use mvsync.Tests.Data.{world, task, tasks, threads, failing, busy_thread, specs}

dispatch_all-Fate_example :
    (r : List Task × List WorkerThread) × (w' : World) × (dispatch_all tasks threads world
      ≡ done r w')
    × Fate (ids tasks ++ queued threads) (ids r.0 ++ queued r.1) world w'
dispatch_all-Fate_example = dispatch_all-Fate tasks threads world

dispatch_all-load_example :
    (r : List Task × List WorkerThread) × (w' : World) × (dispatch_all tasks threads world
      ≡ done r w')
    × Balanced threads r.1
dispatch_all-load_example = dispatch_all-load tasks threads world (omega arith)

target_thread-IsTarget_example : (c : WorkerThread) × IsBest [] threads 2 c
unfolding target_thread max_by_key
target_thread-IsTarget_example = target_thread-IsTarget (task 1 9) threads

abbrev start : System
start = record {
  queue = (Queue.new specs ("io" ∷ []) 12 world).0;
  world = (Queue.new specs ("io" ∷ []) 12 world).1;
}

abbrev submitted : System
submitted = record start { queue = Queue.push_all tasks start.queue }

Reach-new-Fits_example : Fits 3 submitted.queue.threads
unfolding Queue.new
Reach-new-Fits_example =
    Reach-new-Fits specs ("io" ∷ []) 12 world submitted (omega arith)
      (Reach.next Reach.here (Step.submits tasks refl refl))

-- The queue has taken the first of the three tasks, and sends it in its round.
abbrev taken : System
taken = record submitted {
  queue = record submitted.queue { channel = task 2 8 ∷ task 3 7 ∷ []; tasks = task 1 9 ∷ [] };
}

abbrev handed_out : System
handed_out = record {
  queue = record taken.queue {
    tasks = [];
    threads = (send_to 1 (task 1 9) taken.queue.threads taken.world).0;
  };
  world = (send_to 1 (task 1 9) taken.queue.threads taken.world).1;
}

taken-hands_out : Step taken handed_out
unfolding Queue.round dispatch_all dispatch assign offer offer_to target_thread max_by_key better
    Task.can_execute Task.is_panicked Task.is_cancelled State.eq send_to Queue.new new_threads
    label_all Worker.new Signal.new Worker.set_label Worker.send Signal.wake Signal.drain
taken-hands_out = Step.hands_out refl

submitted-taken : Step submitted taken
unfolding Queue.receive Queue.new
submitted-taken = Step.takes refl

Step-refines_example :
    Spec handed_out.world
      (submitted_by taken-hands_out)
      (StopsBy taken-hands_out)
      (view taken.queue)
      (view handed_out.queue)
Step-refines_example = Step-refines taken handed_out taken-hands_out

handed_out-Reach : Reach start handed_out
unfolding Queue.new
handed_out-Reach =
    Reach.next (Reach.next (Reach.next Reach.here (Step.submits tasks refl refl)) submitted-taken)
      taken-hands_out

Reach-Balances_example : Balances handed_out-Reach
Reach-Balances_example = Reach-Balances start handed_out handed_out-Reach

-- A task that waits for the semaphore 17 comes in, a user's task signals it, and the queue sends the task.
abbrev waiting_task : Task
waiting_task = record (task 1 9) { wait = 17 ∷ [] }

abbrev with_task : System
with_task = record start { queue = Queue.push_all (waiting_task ∷ []) start.queue }

abbrev with_signal : System
with_signal = record with_task { world = Semaphore.signal 17 start.world }

abbrev at_hand : System
at_hand = record with_signal {
  queue = record with_task.queue { channel = []; tasks = waiting_task ∷ [] };
}

abbrev sent : System
sent = record {
  queue = record at_hand.queue {
    tasks = [];
    threads = (send_to 1 waiting_task at_hand.queue.threads at_hand.world).0;
  };
  world = (send_to 1 waiting_task at_hand.queue.threads at_hand.world).1;
}

with_signal-at_hand : Queue.receive with_signal.queue ≡ Queue.continues at_hand.queue
unfolding Queue.receive Queue.new
with_signal-at_hand = refl

at_hand-sent : Queue.round at_hand.queue at_hand.world ≡ done sent.queue sent.world
unfolding Queue.round dispatch_all dispatch assign offer offer_to target_thread max_by_key better
    Task.can_execute Task.is_panicked Task.is_cancelled State.eq send_to Queue.new new_threads
    label_all Worker.new Signal.new Worker.set_label Worker.send Signal.wake Signal.drain
    Semaphore.signal Semaphore.ready
at_hand-sent = refl

Reach-fresh-IsOrdered_example : IsOrdered sent.world sent.queue.threads
unfolding Semaphore.signal Queue.new
Reach-fresh-IsOrdered_example =
    Reach-fresh-IsOrdered specs ("io" ∷ []) 12 world sent
      (Reach.next {b = at_hand}
        (Reach.next {b = with_signal} {c = at_hand}
          (Reach.next {b = with_task} {c = with_signal}
            (Reach.next {b = fresh specs ("io" ∷ []) 12 world} {c = with_task} Reach.here
              (Step.submits (waiting_task ∷ []) refl refl))
            (Step.user refl))
          (Step.takes with_signal-at_hand))
        (Step.hands_out at_hand-sent))
      ((((tt, λ i e. e), λ i e. ground arith), λ i e. e), tt)

panic_starves_example :
    (t' : WorkerThread) × (w' : World) × (poll_all busy_thread world ≡ done t' w')
    × (t'.futures ≡ [])
    × (t'.channel ≡ [])
    × ((us : List Task) (x : World)
        → Returns (λ (_, ts) _. ts ≡ t' ∷ []) (dispatch_all us (t' ∷ []) x))
unfolding Body.poll
panic_starves_example = panic_starves busy_thread failing (num 5) world world refl refl refl refl
