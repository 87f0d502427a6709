-- ===== src/Queue/Conserve.antt =====
-- What becomes of the tasks of a round: none is lost and none is doubled.
use mvsync.Base.{
  ℕ, zero, suc, ◌+◌, Bool, true, false, Option, none, some, List, [], ◌∷◌, ◌++◌, ◌≡◌, refl, sym, ap,
  ◌∙◌, inl, inr, ltb, if-cases, Option-cases, get_elem?, count, count-append, All, All-append,
  All-mono, arith,
}
use mvsync.World.{World, TaskState, unit, set_state}
use mvsync.Exec.{Exec, done, pure, ◌>>◌, Returns, Returns-and_then, Returns-done}
use mvsync.Signal.Frame.{wake-SameData}
use mvsync.Task
use mvsync.Task.{Task}
use mvsync.Task.Ids.{ids, ids-append}
use mvsync.Worker.{WorkerThread}
use mvsync.Run.{pass_panic, pass_cancel, settle}
use mvsync.Run.Settle.{settle-Settled, pass_panic_lem}
use mvsync.Queue.Dispatch.{
  target_thread, send_to, offer, offer_to, assign, relax, dispatch, dispatch_all, keep,
}

-- A list for each thread, one after the other.
abbrev pub gather : (WorkerThread → List ℕ) → List WorkerThread → List ℕ
gather g [] = []
gather g (t ∷ ts) = g t ++ gather g ts

-- The tasks in the channels of the threads.
abbrev pub queued : List WorkerThread → List ℕ
queued = gather (λ t. ids t.channel)

-- The task has ended without being called.
abbrev pub is_over : TaskState → Bool
is_over TaskState.pending = false
is_over TaskState.ready = false
is_over (TaskState.panicked _) = true
is_over TaskState.cancelled = true

-- From `w` to `w'` the tasks `before` went into `after`, but for some that have ended.
pub record Fate (before after : List ℕ) (w w' : World) : Type 0 where
  pub settled : List ℕ
  pub counts : (a : ℕ) → count a before ≡ count a settled + count a after
  pub over : All (λ i. is_over (w'.states i) ≡ true) settled
  pub stays : (i : ℕ) → is_over (w.states i) ≡ true → is_over (w'.states i) ≡ true

-- Nothing ends, and the states are the same.
moved :
    (before after : List ℕ) (w w' : World)
    → w'.states ≡ w.states
    → ((a : ℕ) → count a before ≡ count a after)
    → Fate before after w w'
moved before after w w' e h = record {
  settled = [];
  counts = λ a. omega (arith, h a);
  over = tt;
  stays = λ i o. ap (λ f. is_over (f i)) e ∙ o;
}

pub send_to-states :
    (i : ℕ) (task : Task) (ts : List WorkerThread) (w : World)
    → (send_to i task ts w).1.states ≡ w.states
unfolding send_to
send_to-states i task [] w = refl
send_to-states zero task (t ∷ ts) w = (wake-SameData t.signal w).states
send_to-states (suc i) task (t ∷ ts) w = send_to-states i task ts w

count-send_to :
    (i : ℕ) (task : Task) (ts : List WorkerThread) (w : World) (c : WorkerThread) (a : ℕ)
    → get_elem? ts i ≡ some c
    → count a (task.self_state ∷ queued ts) ≡ count a (queued (send_to i task ts w).0)
unfolding send_to
count-send_to i task [] w c a e = cc
count-send_to zero task (t ∷ ts) w c a e = omega (
  arith,
  ap (count a) (ids-append t.channel (task ∷ [])),
  count-append a (ids t.channel) (task.self_state ∷ []),
  count-append a (ids t.channel) (queued ts),
  count-append a (ids (t.channel ++ task ∷ [])) (queued ts),
)
count-send_to (suc i) task (t ∷ ts) w c a e = omega (
  arith,
  count-send_to i task ts w c a e,
  count-append a (ids t.channel) (queued ts),
  count-append a (ids t.channel) (queued (send_to i task ts w).0),
)

abbrev FateOf : Task → List WorkerThread → World → Option Task × List WorkerThread → World → Type 0
FateOf task ts w (left, us) w' =
    Fate (task.self_state ∷ queued ts) (ids (keep left []) ++ queued us) w w'

offer_to-Fate :
    (c : Option WorkerThread) (i : ℕ) (task : Task) (ts : List WorkerThread) (w : World)
    → get_elem? ts i ≡ c
    → Returns (FateOf task ts w) (offer_to c i task ts w)
unfolding offer_to
offer_to-Fate none i task ts w e = moved _ _ w w refl (λ a. refl)
offer_to-Fate (some c) i task ts w e =
    if-cases (Returns (FateOf task ts w)) (ltb 0 c.free_workers) _ _
      (λ _. moved _ _ w _ (send_to-states i task ts w) (λ a. count-send_to i task ts w c a e))
      (λ _. moved _ _ w w refl (λ a. refl))

self_state-relax : (task : Task) → (relax task).self_state ≡ task.self_state
unfolding relax
self_state-relax task = ground arith

assign-Fate :
    (task : Task) (ts : List WorkerThread) (w : World)
    → Returns (FateOf task ts w) (assign task ts w)
unfolding assign offer
assign-Fate task ts w = elim (Option-cases (target_thread task ts)) [
  | inl e ↦
      rw (e, Returns, assign)
        (moved _ _ w w refl (λ a. ap (λ s. count a (s ∷ queued ts)) (sym (self_state-relax task))))
  | inr (i, e) ↦ rw (e, Returns, assign) (offer_to-Fate (get_elem? ts i) i task ts w refl)
]

-- The task was settled with a state that is over.
passed :
    (task : Task) (s : TaskState) (ts : List WorkerThread) (w : World)
    → is_over s ≡ true
    → FateOf task ts w
        (none, ts)
        (settle task.semaphores task.signal (set_state task.self_state s w))
passed task s ts w over =
    let v = set_state task.self_state s w in
    let d = settle-Settled task.semaphores task.signal v in
    record {
      settled = task.self_state ∷ [];
      counts = λ a. omega arith;
      over = (ap (λ f. is_over (f task.self_state)) d.states ∙ ground arith, tt);
      stays = λ i o. ap (λ f. is_over (f i)) d.states ∙ ground arith;
    }

pass_panic-Fate :
    (task : Task) (ts : List WorkerThread) (w : World)
    → Task.is_panicked task w ≡ true
    → Returns (FateOf task ts w) ((pass_panic task >> pure (none, ts)) w)
pass_panic-Fate task ts w panics =
    rw (pass_panic_lem task w panics) (passed task (TaskState.panicked unit) ts w refl)

pass_cancel-Fate :
    (task : Task) (ts : List WorkerThread) (w : World)
    → Returns (FateOf task ts w) ((pass_cancel task >> pure (none, ts)) w)
unfolding pass_cancel
pass_cancel-Fate task ts w = passed task TaskState.cancelled ts w refl

dispatch-Fate :
    (task : Task) (ts : List WorkerThread) (w : World)
    → Returns (FateOf task ts w) (dispatch task ts w)
unfolding dispatch
dispatch-Fate task ts w =
    if-cases P (Task.can_execute task w) _ _
      (λ _.
        if-cases P (Task.is_panicked task w) _ _ (λ panics. pass_panic-Fate task ts w panics)
          λ _.
            if-cases P (Task.is_cancelled task w) _ _ (λ _. pass_cancel-Fate task ts w)
              (λ _. assign-Fate task ts w))
      (λ _. moved _ _ w w refl (λ a. refl))
  where
    P : Exec (Option Task × List WorkerThread) → Type 0
    P = Returns (FateOf task ts w)

abbrev FateOfAll :
    List Task → List WorkerThread → World → List Task × List WorkerThread → World → Type 0
FateOfAll tasks ts w (left, us) w' = Fate (ids tasks ++ queued ts) (ids left ++ queued us) w w'

both :
    (task : Task) (tasks : List Task) (kept : Option Task) (left : List Task)
    (ts us vs : List WorkerThread) (w w' w'' : World)
    → FateOf task ts w (kept, us) w'
    → FateOfAll tasks us w' (left, vs) w''
    → FateOfAll (task ∷ tasks) ts w (keep kept left, vs) w''
both task tasks kept left ts us vs w w' w'' f g = record {
  settled = f.settled ++ g.settled;
  counts = λ a. sums kept a (f.counts a) (g.counts a);
  over = All-append _ f.settled g.settled (All-mono _ _ f.settled g.stays f.over) g.over;
  stays = λ i o. g.stays i (f.stays i o);
}
  where
    sums :
        (kept : Option Task) (a : ℕ)
        → count a (task.self_state ∷ queued ts)
          ≡ count a f.settled + count a (ids (keep kept []) ++ queued us)
        → count a (ids tasks ++ queued us) ≡ count a g.settled + count a (ids left ++ queued vs)
        → count a (ids (task ∷ tasks) ++ queued ts)
          ≡ count a (f.settled ++ g.settled) + count a (ids (keep kept left) ++ queued vs)
    sums none a p q = omega (
      arith,
      count-append a f.settled g.settled,
      count-append a (ids tasks) (queued ts),
      count-append a (ids tasks) (queued us),
    )
    sums (some t) a p q = omega (
      arith,
      count-append a f.settled g.settled,
      count-append a (ids tasks) (queued ts),
      count-append a (ids tasks) (queued us),
    )

dispatch_all-FateOfAll :
    (tasks : List Task) (ts : List WorkerThread) (w : World)
    → Returns (FateOfAll tasks ts w) (dispatch_all tasks ts w)
unfolding dispatch_all
dispatch_all-FateOfAll [] ts w = moved _ _ w w refl (λ a. refl)
dispatch_all-FateOfAll (task ∷ tasks) ts w =
    Returns-and_then (FateOf task ts w) _ (dispatch task ts w) _ (dispatch-Fate task ts w)
      λ (kept, us) v f.
        Returns-and_then (FateOfAll tasks us v) _ (dispatch_all tasks us v) _
          (dispatch_all-FateOfAll tasks us v)
          λ (left, vs) v' g. both task tasks kept left ts us vs w v v' f g

-- A round of the queue returns. It loses no task and doubles none: each one is still there, or went
-- into the channel of a thread, or has ended as panicked or cancelled.
pub dispatch_all-Fate :
    (tasks : List Task) (ts : List WorkerThread) (w : World)
    → (r : List Task × List WorkerThread) × (w' : World) × (dispatch_all tasks ts w ≡ done r w')
      × Fate (ids tasks ++ queued ts) (ids r.0 ++ queued r.1) w w'
dispatch_all-Fate tasks ts w =
    Returns-done (FateOfAll tasks ts w) (dispatch_all tasks ts w)
      (dispatch_all-FateOfAll tasks ts w)
