-- ===== src/Queue/Buffers.antt =====
-- `Queue::submit_command_buffer` and `Queue::submit_command_buffers` of src/queue.rs. A baked buffer has
-- no copies, so each buffer of a list comes with its own memory.
use mvsync.Base.{
  ℕ, Bool, true, false, ◌&&◌, Option, none, some, List, [], ◌∷◌, ◌++◌, ◌≡◌, refl, is_some, all,
  if◌then◌else◌,
}
use mathlib.Core.List.{append_assoc, append-nil}
use mvsync.World.{World}
use mvsync.Exec.{Exec, done, unwinds, blocks, out_of_fuel, M, and_then, ◌>>=◌, ◌>>◌, pure}
use mvsync.Signal
use mvsync.Task.{Task}
use mvsync.Run
use mvsync.Buffer.Command
use mvsync.Buffer.Command.{CommandBuffer, Shared}
use mvsync.Queue.{Queue, runs_inline, enqueue, push_all}

unfoldable pub submit_command_buffer : ℕ → ℕ → CommandBuffer → Shared → Queue → M (Queue × Shared)
unfolding Command.tasks Run.run_all enqueue
submit_command_buffer rounds fuel b s q =
    if runs_inline q
    then (Command.tasks b s >>= λ (ts, s'). Run.run_all rounds fuel ts >> pure (q, s'))
    else (Command.tasks b s >>= λ (ts, s'). enqueue ts q >>= λ q'. pure (q', s'))

-- `into_iter().flat_map(|b| b.tasks()).collect()`.
unfoldable pub flat_tasks : List (CommandBuffer × Shared) → M (List Task × List Shared)
unfolding Command.tasks
flat_tasks [] = pure ([], [])
flat_tasks ((b, s) ∷ bs) =
    Command.tasks b s >>= λ (ts, s'). flat_tasks bs >>= λ (us, ss). pure (ts ++ us, s' ∷ ss)

-- The loop over the buffers. The queue keeps what was sent before a panic.
unfoldable pub send_buffers :
    List (CommandBuffer × Shared) → Queue → World → Queue × Exec (List Shared)
unfolding Command.tasks
send_buffers [] q w = (q, done [] w)
send_buffers ((b, s) ∷ bs) q w = elim (Command.tasks b s w) [
  | done (ts, s') w' ↦
      let (q', rest) = send_buffers bs (push_all ts q) w' in
      (q', and_then rest (λ ss. pure (s' ∷ ss)))
  | unwinds p w' ↦ (q, unwinds p w')
  | blocks w' ↦ (q, blocks w')
  | out_of_fuel ↦ (q, out_of_fuel)
]

unfoldable pub submit_command_buffers :
    ℕ → ℕ → List (CommandBuffer × Shared) → Queue → World → Queue × Exec (List Shared)
unfolding flat_tasks send_buffers Run.run_all Signal.wake
submit_command_buffers rounds fuel bs q w =
    if runs_inline q
    then (q, and_then (flat_tasks bs w) (λ (ts, ss). Run.run_all rounds fuel ts >> pure ss))
    else (let (q', sent) = send_buffers bs q w in
        (q', and_then sent (λ ss w'. done ss (Signal.wake q.signal w'))))

-- The tasks of the buffers before the first one that is not baked.
abbrev pub before_unbaked : List (CommandBuffer × Shared) → List Task
before_unbaked [] = []
before_unbaked ((b, s) ∷ bs) = elim b.baked [ none ↦ [] | some ts ↦ ts ++ before_unbaked bs ]

abbrev pub all_baked : List (CommandBuffer × Shared) → Bool
all_baked bs = all (λ (b, s). is_some b.baked) bs

abbrev pub dropped : List (CommandBuffer × Shared) → List Shared
dropped [] = []
dropped ((b, s) ∷ bs) = Command.drop s ∷ dropped bs

send_buffers_lem :
    (bs : List (CommandBuffer × Shared)) (q : Queue) (w : World)
    → send_buffers bs q w ≡ (
      push_all (before_unbaked bs) q,
      if all_baked bs then done (dropped bs) w else unwinds Command.not_baked w,
    )
unfolding send_buffers
send_buffers_lem [] q w = rw (append-nil q.channel) refl
send_buffers_lem ((b, s) ∷ bs) q w = at b.baked (λ ts. send_buffers_lem bs (push_all ts q) w)
  where
    drops :
        (c : Bool)
        → and_then
            (if c then done (dropped bs) w else unwinds Command.not_baked w)
            (λ ss. pure (Command.drop s ∷ ss))
          ≡ (if c then done (Command.drop s ∷ dropped bs) w else unwinds Command.not_baked w)
    drops true = refl
    drops false = refl

    at :
        (o : Option (List Task))
        → ((ts : List Task)
            → send_buffers bs (push_all ts q) w ≡ (
              push_all (before_unbaked bs) (push_all ts q),
              if all_baked bs then done (dropped bs) w else unwinds Command.not_baked w,
            ))
        → send_buffers ((record { baked = o }, s) ∷ bs) q w ≡ (
          push_all (before_unbaked ((record { baked = o }, s) ∷ bs)) q,
          if is_some o && all_baked bs
              then done (Command.drop s ∷ dropped bs) w
              else unwinds Command.not_baked w,
        )
    at none rest = rw (append-nil q.channel) refl
    at (some ts) rest =
        rw (rest ts)
          (rw (append_assoc q.channel ts (before_unbaked bs)) (rw (drops (all_baked bs)) refl))

-- On a queue with threads the tasks go into the channel in the order of the buffers and of their chains,
-- up to the first buffer that is not baked. If there is none, every buffer is released and the queue is
-- woken; otherwise the submission panics, what was sent stays in the channel, and the queue is not woken.
pub submit_command_buffers_lem :
    (rounds fuel : ℕ) (bs : List (CommandBuffer × Shared)) (q : Queue) (w : World)
    → runs_inline q ≡ false
    → submit_command_buffers rounds fuel bs q w ≡ (
      push_all (before_unbaked bs) q,
      if all_baked bs
          then done (dropped bs) (Signal.wake q.signal w)
          else unwinds Command.not_baked w,
    )
unfolding submit_command_buffers
submit_command_buffers_lem rounds fuel bs q w h =
    rw h (rw (send_buffers_lem bs q w) (at (all_baked bs)))
  where
    at :
        (c : Bool)
        → ◌≡◌ {A = Queue × Exec (List Shared)}
            (
              push_all (before_unbaked bs) q,
              and_then
                  (if c then done (dropped bs) w else unwinds Command.not_baked w)
                  (λ ss w'. done ss (Signal.wake q.signal w')),
            )
            (
              push_all (before_unbaked bs) q,
              if c then done (dropped bs) (Signal.wake q.signal w) else unwinds Command.not_baked w,
            )
    at true = refl
    at false = refl
