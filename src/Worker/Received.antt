-- ===== src/Worker/Received.antt =====
-- The head of a turn of `WorkerThread::run` in src/queue.rs on a thread of a queue: what it leaves as it is,
-- and when the loop ends.
use mvsync.Base.{
  ◌<◌, Bool, true, false, ◌&&◌, ◌||◌, List, [], ◌∷◌, ◌≡◌, refl, ◌⊎◌, inl, inr, ltb, is_empty,
  if-cases, arith,
}
use mvsync.Task.{Task}
use mvsync.Worker
use mvsync.Worker.{WorkerThread}

pub is_empty-eq {ℓ} : {A : Type ℓ} (xs : List A) → is_empty xs ≡ true → xs ≡ []
is_empty-eq [] e = refl
is_empty-eq (x ∷ xs) e = cc

-- The thread goes on with its flags; it ends with no futures, once it was told to, or once its channel is
-- empty and disconnected.
abbrev pub Received : WorkerThread → Worker.Turn → Type 0
Received t (Worker.continues u) = (u.connected ≡ t.connected) × (u.end ≡ t.end)
Received t (Worker.ends u) =
    (u ≡ t) × (t.futures ≡ []) × ((0 < t.end) ⊎ ((t.channel ≡ []) × (t.connected ≡ false)))
Received t (Worker.parked u) = Unit {0}

pub receive-Received : (t : WorkerThread) → Received t (Worker.receive false t)
unfolding Worker.receive Worker.receive_first Worker.receive_none Worker.receive_all
receive-Received t =
    if-cases (Received t) (is_empty t.futures) _ _
      (λ idle.
        if-cases (Received t) (ltb 0 t.end || (false && is_empty t.channel)) _ _
          (λ told. (refl, is_empty-eq t.futures idle, inl (ground arith)))
          (λ _. first t.channel refl (is_empty-eq t.futures idle)))
      (λ _. (refl, refl))
  where
    first :
        (ts : List Task)
        → t.channel ≡ ts
        → t.futures ≡ []
        → Received t (elim ts [
          | [] ↦ Worker.receive_none t
          | task ∷ rest ↦
              Worker.continues (record t { channel = rest; futures = Worker.start task ∷ [] })
        ])
    first [] empty none =
        if-cases (Received t) t.connected _ _ (λ _. tt) (λ gone. (refl, none, inr (empty, gone)))
    first (task ∷ rest) empty none = (refl, refl)

-- A thread with nothing left and no sender ends, also once it has ended.
pub receive-drained :
    (t : WorkerThread)
    → t.futures ≡ []
    → t.channel ≡ []
    → t.connected ≡ false
    → Worker.receive false t ≡ Worker.ends t
unfolding Worker.receive Worker.receive_first Worker.receive_none
receive-drained t idle empty gone = rw idle (rw empty (rw gone (ground arith)))

-- A thread with no futures that nobody has ended takes the first task of its channel.
pub receive_one :
    (e : Bool) (t : WorkerThread) (task : Task) (rest : List Task)
    → t.futures ≡ []
    → t.end ≡ 0
    → t.channel ≡ task ∷ rest
    → Worker.receive e t
      ≡ Worker.continues (record t { channel = rest; futures = Worker.start task ∷ [] })
unfolding Worker.receive Worker.receive_first
receive_one e t task rest none live at = rw none (rw live (rw at (ground arith)))
