-- ===== src/Worker/Turns.antt =====
-- What the turns of a thread come to: "within so many turns" for the loop of `WorkerThread::run` in
-- src/queue.rs.
use mvsync.Base.{ℕ, zero, suc, ◌≤◌, Bool, ◌≡◌, ◌⊎◌, inl, inr, arith}
use mvsync.World.{World}
use mvsync.Exec.{◌>>=◌, Returns, Returns-and_then, Returns-mono}
use mvsync.Worker
use mvsync.Worker.{WorkerThread, receive, poll_all, park, turn}

-- The pass over the futures in this turn leaves a world with `P`.
abbrev pub Passes : (World → Type 0) → Worker.Turn → World → Type 0
Passes P (Worker.continues t) w = Returns (λ _ v. P v) (poll_all t w)
Passes P _ w = ⊥

abbrev pub Goes : (WorkerThread → World → Type 0) → Worker.Turn → World → Type 0
Goes P (Worker.continues t) w = P t w
Goes P _ w = ⊥

-- A pass over the futures leaves a world with `P` after at most `k` whole turns, each of which goes on.
abbrev pub Within : (World → Type 0) → ℕ → Bool → WorkerThread → World → Type 0
Within P zero e t w = Passes P (receive e t) w
Within P (suc k) e t w =
    Passes P (receive e t) w ⊎ Returns (Goes (λ t' w'. Within P k e t' w')) (turn e t w)

Goes-mono :
    (P Q : WorkerThread → World → Type 0)
    → ((t : WorkerThread) (w : World) → P t w → Q t w)
    → (r : Worker.Turn) (w : World) → Goes P r w
    → Goes Q r w
Goes-mono P Q f (Worker.continues t) w h = f t w h
Goes-mono P Q f (Worker.ends t) w h = absurd h
Goes-mono P Q f (Worker.parked t) w h = absurd h

pub Within-le :
    (P : World → Type 0) (k m : ℕ) (e : Bool) (t : WorkerThread) (w : World)
    → k ≤ m
    → Within P k e t w
    → Within P m e t w
Within-le P zero zero e t w le h = h
Within-le P zero (suc m) e t w le h = inl h
Within-le P (suc k) zero e t w le h = absurd (omega arith)
Within-le P (suc k) (suc m) e t w le (inl h) = inl h
Within-le P (suc k) (suc m) e t w le (inr h) = inr (
    Returns-mono (Goes (Within P k e)) (Goes (Within P m e)) (turn e t w)
      (Goes-mono (Within P k e) (Within P m e) (λ t' v. Within-le P k m e t' v (omega arith))) h)

-- A turn is what was received, a pass, and a wait.
pub turn-Goes :
    (P : WorkerThread → World → Type 0) (e : Bool) (t u : WorkerThread) (w : World)
    → receive e t ≡ Worker.continues u
    → Returns P ((poll_all u >>= park) w)
    → Returns (Goes P) (turn e t w)
unfolding turn
turn-Goes P e t u w r h =
    rw (r, Returns) (Returns-and_then P (Goes P) ((poll_all u >>= park) w) _ h (λ _ _ p. p))
