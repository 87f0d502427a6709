-- ===== src/Run/Rounds.antt =====
-- The rounds of `run_all`.
use mvsync.Base.{ℕ, zero, suc, Bool, true, false, List, ◌≢◌}
use mvsync.World.{World}
use mvsync.Exec.{Exec, done, unwinds, blocks, out_of_fuel, and_then, M}
use mvsync.Task.{Task}
use mvsync.Run.{run_pass, run_all, next_round}

abbrev IsNeverDone : (List Task → M (Unit {0})) → Type 0
IsNeverDone loop = (tasks : List Task) (w w' : World) → loop tasks w ≢ done tt w'

next_round-ne-done :
    (loop : List Task → M (Unit {0}))
    → IsNeverDone loop
    → (r : Exec (List Task × Bool)) (w' : World) → and_then r (next_round loop) ≢ done tt w'
unfolding next_round
next_round-ne-done loop never (done (left, true) v) w' e = never left v w' e
next_round-ne-done loop never (done (left, false) v) w' e = never left v w' e
next_round-ne-done loop never (unwinds p v) w' e = cc
next_round-ne-done loop never (blocks v) w' e = cc
next_round-ne-done loop never out_of_fuel w' e = cc

-- `run_all` never returns, whatever the tasks and however many rounds it is given.
pub run_all-ne-done :
    (rounds fuel : ℕ) (tasks : List Task) (w w' : World) → run_all rounds fuel tasks w ≢ done tt w'
unfolding run_all
run_all-ne-done zero fuel tasks w w' e = cc
run_all-ne-done (suc rounds) fuel tasks w w' e =
    next_round-ne-done (run_all rounds fuel) (run_all-ne-done rounds fuel) (run_pass fuel tasks w)
      w' e
