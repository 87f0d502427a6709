-- ===== src/Queue/Effects.antt =====
-- Which tasks the steps of the queue and its threads submit and stop.
use mvsync.Base.{ℕ, List, [], ◌++◌}
use mvsync.World.{World}
use mvsync.Task.Ids.{ids}
use mvsync.Worker.{WorkerThread}
use mvsync.Worker.Stops
use mvsync.Queue.System.{System, WorkerStep, Step, Reach}

-- The tasks that a step of a thread stops.
abbrev pub StopsIn : {t u : WorkerThread} {v w : World} → WorkerStep t u v w → ℕ → Type 0
StopsIn (WorkerStep.receives _) i = ⊥
StopsIn {t} {v = v} (WorkerStep.polls _) i = Stops.StopsIn t.signal t.futures v i
StopsIn (WorkerStep.ends _ _ _) i = ⊥

-- The tasks that a step submits.
abbrev pub submitted_by : {a b : System} → Step a b → List ℕ
submitted_by (Step.user q) = []
submitted_by (Step.submits ts live q) = ids ts
submitted_by (Step.drops q) = []
submitted_by (Step.closes q r e) = []
submitted_by (Step.takes r) = []
submitted_by (Step.hands_out r) = []
submitted_by (Step.works i t u at s q) = []

-- The tasks that a step stops: their polls in it came to an end, or left them cancelled.
abbrev pub StopsBy : {a b : System} → Step a b → ℕ → Type 0
StopsBy (Step.user q) i = ⊥
StopsBy (Step.submits ts live q) i = ⊥
StopsBy (Step.drops q) i = ⊥
StopsBy (Step.closes q r e) i = ⊥
StopsBy (Step.takes r) i = ⊥
StopsBy (Step.hands_out r) i = ⊥
StopsBy (Step.works j t u at s q) i = StopsIn s i

abbrev pub submitted_in : {a b : System} → Reach a b → List ℕ
submitted_in Reach.here = []
submitted_in (Reach.next r s) = submitted_in r ++ submitted_by s
