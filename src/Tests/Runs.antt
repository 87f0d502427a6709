-- ===== src/Tests/Runs.antt =====
-- The theorems on queues without threads at concrete inputs.
use mvsync.Base.{◌≢◌}
use mvsync.Exec.{done}
use mvsync.Run.{run_all}
use mvsync.Run.Rounds.{run_all-ne-done}
use mvsync.Tests.Data.{world, tasks}

run_all-ne-done_example : run_all 100 5 tasks world ≢ done tt world
run_all-ne-done_example = run_all-ne-done 100 5 tasks world world
