-- ===== src/Buffer/Commands/UnwrapErr.antt =====
-- `UnwrapErr` of src/command_buffers/commands.rs.
use mvsync.Base.{String}
use mvsync.World.{text}
use mvsync.Task.Body.{Outcome}
use mvsync.Buffer.Command.{BufferedCommand, Uses, add_sync_command}
use mvsync.Buffer.Commands.{result_or}

unfoldable pub unwrap_err : BufferedCommand → Uses BufferedCommand
unfolding add_sync_command
unwrap_err c = add_sync_command c (
    result_or (λ _. Outcome.panics (text "called `Result::unwrap_err()` on an `Ok` value"))
      Outcome.returns)

unfoldable pub expect_err : String → BufferedCommand → Uses BufferedCommand
unfolding add_sync_command
expect_err msg c = add_sync_command c (result_or (λ _. Outcome.panics (text msg)) Outcome.returns)
