-- ===== src/Buffer/Commands/UnwrapOk.antt =====
-- `UnwrapOk` of src/command_buffers/commands.rs.
use mvsync.Base.{String}
use mvsync.World.{Value, text}
use mvsync.Task.Body.{Outcome}
use mvsync.Buffer.Command.{BufferedCommand, Uses, add_sync_command}
use mvsync.Buffer.Commands.{result_or}

unfoldable pub unwrap : BufferedCommand → Uses BufferedCommand
unfolding add_sync_command
unwrap c = add_sync_command c (
    result_or Outcome.returns
      (λ _. Outcome.panics (text "called `Result::unwrap()` on an `Err` value")))

unfoldable pub unwrap_or : Value → BufferedCommand → Uses BufferedCommand
unfolding add_sync_command
unwrap_or default c = add_sync_command c (result_or Outcome.returns (λ _. Outcome.returns default))

unfoldable pub unwrap_or_else : (Value → Outcome) → BufferedCommand → Uses BufferedCommand
unfolding add_sync_command
unwrap_or_else default c = add_sync_command c (result_or Outcome.returns default)

unfoldable pub expect : String → BufferedCommand → Uses BufferedCommand
unfolding add_sync_command
expect msg c = add_sync_command c (result_or Outcome.returns (λ _. Outcome.panics (text msg)))
