-- ===== src/Buffer/Commands.antt =====
-- src/command_buffers/commands.rs: the commands that the traits add to a `BufferedCommand`, as the
-- functions that they chain. What is printed is left out, and so is the `Debug` text of an error in a
-- message. A value that is not of the command's type does not come up; here it panics.
pub mod UnwrapOk
pub mod UnwrapErr
pub mod Typed
pub mod Denotation
pub mod Sound
pub mod Inline
use mvsync.Base.{String}
use mvsync.World.{Value, text, unit, none_value, some_value, ok_value, err_value}
use mvsync.Task.Body.{Outcome}
use mvsync.Buffer.Command.{BufferedCommand, Uses, add_sync_command}

abbrev ill_typed : Outcome
ill_typed = Outcome.panics (text "ill typed")

abbrev pub none_message : Value
none_message = text "called `Option::unwrap()` on a `None` value"

-- `End`, `Print` and `Dbg`.
unfoldable pub end : BufferedCommand → Uses BufferedCommand
unfolding add_sync_command
end c = add_sync_command c (λ _. Outcome.returns unit)

unfoldable pub print : BufferedCommand → Uses BufferedCommand
unfolding add_sync_command
print c = add_sync_command c (λ t. Outcome.returns t)

unfoldable pub debug : BufferedCommand → Uses BufferedCommand
unfolding add_sync_command
debug c = add_sync_command c (λ t. Outcome.returns t)

unfoldable pub dbg : BufferedCommand → Uses BufferedCommand
unfolding add_sync_command
dbg c = add_sync_command c (λ t. Outcome.returns t)

-- `Unwrap`.
abbrev pub option_or : Outcome → Value → Outcome
option_or default (some_value t) = Outcome.returns t
option_or default none_value = default
option_or default _ = ill_typed

unfoldable pub unwrap : BufferedCommand → Uses BufferedCommand
unfolding add_sync_command
unwrap c = add_sync_command c (option_or (Outcome.panics none_message))

unfoldable pub unwrap_or : Value → BufferedCommand → Uses BufferedCommand
unfolding add_sync_command
unwrap_or default c = add_sync_command c (option_or (Outcome.returns default))

unfoldable pub unwrap_or_else : Outcome → BufferedCommand → Uses BufferedCommand
unfolding add_sync_command
unwrap_or_else default c = add_sync_command c (option_or default)

unfoldable pub expect : String → BufferedCommand → Uses BufferedCommand
unfolding add_sync_command
expect msg c = add_sync_command c (option_or (Outcome.panics (text msg)))

-- What `UnwrapOk` and `UnwrapErr` do with a `Result`.
abbrev pub result_or : (Value → Outcome) → (Value → Outcome) → Value → Outcome
result_or on_ok on_err (ok_value t) = on_ok t
result_or on_ok on_err (err_value e) = on_err e
result_or on_ok on_err _ = ill_typed
