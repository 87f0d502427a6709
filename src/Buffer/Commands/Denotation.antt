-- ===== src/Buffer/Commands/Denotation.antt =====
-- What the methods of `Option` and `Result` that src/command_buffers/commands.rs chains compute, on the values of
-- their types.
use mvsync.Base.{none, some}
use mvsync.World.{text}
use mvsync.Buffer.Commands.Typed.{Shape, Meaning, Result, Answer, TypedCommand, TypedChain}

abbrev pub meaning : {a b : Shape} → TypedCommand a b → Meaning a → Answer (Meaning b)
meaning (TypedCommand.function f) x = f x
meaning TypedCommand.end x = Answer.gives tt
meaning TypedCommand.print x = Answer.gives x
meaning TypedCommand.debug x = Answer.gives x
meaning TypedCommand.dbg x = Answer.gives x
meaning TypedCommand.unwrap none = Answer.fails (text "called `Option::unwrap()` on a `None` value")
meaning TypedCommand.unwrap (some x) = Answer.gives x
meaning (TypedCommand.unwrap_or d) none = Answer.gives d
meaning (TypedCommand.unwrap_or d) (some x) = Answer.gives x
meaning (TypedCommand.unwrap_or_else d) none = d
meaning (TypedCommand.unwrap_or_else d) (some x) = Answer.gives x
meaning (TypedCommand.expect msg) none = Answer.fails (text msg)
meaning (TypedCommand.expect msg) (some x) = Answer.gives x
meaning TypedCommand.unwrap_ok (Result.ok x) = Answer.gives x
meaning TypedCommand.unwrap_ok (Result.err e) =
    Answer.fails (text "called `Result::unwrap()` on an `Err` value")
meaning (TypedCommand.unwrap_ok_or d) (Result.ok x) = Answer.gives x
meaning (TypedCommand.unwrap_ok_or d) (Result.err e) = Answer.gives d
meaning (TypedCommand.unwrap_ok_or_else d) (Result.ok x) = Answer.gives x
meaning (TypedCommand.unwrap_ok_or_else d) (Result.err e) = d e
meaning (TypedCommand.expect_ok msg) (Result.ok x) = Answer.gives x
meaning (TypedCommand.expect_ok msg) (Result.err e) = Answer.fails (text msg)
meaning TypedCommand.unwrap_err (Result.ok x) =
    Answer.fails (text "called `Result::unwrap_err()` on an `Ok` value")
meaning TypedCommand.unwrap_err (Result.err e) = Answer.gives e
meaning (TypedCommand.expect_err msg) (Result.ok x) = Answer.fails (text msg)
meaning (TypedCommand.expect_err msg) (Result.err e) = Answer.gives e

-- One command after the other, as long as none panics.
abbrev pub and_answer : {A B : Type 0} → Answer A → (A → Answer B) → Answer B
and_answer (Answer.gives x) k = k x
and_answer (Answer.fails p) k = Answer.fails p

abbrev pub meaning_all : {a b : Shape} → TypedChain a b → Meaning a → Answer (Meaning b)
meaning_all TypedChain.stop x = Answer.gives x
meaning_all (TypedChain.next m ms) x = and_answer (meaning m x) (meaning_all ms)
