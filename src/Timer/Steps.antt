-- ===== src/Timer/Steps.antt =====
-- The timer thread, the futures that sleep, and the clock as a step relation.
use mvsync.Base.{ℕ, ◌≤◌, ◌≡◌}
use mvsync.World.{World, Waker}
use mvsync.Exec.{done}
use mvsync.Timer.{Timer, Sleep, poll, advance}

pub record Moment : Type 0 where
  pub timer : Timer
  pub now : ℕ

pub data Step (a b : Moment) : Type 0 where
  passes : a.now ≤ b.now → b.timer ≡ a.timer → Step a b
  polls : (k : Waker) (s : Sleep) → b.now ≡ a.now → b.timer ≡ (poll a.now k s a.timer).1 → Step a b
  advances : (v w : World) → b.now ≡ a.now → advance a.now a.timer v ≡ done b.timer w → Step a b

pub data Reach (a : Moment) : Moment → Type 0 where
  here : Reach a a
  next : {b c : Moment} → Reach a b → Step b c → Reach a c
