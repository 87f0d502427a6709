-- ===== src/Tests.antt =====
-- Test data, tests of the definitions on concrete inputs, and the theorems at concrete inputs.
mod Data
mod Fences
mod Stalled
mod Chained
mod Signals
mod Queues
mod Runs
mod Buffers
mod Mains
mod Timers
mod Threads
mod Awake
mod Asleep
mod Shutdown
