-- ===== src/Buffer.antt =====
-- src/command_buffers/buffer.rs.
pub mod Chain
pub mod Raw
pub mod Command
pub mod Pipeline
pub mod Panics
pub mod Linking
pub mod Calls
pub mod Interleaved
pub mod Recorded
pub mod Record
pub mod Commands
pub mod Bake
pub mod Counter
pub mod Counted
pub mod Copies
