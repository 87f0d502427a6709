-- ===== src/MvSync/Specs.antt =====
-- `MVSyncSpecs` of src/lib.rs. The number of processors, a `usize` from `num_cpus::get()`, is an argument.
use mvsync.Base.{ℕ, ◌+◌, ◌-◌, ◌%◌, ◌^◌, ◌≤◌, ◌<◌, ◌≡◌, ◌⊎◌, inl, inr, ltb, Bool-cases, arith}
use mvsync.Queue.{MvSyncSpecs}

-- `threads as u32 - 2` wraps where overflow checks are off.
unfoldable pub max_performance : ℕ → ℕ → MvSyncSpecs
max_performance threads workers_per_thread = record {
  thread_count = (threads % 2 ^ 32 + 2 ^ 32 - 2) % 2 ^ 32;
  workers_per_thread = workers_per_thread;
}

unfoldable pub all_cores : ℕ → ℕ → MvSyncSpecs
all_cores threads workers_per_thread = record {
  thread_count = threads % 2 ^ 32;
  workers_per_thread = workers_per_thread;
}

abbrev pub default : MvSyncSpecs
default = record { thread_count = 1; workers_per_thread = 1 }

-- With fewer than `2 ^ 32` processors, `max_performance` asks for two threads less than `all_cores`, unless
-- there are fewer than two processors: then it asks for at least `2 ^ 32 - 2` threads.
max_performance-all_cores :
    (threads workers : ℕ)
    → threads < 2 ^ 32
    → ((max_performance threads workers).thread_count + 2
        ≡ (all_cores threads workers).thread_count)
      ⊎ ((threads < 2) × (2 ^ 32 ≤ (max_performance threads workers).thread_count + 2))
unfolding max_performance all_cores
max_performance-all_cores threads workers small = elim (Bool-cases (ltb threads 2)) [
  | inl few ↦ inr (ground arith, ground arith)
  | inr many ↦ inl (ground arith)
]
