-- ===== src/ThreadPool/Shutdown.antt =====
-- The end of the pool: when `stop` returns, and when it does not.
pub mod Progress
pub mod Rounds
pub mod Ends
pub mod Hangs
