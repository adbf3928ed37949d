-- ===== src/Master.antt =====
-- The master, master/: its tasks, the order in which they run, and the session with an outstation. Secure
-- authentication is off.
pub mod Task
pub mod Scheduler
pub mod Session
pub mod Samples
mod Tests
