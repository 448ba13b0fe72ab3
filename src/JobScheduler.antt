-- ===== src/JobScheduler.antt =====
-- features/job-scheduler: the distributed job lock.
pub mod Options
pub mod Table
pub mod Service
pub mod Timing
pub mod Rows
pub mod Locking
pub mod Fencing
pub mod Owned
pub mod Exclusive
mod Tests
