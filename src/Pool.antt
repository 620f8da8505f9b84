-- ===== src/Pool.antt =====
-- internal/worker/pool.go: the worker pool, how it runs a job and what it does with the result, its
-- goroutines and the channel between the poll and the workers.
pub mod Backoff
pub mod Delays
pub mod Running
pub mod Setup
pub mod Registered
pub mod Loops
pub mod Custody
pub mod GivingBack
pub mod Recording
pub mod Conservation
pub mod Crew
pub mod Holding
pub mod Shutdown
pub mod Stopping
pub mod Panics
pub mod Returning
pub mod Backend
pub mod DeadLetter
pub mod Failures
