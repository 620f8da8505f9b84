-- ===== src/Limits.antt =====
-- internal/features/ratelimit.go: the limits on the rate of a queue's jobs.
pub mod Window
pub mod Admission
pub mod Bucket
pub mod Capacity
