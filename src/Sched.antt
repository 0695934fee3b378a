-- ===== src/Sched.antt =====
-- generic/: threads, transients and the scheduler.
pub mod ThreadQueue
pub mod Thread
pub mod Handlers
pub mod TaskStack
pub mod Transients
pub mod Scheduler
