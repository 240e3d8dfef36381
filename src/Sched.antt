-- ===== src/Sched.antt =====
-- kernel/src/sched: the tasks known to the scheduler.
pub mod TaskPool
pub mod Waker
pub mod Scheduler
