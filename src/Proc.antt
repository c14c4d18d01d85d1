-- ===== src/Proc.antt =====
-- kernel/proc.c: the process table, the scheduler and the process life cycle.
pub mod Types
pub mod Sched
pub mod Sleep
pub mod Life
pub mod Exit
mod Tests
