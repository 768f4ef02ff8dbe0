-- ===== src/Scheduling.antt =====
-- The scheduler of koro/scheduler.h and koro/scheduler.cpp, with the locks of koro/fiber.h.
pub mod Task
pub mod Run
pub mod Wakeup
pub mod Stealing
pub mod Waiting
mod Examples
