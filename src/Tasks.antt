-- ===== src/Tasks.antt =====
-- The task functions of core/tasks.py that the workers call.
pub mod Packages
pub mod Scheduled
