-- ===== src/Runs.antt =====
-- The life of a run: core/models/run.py, core/executor.py and core/services/task_service.py.
pub mod Model
pub mod Isolation
pub mod Executor
pub mod Control
pub mod Reconcile
