-- ===== src/Schedules.antt =====
-- core/services/schedule_service.py and core/services/backup_schedule_service.py.
pub mod Clock
pub mod Model
pub mod NextRun
pub mod Service
pub mod CronText
