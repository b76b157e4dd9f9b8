-- ===== src/Tests.antt =====
-- The properties at concrete inputs, and runs of the definitions.
mod FilterTests
mod VectorServer
mod VectorTests
mod LocalStoreTests
mod LibraryTests
mod NetguardTests
mod RunTests
mod ScheduleTests
mod NextRunTests
mod ServiceTests
mod TaskTests
mod CronTests
mod LimitTests
