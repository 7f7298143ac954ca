-- ===== src/Updater.antt =====
-- src/updater: versions, channels, the update manifest, the planner and the portable updater.
pub mod Version
pub mod Channel
pub mod Manifest
pub mod Policy
pub mod Planner
pub mod PlanFile
pub mod Folder
pub mod Applier
mod Tests
mod RunnerTests
