-- ===== src/Tests.antt =====
-- Runs of the modelled code on concrete inputs, and the theorems at such inputs.
mod CapacityPlanner
mod RetentionPlanner
mod Fixture
mod Purge
mod Reclaim
mod Runtime
mod States
mod Capacity
mod Schedule
mod Compact
mod Replica
mod LocalBackup
