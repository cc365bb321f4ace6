-- ===== src/Upgrade.antt =====
-- layers/update-ops/release-versioning/upgrade-contract.ts: the versions, ranges and contracts by
-- which the update coordinator plans a path from an installed release to a published one.
pub mod Version
pub mod Range
pub mod Contract
pub mod Plan
pub mod Lines
