-- ===== src/Tests.antt =====
-- The theorems applied to concrete inputs, part by part.
pub mod Upgrade
pub mod Access
pub mod Embedding
pub mod Dlp
pub mod Sessions
pub mod Resources
pub mod Chunker
pub mod Switch
pub mod Worker
pub mod Coordinator
pub mod Releases
pub mod Knowledge
pub mod Logs
pub mod Auth
