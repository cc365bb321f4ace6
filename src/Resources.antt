-- ===== src/Resources.antt =====
-- apps/onboard/shared/resource-policy.ts: whether a host can take an installation, and which
-- embedding model to recommend for it.
pub mod Models
pub mod Evaluation
pub mod Recommendation
