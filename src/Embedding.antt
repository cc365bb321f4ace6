-- ===== src/Embedding.antt =====
-- packages/shared/src/embeddings: batching, retries and the classification of failures (batch.ts),
-- and the registry of models (registry.ts).
pub mod Batch
pub mod Retry
pub mod Registry
