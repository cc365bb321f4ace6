-- ===== src/Chunker.antt =====
-- packages/shared/src/extract/chunker.ts: text is split into leaves, which are packed into chunks.
pub mod Splitting
pub mod Packing
