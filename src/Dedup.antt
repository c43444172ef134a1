-- ===== src/Dedup.antt =====
-- The deduplication sets of internal/ttldedup.go and internal/bloom.go, and the stages of
-- aggregate.go that use such a set or one of their own.
pub mod Ttl
pub mod Bloom
pub mod Stages
