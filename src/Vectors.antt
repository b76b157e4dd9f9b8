-- ===== src/Vectors.antt =====
-- The vector stores of core/vectors.
pub mod Points
pub mod Slices
pub mod QdrantStore
pub mod LocalStore
