-- ===== src/Filters.antt =====
-- core/vectors/filters.py, the payload-filter grammar that every vector backend shares.
pub mod Json
pub mod Grammar
pub mod Evaluate
pub mod Qdrant
