-- ===== src/Radix.antt =====
-- The radix tree of a stream: app/structures/radix.
pub mod Tree
pub mod Ops
pub mod Finds
pub mod Inserts
pub mod Search
