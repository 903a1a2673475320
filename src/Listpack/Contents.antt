-- ===== src/Listpack/Contents.antt =====
-- The items that a listpack holds, as a relation between a list of items and the bytes.
pub mod Sizes
pub mod Read
pub mod Push
pub mod Pop
