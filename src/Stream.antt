-- ===== src/Stream.antt =====
-- Streams: app/structures/stream.
pub mod Types
pub mod Ids
pub mod Order
pub mod Wrapping
pub mod Pack
pub mod Entries
pub mod Reading
pub mod Ranges
pub mod Making
pub mod Ops
pub mod Adding
pub mod Hanging
