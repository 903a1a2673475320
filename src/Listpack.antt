-- ===== src/Listpack.antt =====
-- The listpack: entries packed into one byte slice (app/structures/listpack).
pub mod Entry
pub mod Pack
pub mod Codec
pub mod Contents
pub mod Stored
pub mod Ends
