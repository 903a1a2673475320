-- ===== src/Quicklist.antt =====
-- The quicklist behind the list commands: app/structures/list.
pub mod Ops
pub mod Models
pub mod Placing
pub mod Rpush
pub mod Lpush
pub mod Lrange
pub mod Lpop
pub mod Panics
pub mod RoundTrip
