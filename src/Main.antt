-- ===== src/Main.antt =====
-- The dispatch of commands and the loops of the connections: app/com.go and app/main.go.
pub mod Dispatch
pub mod Loop
pub mod Conns
pub mod Setting
pub mod Locking
pub mod Effects
pub mod Feeding
pub mod Joining
pub mod Starting
pub mod Ending
pub mod Requests
mod Turns
mod Quiet
pub mod Sessions
