-- ===== src/Txns.antt =====
-- Transactions: app/txns.go, and multi, exec, discard, watch and unwatch of app/handlers.go.
pub mod Ops
pub mod Watching
pub mod Abort
pub mod Enlisted
pub mod Touched
