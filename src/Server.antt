-- ===== src/Server.antt =====
-- The server's role and its replication: app/server, app/repl_handlers.go and app/RDB.
pub mod Config
pub mod Repl
pub mod Rdb
pub mod Handshake
pub mod Replies
