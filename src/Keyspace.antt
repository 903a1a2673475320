-- ===== src/Keyspace.antt =====
-- The keyspace (app/structure.go) and the handlers on it (app/handlers.go, app/utils.go).
pub mod Store
pub mod Strings
pub mod Lists
pub mod Blocking
pub mod Laws
pub mod Values
pub mod Serving
pub mod Pushing
pub mod Reading
pub mod Waiting
pub mod Waiters
pub mod Streams
pub mod Waking
pub mod Args
pub mod Reads
