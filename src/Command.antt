-- ===== src/Command.antt =====
-- The commands and the checks on their arguments: app/com.go, and the reads with which the handlers
-- of app/handlers.go begin.
pub mod Name
pub mod Fields
pub mod Validate
pub mod Reads
pub mod Arguments
pub mod Xread
