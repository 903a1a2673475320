-- ===== src/Tests.antt =====
-- Tests: small lists, packs and commands, and the theorems applied to them.
mod Samples
mod Large
mod Lists
mod Packs
mod Commands
mod Transactions
mod Keyspace
mod Streams
mod Servers
