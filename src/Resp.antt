-- ===== src/Resp.antt =====
-- The wire protocol: app/resp/resp.go.
pub mod Wire
pub mod Decode
pub mod RoundTrip
