-- ===== src/Transport.antt =====
-- The transport function, internal/transport/transport.go: fragments cut into segments of at most
-- 250 octets and put together again.
pub mod Header
pub mod Segmenter
pub mod Reassembler
