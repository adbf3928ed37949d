-- ===== src/Link.antt =====
-- The data link layer, internal/link.
pub mod Crc
pub mod Address
pub mod Frame
pub mod Parser
pub mod Secondary
pub mod Primary
pub mod Exchange
