-- ===== src/Multidrop.antt =====
-- The sharing of a half-duplex line, multidrop/.
pub mod Arbiter
