-- ===== src/Outstation.antt =====
-- The outstation, outstation/: the buffer of events that wait to be reported, controls, unsolicited
-- reporting.
pub mod EventBuffer
pub mod Command
pub mod Unsolicited
pub mod Solicited
