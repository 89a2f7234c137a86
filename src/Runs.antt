-- ===== src/Runs.antt =====
-- The properties at concrete inputs.
pub mod Data
pub mod Frames
pub mod Packets
pub mod Messages
pub mod Responses
