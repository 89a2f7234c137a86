-- ===== src/Codec.antt =====
-- codec.rs: the packets of the two directions, and the codecs that read and write them.
pub mod Request
pub mod Packet
pub mod Server
pub mod Client
pub mod Stream
pub mod Response
pub mod Reply
