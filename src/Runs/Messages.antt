-- ===== src/Runs/Messages.antt =====
-- The messages of proto.rs at concrete values.
pub mod Ids
pub mod Stats
pub mod Headers
pub mod Watches
pub mod NodeData
pub mod Admin
pub mod Create
pub mod Children
pub mod Limits
pub mod Versions
pub mod Acls
pub mod Quorum
pub mod Txns
pub mod Updates
