-- ===== src/Proto.antt =====
-- proto.rs: the messages of the protocol, a group to a module. Each group has a child `Wire` with
-- the schemas that its messages are sent by.
pub mod Ids
pub mod Stats
pub mod Headers
pub mod Watches
pub mod NodeData
pub mod Admin
pub mod Create
pub mod Children
pub mod Limits
pub mod Versions
pub mod Acls
pub mod Quorum
pub mod Txns
pub mod Updates
pub mod Connect
