-- ===== src/Protocol.antt =====
-- src/protocol: the channel kinds, the JSON values and the messages.
pub mod Channels
pub mod Json
pub mod Messages
