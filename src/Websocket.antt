-- ===== src/Websocket.antt =====
-- src/websocket: one connection of a client, and what its messages do.
pub mod Origins
pub mod Connection
pub mod Events
pub mod Lifecycle
pub mod Coupling
pub mod Task
pub mod Sessions
