-- ===== src/Adapter.antt =====
-- src/adapter: the sockets, channels and members of each app.
pub mod Namespace
pub mod Local
pub mod Effects
pub mod Redis
