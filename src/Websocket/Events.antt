-- ===== src/Websocket/Events.antt =====
-- src/websocket/events: the handlers of the client's messages. Each takes the state at the start of
-- the message to the state at its end, as if no other task ran in between.
pub mod Payload
pub mod Subscribe
pub mod Unsubscribe
pub mod ClientEvents
pub mod Signin
