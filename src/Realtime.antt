-- ===== src/Realtime.antt =====
-- services/realtime-service: web sockets, and the way of a message from one to the others.
pub mod Hub
pub mod Pubsub
pub mod ChatClient
pub mod Protocol
pub mod Handler
pub mod System
mod Tests
