-- ===== src/Chat.antt =====
-- services/chat-service/internal: what the room and the message domain share.
pub mod Errors
pub mod UserClient
pub mod Server
mod Tests
