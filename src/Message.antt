-- ===== src/Message.antt =====
-- services/chat-service/internal/message: the messages of the rooms, with pages behind cursors.
pub mod Types
pub mod Cursor
pub mod Repository
pub mod Inmem
pub mod Postgres
pub mod Service
pub mod Grpc
pub mod Order
pub mod Tests
