-- ===== src/Room.antt =====
-- services/chat-service/internal/room: public rooms and their members.
pub mod Types
pub mod Repository
pub mod Inmem
pub mod Postgres
pub mod Service
pub mod Grpc
pub mod Tests
