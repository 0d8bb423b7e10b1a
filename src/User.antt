-- ===== src/User.antt =====
-- services/user-service/internal/user: accounts, passwords and refresh tokens.
pub mod Types
pub mod Repository
pub mod Inmem
pub mod Postgres
pub mod Service
pub mod Grpc
mod Tests
