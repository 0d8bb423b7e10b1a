-- ===== src/Go.antt =====
-- What the services use of the Go language, its standard library and gRPC's status codes.
pub mod Base64
pub mod Dict
pub mod Errors
pub mod Exec
pub mod Sql
pub mod Strings
pub mod Int
pub mod Sort
pub mod Status
pub mod Time
