-- ===== src/Auth.antt =====
-- pkg/auth: who calls, and the tokens that say so.
pub mod Context
pub mod Issuer
pub mod Jwks
