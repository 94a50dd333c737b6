-- ===== src/Crypto.antt =====
-- internal/crypto: the key sets of the clients (jwks.go) and the service that creates and
-- rotates them (crypto.go).
pub mod Types
pub mod Jwks
pub mod Algorithms
pub mod Service
pub mod ActiveKey
pub mod Rotation
pub mod Jwt
pub mod Demo
mod Examples
