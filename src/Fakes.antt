-- ===== src/Fakes.antt =====
-- internal/fakes and cmd/maskinporten_fakes: the fake APIs that tests and local clusters use.
pub mod Db
pub mod State
pub mod Handlers
