-- ===== src/Maskinporten.antt =====
-- internal/maskinporten: the contract of the self-service API, the secret that an app reads, and
-- the state of a client with the commands that bring it up to date.
pub mod Dto
pub mod Secret
pub mod ClientState
pub mod Http
pub mod DemoState
pub mod Examples
pub mod SecretExamples
pub mod Demo
