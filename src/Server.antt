-- ===== src/Server.antt =====
-- internal/server: the key-value state machine.
pub mod StateMachine
pub mod Codec
pub mod Service
pub mod Transport
pub mod Examples
