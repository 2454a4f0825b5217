-- ===== src/Heartbeat.antt =====
-- The heartbeat protocol: node/p2p-network/src/behaviour/heartbeat_behaviour.
pub mod Attestation
pub mod Config
pub mod Frame
pub mod Handler
pub mod Behaviour
