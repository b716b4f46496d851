-- ===== src/Twin.antt =====
-- The digital twin's own logic (frontend/src/features), which its components call.
pub mod Observations
pub mod Events
pub mod RunEvents
pub mod Labels
pub mod Health
pub mod Telemetry
pub mod Store
pub mod AgentClient
