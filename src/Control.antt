-- ===== src/Control.antt =====
-- The server side of the control application (apps/harness-control/src/server and app/api).
pub mod Contracts
pub mod Auth
pub mod Runtime
pub mod Stream
pub mod Routes
