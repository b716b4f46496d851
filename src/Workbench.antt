-- ===== src/Workbench.antt =====
-- The agent workbench of the control application (apps/harness-control/src/agent-workbench).
pub mod Contracts
pub mod Reducer
pub mod Buffer
pub mod Sse
pub mod Client
pub mod Markdown
pub mod Store
pub mod Gateway
pub mod Request
pub mod Session
