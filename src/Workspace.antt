-- ===== src/Workspace.antt =====
-- The workspace of the harness control application (apps/harness-control/src/workspace, auth and
-- audit): how it logs in and reads the station's API, and what it makes of the answers.
pub mod Access
pub mod Audit
pub mod Mappers
pub mod Views
