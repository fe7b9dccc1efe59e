-- ===== src/Tests.antt =====
-- Runs of the models on small inputs.
pub mod Graphs
pub mod Traffic
pub mod Environment
pub mod Plugins
pub mod Sessions
