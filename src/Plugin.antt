-- ===== src/Plugin.antt =====
-- The two sides of the plugin protocol: benchkit/pluginhost, the host's, and sdk/go/wkbench/plugin, the
-- plugin's.
pub mod Messages
pub mod Manifest
pub mod Inputs
pub mod Tasks
pub mod Artifacts
pub mod Outputs
pub mod Metrics
pub mod Server
pub mod Client
pub mod Catalog
pub mod Lifecycle
pub mod Requests
