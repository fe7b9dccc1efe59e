-- ===== src/Kernel.antt =====
-- benchkit/kernel/kernel.go: the graph of units (Refs, Topo, Graph).
pub mod Refs
pub mod Topo
pub mod Graph
pub mod Outputs
pub mod Host
pub mod Run
pub mod Steps
pub mod Engine
pub mod Lifecycle
pub mod Checks
pub mod Env
pub mod Planning
