-- ===== src/Plugin/Artifacts.antt =====
-- Artifacts that a remote unit writes: runArtifactState of benchkit/pluginhost/stdio_client.go, which
-- keeps the writers on the host, and remoteArtifactWriter of sdk/go/wkbench/plugin/server.go, which sends
-- the bytes in chunks.
pub mod Host
pub mod Remote
pub mod Delivery
pub mod Chunks
pub mod Exchange
use wkbench.Base.{ℕ, List, Text}

pub record ArtifactChunk : Type 0 where
  pub handle : Text
  pub sequence : ℕ  -- int64, counted from 1
  pub payload : List ℕ
