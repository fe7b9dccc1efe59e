-- ===== src/Plugin/Artifacts/Remote.antt =====
-- remoteArtifactWriter of sdk/go/wkbench/plugin/server.go. `write_frame` is remoteRunEnv's writeFrame with
-- an ArtifactChunk, which changes S. The loop runs on fuel, and the number of the bytes is enough.
use wkbench.Base.{
  ℕ, zero, suc, ◌+◌, Bool, Option, none, some, List, [], ◌∷◌, Text, length, take, drop,
  if◌then◌else◌,
}
use wkbench.Plugin.Artifacts.{ArtifactChunk}

pub record RemoteWriter : Type 0 where
  pub name : Text
  pub handle : Text
  pub sequence : ℕ
  pub closed : Bool

pub data WriteError (E : Type 0) : Type 0 where
  writer_is_closed : Text → WriteError E
  chunk_not_written : E → WriteError E

-- What Write returns, and what is after it.
pub record Written (E S : Type 0) : Type 0 where
  pub count : ℕ
  pub error : Option (WriteError E)
  pub writer : RemoteWriter
  pub state : S

-- artifactChunkMaxBytes, 64 << 10
abbrev pub artifact_chunk_max_bytes : ℕ
artifact_chunk_max_bytes = 65_536

abbrev pub next_chunk : RemoteWriter → List ℕ → ArtifactChunk
next_chunk w rest = record {
  handle = w.handle;
  sequence = suc w.sequence;
  payload = take artifact_chunk_max_bytes rest;
}

module _ {E S : Type 0} (write_frame : ArtifactChunk → S → Option E × S) where
  unfoldable pub after_chunk : RemoteWriter → ℕ → Option E → S → Written E S → Written E S
  after_chunk w written (some e) s rest = record {
    count = written;
    error = some (chunk_not_written e);
    writer = w;
    state = s;
  }
  after_chunk w written none s rest = rest

  -- The loop of Write, from `written` on
  unfoldable pub write_rest : ℕ → RemoteWriter → ℕ → List ℕ → S → Written E S
  unfolding after_chunk
  write_rest fuel w written [] s = record { count = written; error = none; writer = w; state = s }
  write_rest zero w written (b ∷ bs) s = record {
    count = written;
    error = none;
    writer = w;
    state = s;
  }
  write_rest (suc fuel) w written (b ∷ bs) s =
      let chunk = next_chunk w (b ∷ bs) in
      let w' = record w { sequence = suc w.sequence } in
      let r = write_frame chunk s in
      let rest =
        write_rest fuel w' (written + length chunk.payload) (drop artifact_chunk_max_bytes (b ∷ bs))
          r.1 in
      after_chunk w' written r.0 r.1 rest

  -- Write
  unfoldable pub write_remote : RemoteWriter → List ℕ → S → Written E S
  unfolding write_rest
  write_remote w p s =
      if w.closed
      then record { count = 0; error = some (writer_is_closed w.name); writer = w; state = s }
      else write_rest (length p) w 0 p s
