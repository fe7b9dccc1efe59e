-- ===== src/Plugin/Artifacts/Chunks.antt =====
-- The chunks that Write sends.
use wkbench.Base.{
  ℕ, zero, suc, ◌+◌, ◌≤◌, Bool, true, false, Option, some, List, [], ◌∷◌, Text, length, drop,
  length-take_le, length-take_positive, ◌≡◌, refl, arith, if◌then◌else◌, Option-cases, inl, inr,
}
use wkbench.Plugin.Artifacts.{ArtifactChunk}
use wkbench.Plugin.Artifacts.Remote.{
  RemoteWriter, next_chunk, artifact_chunk_max_bytes, after_chunk, write_rest, write_remote,
  writer_is_closed,
}

-- The chunks sent to a handle, the last one first: numbered from 1 without a gap, none empty, none
-- longer than the maximum.
pub data AreChunks (handle : Text) : ℕ → List ArtifactChunk → Type 0 where
  no_chunk : AreChunks handle 0 []
  one_more :
      {n : ℕ} {chunk : ArtifactChunk} {sent : List ArtifactChunk}
      → chunk.handle ≡ handle
      → chunk.sequence ≡ suc n
      → 1 ≤ length chunk.payload
      → length chunk.payload ≤ 65_536
      → AreChunks handle n sent
      → AreChunks handle (suc n) (chunk ∷ sent)

module _ {E : Type 0} (fails : ArtifactChunk → Option E) where
  -- Each frame is tried once, and may fail.
  abbrev pub try_frame : ArtifactChunk → List ArtifactChunk → Option E × List ArtifactChunk
  try_frame chunk sent = (fails chunk, chunk ∷ sent)

  rest_chunks :
      (fuel : ℕ) (v : RemoteWriter) (written : ℕ) (p : List ℕ) (sent : List ArtifactChunk)
      → AreChunks v.handle v.sequence sent
      → let r = write_rest try_frame fuel v written p sent in
        AreChunks v.handle r.writer.sequence r.state
  unfolding write_rest after_chunk
  rest_chunks fuel v written [] sent a = a
  rest_chunks zero v written (b ∷ bs) sent a = a
  rest_chunks (suc fuel) v written (b ∷ bs) sent a =
      let chunk = next_chunk v (b ∷ bs) in
      let a' =
        one_more {chunk = chunk} refl refl
          (length-take_positive artifact_chunk_max_bytes b bs (omega arith))
          (length-take_le artifact_chunk_max_bytes (b ∷ bs)) a in
      elim (Option-cases (fails chunk)) [
        | inl fine ↦ rw fine (
            rest_chunks fuel (record v { sequence = suc v.sequence })
              (written + length chunk.payload) (drop artifact_chunk_max_bytes (b ∷ bs))
              (chunk ∷ sent) a')
        | inr (e, failed) ↦ rw failed a'
      ]

  -- Whether or not a frame fails, the chunks that Write sends to a handle are numbered one after
  -- another, none is empty, and none is longer than 65,536 bytes.
  pub write_remote-AreChunks :
      (v : RemoteWriter) (p : List ℕ) (sent : List ArtifactChunk)
      → AreChunks v.handle v.sequence sent
      → let r = write_remote try_frame v p sent in AreChunks v.handle r.writer.sequence r.state
  unfolding write_remote
  write_remote-AreChunks v p sent a = go v.closed
    where
      go :
          (b : Bool)
          → let r =
              (if b
                then record {
                  count = 0;
                  error = some (writer_is_closed v.name);
                  writer = v;
                  state = sent;
                }
                else write_rest try_frame (length p) v 0 p sent) in
            AreChunks v.handle r.writer.sequence r.state
      go true = a
      go false = rest_chunks (length p) v 0 p sent a
