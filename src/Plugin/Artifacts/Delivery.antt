-- ===== src/Plugin/Artifacts/Delivery.antt =====
-- What the plugin writes to an artifact is what the host's writer receives.
use wkbench.Base.{
  ℕ, zero, suc, ◌+◌, ◌≤◌, false, Option, none, some, List, [], ◌∷◌, ◌++◌, append_assoc, append-nil,
  Text, text_eq_refl, lookup, lookup-insert, length, drop, take-drop, length-drop_add,
  length-drop_less, ◌≡◌, refl, sym, subst, ap, ◌∙◌, arith, if◌then◌else◌,
}
use wkbench.Plugin.Artifacts.{ArtifactChunk}
use wkbench.Plugin.Artifacts.Host.{
  HostArtifactWriter, RunArtifacts, Environment, write_host, write_with,
}
use wkbench.Plugin.Artifacts.Remote.{
  RemoteWriter, Written, next_chunk, artifact_chunk_max_bytes, write_rest, write_remote,
  after_chunk, writer_is_closed,
}

-- The host's artifacts, and what its environment changes.
pub record HostState (Writer S : Type 0) : Type 0 where
  pub artifacts : RunArtifacts Writer
  pub state : S

module _ {E Writer S : Type 0} (env : Environment E Writer S) (contents : Writer → S → List ℕ)
    (accepts : (w : Writer) (bytes : List ℕ) (s : S)
      → let r = env.write_to w bytes s in
        (r.0 ≡ length bytes) × (r.1 ≡ none) × (contents w r.2 ≡ contents w s ++ bytes)) where
  -- A chunk frame that is written comes to the host's `write`.
  abbrev pub deliver : ArtifactChunk → HostState Writer S → Option E × HostState Writer S
  deliver chunk host =
      let r = write_host env (some chunk) host.artifacts host.state in
      (none, record { artifacts = r.artifacts; state = r.state })

  -- The host's writer of that handle, and the bytes it has.
  pub record Holds (handle : Text) (w : Writer) (size : ℕ) (bytes : List ℕ)
      (host : HostState Writer S) : Type 0 where
    pub entry : HostArtifactWriter Writer
    pub there : lookup handle host.artifacts.writers ≡ some entry
    pub same_writer : entry.writer ≡ w
    pub counted : entry.size ≡ size
    pub held : contents w host.state ≡ bytes

  Holds-more :
      (chunk : ArtifactChunk) (w : Writer) (size : ℕ) (bytes : List ℕ) (host : HostState Writer S)
      → Holds chunk.handle w size bytes host
      → Holds chunk.handle w
          (size + length chunk.payload)
          (bytes ++ chunk.payload)
          (deliver chunk host).1
  unfolding write_host write_with
  Holds-more chunk w size bytes host h =
      let (count, fine, got) = accepts w chunk.payload host.state in
      let e = h.entry in
      rw h.there (record {
        entry = record e { size = e.size + (env.write_to e.writer chunk.payload host.state).0 };
        there =
            lookup-insert chunk.handle chunk.handle _ host.artifacts.writers ∙ rw text_eq_refl refl;
        same_writer = h.same_writer;
        counted = rw h.same_writer (omega (arith, count, h.counted));
        held = rw (h.same_writer, got) (ap (λ l. l ++ chunk.payload) h.held);
      })

  pub record IsWritten (w : Writer) (size : ℕ) (bytes : List ℕ) (count : ℕ) (handle : Text)
      (r : Written E (HostState Writer S)) : Type 0 where
    pub all_counted : r.count ≡ count
    pub no_error : r.error ≡ none
    pub still_open : r.writer.closed ≡ false
    pub at_host : Holds handle w size bytes r.state

  recast :
      {w : Writer} {size size' count count' : ℕ} {bytes bytes' : List ℕ} {handle : Text}
      {r : Written E (HostState Writer S)}
      → size ≡ size'
      → bytes ≡ bytes'
      → count ≡ count'
      → IsWritten w size bytes count handle r
      → IsWritten w size' bytes' count' handle r
  recast {w} {size} {size'} {count} {count'} {bytes} {bytes'} {handle} {r} sizes same counts h =
      subst (λ n. IsWritten w n bytes' count' handle r) sizes
        (subst (λ l. IsWritten w size l count' handle r) same
          (subst (λ n. IsWritten w size bytes n handle r) counts h))

  rest-IsWritten :
      (fuel : ℕ) (v : RemoteWriter) (written : ℕ) (p : List ℕ) (w : Writer) (size : ℕ)
      (bytes : List ℕ) (host : HostState Writer S)
      → length p ≤ fuel
      → v.closed ≡ false
      → Holds v.handle w size bytes host
      → IsWritten w
          (size + length p)
          (bytes ++ p)
          (written + length p)
          v.handle
          (write_rest deliver fuel v written p host)
  unfolding write_rest after_chunk
  rest-IsWritten fuel v written [] w size bytes host enough openly h = record {
    all_counted = omega arith;
    no_error = refl;
    still_open = openly;
    at_host = rw (append-nil bytes) (subst (λ n. Holds v.handle w n bytes host) (omega arith) h);
  }
  rest-IsWritten zero v written (b ∷ bs) w size bytes host enough openly h =
      absurd (omega (arith, enough))
  rest-IsWritten (suc fuel) v written (b ∷ bs) w size bytes host enough openly h =
      let chunk = next_chunk v (b ∷ bs) in
      let left = drop artifact_chunk_max_bytes (b ∷ bs) in
      let lengths = length-drop_add artifact_chunk_max_bytes (b ∷ bs) in
      let ih =
        rest-IsWritten fuel (record v { sequence = suc v.sequence })
          (written + length chunk.payload) left w (size + length chunk.payload)
          (bytes ++ chunk.payload) (deliver chunk host).1
          (omega (arith, enough, length-drop_less artifact_chunk_max_bytes b bs (omega arith)))
          openly (Holds-more chunk w size bytes host h) in
      recast (omega (arith, lengths))
        (append_assoc bytes chunk.payload left
          ∙ ap (λ l. bytes ++ l) (take-drop artifact_chunk_max_bytes (b ∷ bs)))
        (omega (arith, lengths)) ih

  -- If the writer that the environment opened takes every byte, then Write on the plugin's side
  -- returns the number of bytes and no error, and the host's writer of that handle has received
  -- these bytes, in order, after those it had; its size has grown by their number.
  pub write_remote-delivered :
      (v : RemoteWriter) (p : List ℕ) (w : Writer) (size : ℕ) (bytes : List ℕ)
      (host : HostState Writer S)
      → v.closed ≡ false
      → Holds v.handle w size bytes host
      → IsWritten w
          (size + length p)
          (bytes ++ p)
          (length p)
          v.handle
          (write_remote deliver v p host)
  unfolding write_remote
  write_remote-delivered v p w size bytes host openly h =
      subst (IsWritten w (size + length p) (bytes ++ p) (length p) v.handle)
        (ap (λ b. if b then refused else rest) (sym openly))
        (recast refl refl (omega arith)
          (rest-IsWritten (length p) v 0 p w size bytes host (omega arith) openly h))
    where
      refused : Written E (HostState Writer S)
      refused = record {
        count = 0;
        error = some (writer_is_closed v.name);
        writer = v;
        state = host;
      }

      rest : Written E (HostState Writer S)
      rest = write_rest deliver (length p) v 0 p host
