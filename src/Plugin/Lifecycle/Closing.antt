-- ===== src/Plugin/Lifecycle/Closing.antt =====
-- When Run returns, what it opened is closed.
use wkbench.Base.{
  ltb, one_if, occurrences, total, sym, ap, ℕ, zero, suc, ◌+◌, ℤ, pos, negsuc, Bool, true, false,
  Option, none, some, List, [], ◌∷◌, Result, ok, err, Text, text, text_eq, Dict, lookup,
  HasDistinctKeys, ◌≡◌, refl, ◌∙◌, arith, Bool-cases, inl, inr,
}
use wkbench.Plugin.Outputs.{OutputFrame, Stored, OutputError, set_stored, set_output_from_frame}
use wkbench.Plugin.Metrics.{
  MetricSnapshot, emit_times, replay_counter_snapshot, apply_with, apply_counted,
  apply_metric_flush,
}
use wkbench.Plugin.Artifacts.{ArtifactChunk}
use wkbench.Plugin.Artifacts.Host.{
  HostArtifactWriter, RunArtifacts, ArtifactError, ArtifactOpened, ArtifactClosed, no_artifacts,
  open_host, write_host, close_host, close_each, close_all,
}
use wkbench.Plugin.Client.{ReadResult, frame_read, read_error}
use wkbench.Plugin.Lifecycle.{
  HostBody, set_output_body, metric_flush_body, artifact_open_body, artifact_chunk_body,
  artifact_close_body, terminal_status_body, error_body, handshake_body, plan_body, start_body,
  validate_body, stop_body, other_body, artifact_opened, artifact_closed, artifact_error,
  LifecycleError, RunHost, write_run_artifact_error, after_open, after_write, after_close,
  handle_run_lifecycle_frame, RunEnd, ended_with, next_round, run_loop, run_remote,
}
use wkbench.Plugin.Lifecycle.Counting.{
  has_number, Counted, put, counted_recorder, counting, IsBalanced, IsQuiet, quiet-IsBalanced,
  joined-IsBalanced, answered-IsBalanced, written-IsBalanced, open-IsBalanced, chunk-IsBalanced,
  close-IsBalanced,
}

still : {S : Type 0} (c : Counted S) → IsQuiet c c
still c = record { same_opens = refl; same_closes = refl }

then-IsQuiet : {S : Type 0} {c d e : Counted S} → IsQuiet c d → IsQuiet d e → IsQuiet c e
then-IsQuiet p q = record {
  same_opens = q.same_opens ∙ p.same_opens;
  same_closes = q.same_closes ∙ p.same_closes;
}

module _ {Any E F Writer S : Type 0} (host : RunHost Any E F Writer S) where
  set-IsQuiet :
      (name : Text) (r : Result (OutputError E) (Stored Any)) (c : Counted S)
      → IsQuiet c (set_stored host.nil_value host.decode (counting host).set_output name r c).1
  unfolding set_stored counting put
  set-IsQuiet name (err e) c = still c
  set-IsQuiet name (ok v) c = record { same_opens = refl; same_closes = refl }

  output-IsQuiet :
      (output : Option OutputFrame) (c : Counted S)
      → IsQuiet c
          (set_output_from_frame host.nil_value host.decode (counting host).set_output output c).1
  unfolding set_output_from_frame
  output-IsQuiet none c = still c
  output-IsQuiet (some output) c = set-IsQuiet output.name _ c

  emit-IsQuiet :
      (n : ℕ) (name : Text) (delta : F) (labels : Dict Text) (c : Counted S)
      → IsQuiet c (emit_times host.div (counting host).metrics n name delta labels c)
  unfolding emit_times counting
  emit-IsQuiet zero name delta labels c = still c
  emit-IsQuiet (suc n) name delta labels c =
      then-IsQuiet (record { same_opens = refl; same_closes = refl })
        (emit-IsQuiet n name delta labels
          (record c { inner = host.metrics.emit_counter name delta labels c.inner }))

  recorded-IsQuiet :
      (m : MetricSnapshot F) (n : ℕ) (recorder : Option (MetricSnapshot F → S → S)) (c : Counted S)
      → IsQuiet c (apply_with host.div (counting host).metrics m n (counted_recorder recorder) c)
  unfolding apply_with counted_recorder replay_counter_snapshot
  recorded-IsQuiet m n (some f) c = record { same_opens = refl; same_closes = refl }
  recorded-IsQuiet m n none c = elim (Bool-cases (text_eq m.type (text "duration"))) [
    | inl duration ↦ rw duration (still c)
    | inr counter ↦ rw counter (emit-IsQuiet n m.name (host.div m.sum n) m.labels c)
  ]

  counted-IsQuiet :
      (m : MetricSnapshot F) (count : ℤ) (c : Counted S)
      → IsQuiet c (apply_counted host.div (counting host).metrics m count c)
  unfolding apply_counted counting
  counted-IsQuiet m (pos zero) c = still c
  counted-IsQuiet m (pos (suc n)) c = recorded-IsQuiet m (suc n) host.metrics.recorder c
  counted-IsQuiet m (negsuc n) c = still c

  metrics-IsQuiet :
      (ms : List (Option (MetricSnapshot F))) (c : Counted S)
      → IsQuiet c (apply_metric_flush host.div (counting host).metrics ms c)
  unfolding apply_metric_flush
  metrics-IsQuiet [] c = still c
  metrics-IsQuiet (none ∷ ms) c = metrics-IsQuiet ms c
  metrics-IsQuiet (some m ∷ ms) c =
      then-IsQuiet (counted-IsQuiet m m.count c) (metrics-IsQuiet ms _)

  opened-IsBalanced :
      (name : Option Text) (a : RunArtifacts (ℕ × Writer)) (c : Counted S)
      → IsBalanced a c
      → let o = open_host (counting host).artifact_env name a c in IsBalanced o.artifacts o.state
  unfolding open_host counting
  opened-IsBalanced none a c b = b
  opened-IsBalanced (some name) a c b =
      let r = host.artifact_env.open_artifact name c.inner in
      open-IsBalanced host name a c r.0 r.1 b

  chunked-IsBalanced :
      (chunk : Option ArtifactChunk) (a : RunArtifacts (ℕ × Writer)) (c : Counted S)
      → IsBalanced a c
      → let o = write_host (counting host).artifact_env chunk a c in IsBalanced o.artifacts o.state
  unfolding write_host
  chunked-IsBalanced none a c b = b
  chunked-IsBalanced (some chunk) a c b = chunk-IsBalanced host chunk a c _ refl b

  closed-IsBalanced :
      (handle : Option Text) (a : RunArtifacts (ℕ × Writer)) (c : Counted S)
      → IsBalanced a c
      → let o = close_host (counting host).artifact_env handle a c in IsBalanced o.artifacts o.state
  unfolding close_host
  closed-IsBalanced none a c b = b
  closed-IsBalanced (some handle) a c b = close-IsBalanced host handle a c _ refl b

  refused-IsBalanced :
      (e : ArtifactError E) (a : RunArtifacts (ℕ × Writer)) (c : Counted S)
      → IsBalanced a c
      → let h = write_run_artifact_error (counting host) e a c in IsBalanced h.artifacts h.state
  unfolding write_run_artifact_error
  refused-IsBalanced e a c b =
      joined-IsBalanced host e a _ (written-IsBalanced host (artifact_error e) a c b)

  after_open-IsBalanced :
      (r : Result (ArtifactError E) ArtifactOpened) (a : RunArtifacts (ℕ × Writer)) (c : Counted S)
      → IsBalanced a c
      → let h = after_open (counting host) r a c in IsBalanced h.artifacts h.state
  unfolding after_open
  after_open-IsBalanced (err e) a c b = refused-IsBalanced e a c b
  after_open-IsBalanced (ok o) a c b =
      answered-IsBalanced host a _ (written-IsBalanced host (artifact_opened o) a c b)

  after_write-IsBalanced :
      (r : Result {0, 0} (ArtifactError E) Unit) (a : RunArtifacts (ℕ × Writer)) (c : Counted S)
      → IsBalanced a c
      → let h = after_write (counting host) r a c in IsBalanced h.artifacts h.state
  unfolding after_write
  after_write-IsBalanced (err e) a c b = refused-IsBalanced e a c b
  after_write-IsBalanced (ok u) a c b = b

  after_close-IsBalanced :
      (r : Result (ArtifactError E) ArtifactClosed) (a : RunArtifacts (ℕ × Writer)) (c : Counted S)
      → IsBalanced a c
      → let h = after_close (counting host) r a c in IsBalanced h.artifacts h.state
  unfolding after_close
  after_close-IsBalanced (err e) a c b = refused-IsBalanced e a c b
  after_close-IsBalanced (ok o) a c b =
      answered-IsBalanced host a _ (written-IsBalanced host (artifact_closed o) a c b)

  frame-IsBalanced :
      (body : HostBody F) (a : RunArtifacts (ℕ × Writer)) (c : Counted S)
      → IsBalanced a c
      → let h = handle_run_lifecycle_frame (counting host) body a c in
        IsBalanced h.artifacts h.state
  unfolding handle_run_lifecycle_frame counting
  frame-IsBalanced (set_output_body output) a c b =
      quiet-IsBalanced a c _ (output-IsQuiet output c) b
  frame-IsBalanced (metric_flush_body ms) a c b = quiet-IsBalanced a c _ (metrics-IsQuiet ms c) b
  frame-IsBalanced (artifact_open_body name) a c b =
      let o = open_host (counting host).artifact_env name a c in
      after_open-IsBalanced o.result o.artifacts o.state (opened-IsBalanced name a c b)
  frame-IsBalanced (artifact_chunk_body chunk) a c b =
      let o = write_host (counting host).artifact_env chunk a c in
      after_write-IsBalanced o.result o.artifacts o.state (chunked-IsBalanced chunk a c b)
  frame-IsBalanced (artifact_close_body handle) a c b =
      let o = close_host (counting host).artifact_env handle a c in
      after_close-IsBalanced o.result o.artifacts o.state (closed-IsBalanced handle a c b)
  frame-IsBalanced (terminal_status_body success e) a c b = b
  frame-IsBalanced (error_body e) a c b = b
  frame-IsBalanced (handshake_body m protocol) a c b = b
  frame-IsBalanced (plan_body bytes) a c b = b
  frame-IsBalanced (start_body id) a c b = b
  frame-IsBalanced validate_body a c b = b
  frame-IsBalanced stop_body a c b = b
  frame-IsBalanced other_body a c b = b

  round-IsBalanced :
      (body : HostBody F) (handled : Bool) (e : Option (LifecycleError E))
      (a : RunArtifacts (ℕ × Writer)) (c : Counted S) (rest : RunEnd E (ℕ × Writer) (Counted S))
      → IsBalanced a c
      → IsBalanced rest.artifacts rest.state
      → let r = next_round (counting host) body handled e a c rest in IsBalanced r.artifacts r.state
  unfolding next_round ended_with
  round-IsBalanced body true (some e) a c rest b later = b
  round-IsBalanced body true none a c rest b later = later
  round-IsBalanced body false e a c rest b later = b

  loop-IsBalanced :
      (rs : List (ReadResult E (HostBody F))) (a : RunArtifacts (ℕ × Writer)) (c : Counted S)
      → IsBalanced a c
      → let r = run_loop (counting host) rs a c in IsBalanced r.artifacts r.state
  unfolding run_loop ended_with
  loop-IsBalanced [] a c b = b
  loop-IsBalanced (read_error e ∷ rs) a c b = b
  loop-IsBalanced (frame_read body ∷ rs) a c b =
      let h = handle_run_lifecycle_frame (counting host) body a c in
      let now = frame-IsBalanced body a c b in
      round-IsBalanced body h.handled h.error h.artifacts h.state _ now
        (loop-IsBalanced rs h.artifacts h.state now)

  each_closed :
      (ws : Dict (HostArtifactWriter (ℕ × Writer))) (c : Counted S)
      → let d = close_each (counting host).artifact_env ws c in
        (d.opens ≡ c.opens)
        × ((k : ℕ) → occurrences k d.closed ≡ occurrences k c.closed + total (has_number k) ws)
  unfolding close_each counting
  each_closed [] c = (refl, λ k. omega arith)
  each_closed ((handle, w) ∷ ws) c =
      let (same, more) = each_closed ws ((counting host).artifact_env.close_writer w.writer c).1 in
      (same, λ k. omega (arith, more k))

  -- Whatever frames come, when Run returns it has called Close exactly once on each artifact writer
  -- that the environment opened for it, here known by its number, and on no other, and no handle is
  -- left.
  pub run_remote-closes :
      (rs : List (ReadResult E (HostBody F))) (s : S)
      → let r = run_remote (counting host) rs (record { opens = 0; closed = []; inner = s }) in
        ((k : ℕ) → occurrences k r.state.closed ≡ one_if (ltb k r.state.opens))
        × (r.artifacts.writers ≡ [])
  unfolding run_remote close_all HasDistinctKeys lookup
  run_remote-closes rs s =
      let c : Counted S = record { opens = 0; closed = []; inner = s } in
      let r = run_loop (counting host) rs no_artifacts c in
      let b =
        loop-IsBalanced rs no_artifacts c
          (record { counts = λ k. ground arith; distinct = tt; unused = λ n above. refl }) in
      let (same, more) = each_closed r.artifacts.writers r.state in
      (λ k. more k ∙ sym (b.counts k) ∙ ap (λ n. one_if (ltb k n)) (sym same), refl)
