-- ===== src/Plugin/Artifacts/Host.antt =====
-- runArtifactState of benchkit/pluginhost/stdio_client.go. The environment's OpenArtifact and the
-- io.WriteCloser it returns are parameters: `Writer` names a writer, `S` is what they change. A frame
-- field that is nil is `none`.
use wkbench.Base.{
  ℕ, suc, ◌+◌, ◌==◌, Option, none, some, List, [], ◌∷◌, Result, ok, err, Text, text, Dict, lookup,
  insert, remove, length, if◌then◌else◌,
}
use wkbench.Units.Decimal.{name_at}
use wkbench.Plugin.Artifacts.{ArtifactChunk}

pub record HostArtifactWriter (Writer : Type 0) : Type 0 where
  pub name : Text
  pub writer : Writer
  pub size : ℕ  -- int64

pub record RunArtifacts (Writer : Type 0) : Type 0 where
  pub next : ℕ
  pub writers : Dict (HostArtifactWriter Writer)

pub data ArtifactError (E : Type 0) : Type 0 where
  missing_body : ArtifactError E
  not_opened : Text → E → ArtifactError E
  unknown_handle : Text → ArtifactError E
  not_written : Text → E → ArtifactError E
  short_write : Text → ℕ → ℕ → ArtifactError E
  not_closed : Text → E → ArtifactError E

pub record ArtifactOpened : Type 0 where
  pub name : Text
  pub handle : Text

pub record ArtifactClosed : Type 0 where
  pub handle : Text
  pub size_bytes : ℕ

-- What a call returns, and the state after it.
pub record After (A E Writer S : Type 0) : Type 0 where
  pub result : Result (ArtifactError E) A
  pub artifacts : RunArtifacts Writer
  pub state : S

-- newRunArtifactState
abbrev pub no_artifacts : {Writer : Type 0} → RunArtifacts Writer
no_artifacts = record { next = 0; writers = [] }

-- fmt.Sprintf("artifact-%d", n)
abbrev pub handle_of : ℕ → Text
handle_of n = name_at (text "artifact") n

-- env.OpenArtifact, and the writer's Write, with its count, and Close
pub record Environment (E Writer S : Type 0) : Type 0 where
  pub open_artifact : Text → S → Result E Writer × S
  pub write_to : Writer → List ℕ → S → ℕ × Option E × S
  pub close_writer : Writer → S → Option E × S

module _ {E Writer S : Type 0} (env : Environment E Writer S) where
  unfoldable pub open_with :
      Text → RunArtifacts Writer → Result E Writer × S → After ArtifactOpened E Writer S
  open_with name a (err e, s) = record {
    result = err (not_opened name e);
    artifacts = a;
    state = s;
  }
  open_with name a (ok w, s) =
      let n = suc a.next in
      record {
        result = ok (record { name = name; handle = handle_of n });
        artifacts = record {
          next = n;
          writers = insert (handle_of n) (record { name = name; writer = w; size = 0 }) a.writers;
        };
        state = s;
      }

  -- open
  unfoldable pub open_host : Option Text → RunArtifacts Writer → S → After ArtifactOpened E Writer S
  unfolding open_with
  open_host none a s = record { result = err missing_body; artifacts = a; state = s }
  open_host (some name) a s = open_with name a (env.open_artifact name s)

  unfoldable pub checked_write : Text → ℕ → ℕ → Option E → Result {0, 0} (ArtifactError E) Unit
  checked_write name n wanted (some e) = err (not_written name e)
  checked_write name n wanted none = if n == wanted then ok tt else err (short_write name n wanted)

  unfoldable pub write_with :
      ArtifactChunk
      → RunArtifacts Writer
      → S
      → Option (HostArtifactWriter Writer)
      → After Unit E Writer S
  unfolding checked_write
  write_with chunk a s none = record {
    result = err (unknown_handle chunk.handle);
    artifacts = a;
    state = s;
  }
  write_with chunk a s (some w) =
      let r = env.write_to w.writer chunk.payload s in
      record {
        result = checked_write w.name r.0 (length chunk.payload) r.1;
        artifacts = record a {
          writers = insert chunk.handle (record w { size = w.size + r.0 }) a.writers;
        };
        state = r.2;
      }

  -- write
  unfoldable pub write_host : Option ArtifactChunk → RunArtifacts Writer → S → After Unit E Writer S
  unfolding write_with
  write_host none a s = record { result = err missing_body; artifacts = a; state = s }
  write_host (some chunk) a s = write_with chunk a s (lookup chunk.handle a.writers)

  unfoldable pub closed_with :
      Text → HostArtifactWriter Writer → Option E → Result (ArtifactError E) ArtifactClosed
  closed_with handle w (some e) = err (not_closed w.name e)
  closed_with handle w none = ok (record { handle = handle; size_bytes = w.size })

  unfoldable pub close_with :
      Text
      → RunArtifacts Writer
      → S
      → Option (HostArtifactWriter Writer)
      → After ArtifactClosed E Writer S
  unfolding closed_with
  close_with handle a s none = record {
    result = err (unknown_handle handle);
    artifacts = a;
    state = s;
  }
  close_with handle a s (some w) =
      let r = env.close_writer w.writer s in
      record {
        result = closed_with handle w r.0;
        artifacts = record a { writers = remove handle a.writers };
        state = r.1;
      }

  -- close
  unfoldable pub close_host :
      Option Text → RunArtifacts Writer → S → After ArtifactClosed E Writer S
  unfolding close_with
  close_host none a s = record { result = err missing_body; artifacts = a; state = s }
  close_host (some handle) a s = close_with handle a s (lookup handle a.writers)

  unfoldable pub close_each : Dict (HostArtifactWriter Writer) → S → S
  close_each [] s = s
  close_each ((handle, w) ∷ ws) s = close_each ws (env.close_writer w.writer s).1

  -- closeAll
  unfoldable pub close_all : RunArtifacts Writer → S → RunArtifacts Writer × S
  unfolding close_each
  close_all a s = (record a { writers = [] }, close_each a.writers s)
