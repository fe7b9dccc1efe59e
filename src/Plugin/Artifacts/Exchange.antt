-- ===== src/Plugin/Artifacts/Exchange.antt =====
-- OpenArtifact of remoteRunEnv, Close of remoteArtifactWriter and closeArtifact of
-- sdk/go/wkbench/plugin/server.go, which wait for the host's answer. Writing and reading a frame are
-- parameters that change S.
use wkbench.Base.{
  Bool, true, false, not, Option, none, some, [], Result, ok, err, Text, text_eq, if◌then◌else◌,
}
use wkbench.Plugin.Messages.{ErrorMessage}
use wkbench.Plugin.Artifacts.Remote.{RemoteWriter}

pub data AnswerBody : Type 0 where
  opened_answer closed_answer : Text → AnswerBody
  error_answer : ErrorMessage → AnswerBody
  other_answer : AnswerBody

pub record AnswerFrame : Type 0 where
  pub request_id : Text
  pub body : AnswerBody

pub data ExchangeError (E : Type 0) : Type 0 where
  not_declared missing_handle unexpected_answer : Text → ExchangeError E
  frame_not_written frame_not_read : E → ExchangeError E
  wrong_request : Text → ExchangeError E
  wrong_handle : Text → Text → ExchangeError E
  host_error : ErrorMessage → ExchangeError E

-- An ArtifactOpen or an ArtifactClose frame
pub data ArtifactRequest : Type 0 where
  open_request close_request : Text → ArtifactRequest

module _ {E S : Type 0} (request_id : Text) (write_request : ArtifactRequest → S → Option E × S)
    (read_frame : S → Result E AnswerFrame × S) where
  -- validateResponseFrameID
  unfoldable pub for_request : AnswerFrame → Result (ExchangeError E) AnswerBody
  for_request frame =
      if text_eq frame.request_id request_id
      then ok frame.body
      else err (wrong_request frame.request_id)

  read_answer : Result E AnswerFrame → Result (ExchangeError E) AnswerBody
  unfolding for_request
  read_answer (err e) = err (frame_not_read e)
  read_answer (ok frame) = for_request frame

  written_then : Option E × S → Result (ExchangeError E) AnswerBody × S
  unfolding read_answer
  written_then (some e, s) = (err (frame_not_written e), s)
  written_then (none, s) = let r = read_frame s in (read_answer r.0, r.1)

  -- A frame written and the answer to it read
  unfoldable pub exchange : ArtifactRequest → S → Result (ExchangeError E) AnswerBody × S
  unfolding written_then
  exchange request s = written_then (write_request request s)

  opened_writer : Text → Result (ExchangeError E) AnswerBody → Result (ExchangeError E) RemoteWriter
  opened_writer name (err e) = err e
  opened_writer name (ok (error_answer e)) = err (host_error e)
  opened_writer name (ok (opened_answer handle)) =
      if text_eq handle []
      then err (missing_handle name)
      else ok (record { name = name; handle = handle; sequence = 0; closed = false })
  opened_writer name (ok (closed_answer handle)) = err (unexpected_answer name)
  opened_writer name (ok other_answer) = err (unexpected_answer name)

  -- OpenArtifact; `declared` is the lookup in artifactDefs
  unfoldable pub open_remote_artifact :
      (Text → Bool) → Text → S → Result (ExchangeError E) RemoteWriter × S
  unfolding opened_writer
  open_remote_artifact declared name s =
      let r = exchange (open_request name) s in
      if not (declared name) then (err (not_declared name), s) else (opened_writer name r.0, r.1)

  closed_answer_of :
      Text → Text → Result (ExchangeError E) AnswerBody → Result {0, 0} (ExchangeError E) Unit
  closed_answer_of name handle (err e) = err e
  closed_answer_of name handle (ok (error_answer e)) = err (host_error e)
  closed_answer_of name handle (ok (closed_answer h)) =
      if text_eq h handle then ok tt else err (wrong_handle h handle)
  closed_answer_of name handle (ok (opened_answer h)) = err (unexpected_answer name)
  closed_answer_of name handle (ok other_answer) = err (unexpected_answer name)

  -- closeArtifact
  unfoldable pub close_artifact : Text → Text → S → Result {0, 0} (ExchangeError E) Unit × S
  unfolding closed_answer_of
  close_artifact name handle s =
      let r = exchange (close_request handle) s in (closed_answer_of name handle r.0, r.1)

  -- Close: the result, the writer and the state after it
  unfoldable pub close_remote :
      RemoteWriter → S → Result {0, 0} (ExchangeError E) Unit × RemoteWriter × S
  close_remote w s =
      let r = close_artifact w.name w.handle s in
      if w.closed then (ok tt, w, s) else (r.0, record w { closed = true }, r.1)
