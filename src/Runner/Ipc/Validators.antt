-- ===== src/Runner/Ipc/Validators.antt =====
-- backend/src/deskpilot/runner/ipc_protocol.py: the model validators of the messages, which run when
-- a message is constructed, before it is signed and after it is parsed.
use desk_pilot_agent.Base.{Bool, true, false, not, ◌&&◌, ◌||◌, ltb, leb, is_some}
use desk_pilot_agent.Base.Result.{Result, ok, ◌>>◌, raise_if}
use desk_pilot_agent.Runner.Ipc.{TimedCommand, ResultStatus, succeeded, ToolCallResult}

pub data MessageError : Type 0 where
  empty_window ends_early output_required error_required output_forbidden : MessageError

-- `TimedRunnerCommand.validate_time_window`
unfoldable pub validate_time_window : TimedCommand → Result MessageError TimedCommand
validate_time_window c = do raise_if (leb c.expires_at c.issued_at) empty_window; ok c

abbrev is_success : ResultStatus → Bool
is_success succeeded = true
is_success _ = false

-- `ToolCallResult.validate_result`
unfoldable pub validate_result : ToolCallResult → Result MessageError ToolCallResult
validate_result r = do
  raise_if (ltb r.finished_at r.started_at) ends_early
  raise_if (is_success r.status && (not (is_some r.output) || is_some r.error)) output_required
  raise_if (not (is_success r.status) && not (is_some r.error)) error_required
  raise_if (not (is_success r.status) && is_some r.output) output_forbidden
  ok r
