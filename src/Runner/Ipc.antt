-- ===== src/Runner/Ipc.antt =====
-- backend/src/deskpilot/runner/ipc_protocol.py: the signed messages, the replay guard and the
-- verifier. Times and durations are numbers (microseconds).
pub mod Replay
pub mod Acceptance
pub mod Validators
use desk_pilot_agent.Base.{
  ℕ, ◌+◌, ◌-◌, String, Bool, true, false, not, ◌&&◌, ◌||◌, Option, none, some, List, [], ◌∷◌, ltb,
  leb, if◌then◌else◌, is_some,
}
use desk_pilot_agent.Base.Text.{str_eq}
use desk_pilot_agent.Base.Json.{Json, Fields}
use desk_pilot_agent.Base.Result.{Result, ok, err}
use desk_pilot_agent.Policy.Grant.{Grant}

-- `TimedRunnerCommand`
pub record TimedCommand : Type 0 where
  pub issued_at : ℕ
  pub expires_at : ℕ
  pub nonce : String
  pub startup_nonce : String

pub record ToolCallRequest : Type 0 where
  pub timed : TimedCommand
  pub open timed use *
  pub call_id : String
  pub task_id : String
  pub step_id : String
  pub tool_name : String
  pub tool_version : String
  pub contract_digest : String
  pub arguments : Fields
  pub actor : String
  pub idempotency_key : Option String
  pub expected_resource_versions : Fields
  pub authorization : Grant

pub record ToolCancelRequest : Type 0 where
  pub timed : TimedCommand
  pub open timed use *
  pub call_id : String
  pub reason : String

pub record ToolCommitReceiptRequest : Type 0 where
  pub timed : TimedCommand
  pub open timed use *
  pub call_id : String

pub record RunnerHello : Type 0 where
  pub runner_id : String
  pub startup_nonce : String
  pub supported_protocols : List String
  pub isolation_mode : String
  pub network_isolation_mode : String
  pub per_call_process_isolation : Bool
  pub occurred_at : ℕ

pub record RunnerHeartbeat : Type 0 where
  pub runner_id : String
  pub startup_nonce : String
  pub occurred_at : ℕ
  pub active_call_ids : List String

pub record ToolProgress : Type 0 where
  pub runner_id : String
  pub startup_nonce : String
  pub call_id : String
  pub sequence : ℕ
  pub message : String
  -- A float, kept as its 64 bits: nothing here computes with it.
  pub percent : Option ℕ
  pub occurred_at : ℕ

pub data ResultStatus : Type 0 where
  succeeded failed cancelled unknown : ResultStatus

pub record ToolError : Type 0 where
  pub code : String
  pub message : String
  pub retryable : Bool
  pub details : Fields

pub record ToolCallResult : Type 0 where
  pub runner_id : String
  pub startup_nonce : String
  pub call_id : String
  pub status : ResultStatus
  pub output : Option Fields
  pub error : Option ToolError
  pub started_at : ℕ
  pub finished_at : ℕ

pub record ToolCommitReceiptResult : Type 0 where
  pub runner_id : String
  pub startup_nonce : String
  pub call_id : String
  pub receipt : Option Json
  pub occurred_at : ℕ

pub data IpcPayload : Type 0 where
  tool_call : ToolCallRequest → IpcPayload
  tool_cancel : ToolCancelRequest → IpcPayload
  receipt_get : ToolCommitReceiptRequest → IpcPayload
  runner_hello : RunnerHello → IpcPayload
  runner_heartbeat : RunnerHeartbeat → IpcPayload
  tool_progress : ToolProgress → IpcPayload
  tool_result : ToolCallResult → IpcPayload
  receipt_result : ToolCommitReceiptResult → IpcPayload

-- `payload.startup_nonce`
unfoldable pub startup_nonce_of : IpcPayload → String
startup_nonce_of (tool_call p) = p.startup_nonce
startup_nonce_of (tool_cancel p) = p.startup_nonce
startup_nonce_of (receipt_get p) = p.startup_nonce
startup_nonce_of (runner_hello p) = p.startup_nonce
startup_nonce_of (runner_heartbeat p) = p.startup_nonce
startup_nonce_of (tool_progress p) = p.startup_nonce
startup_nonce_of (tool_result p) = p.startup_nonce
startup_nonce_of (receipt_result p) = p.startup_nonce

-- `isinstance(payload, TimedRunnerCommand)`
unfoldable pub timed_of : IpcPayload → Option TimedCommand
timed_of (tool_call p) = some p.timed
timed_of (tool_cancel p) = some p.timed
timed_of (receipt_get p) = some p.timed
timed_of _ = none

pub record SignedIpcEnvelope : Type 0 where
  pub key_id : String
  pub payload : IpcPayload
  pub signature : String

pub data IpcError : Type 0 where
  unknown_key invalid_signature startup_nonce_mismatch : IpcError
  issued_in_future message_expired ttl_exceeded replay_detected unexpected_message : IpcError

-- `InMemoryReplayGuard`: the nonces with their expiry, latest first.
abbrev pub Guard : Type 0
Guard = List (String × ℕ)

-- The entries that a call at `now` keeps.
unfoldable pub unexpired : ℕ → Guard → Guard
unexpired now [] = []
unexpired now ((nonce, expiry) ∷ g) =
    let rest = unexpired now g in if ltb now expiry then (nonce, expiry) ∷ rest else rest

unfoldable pub has_nonce : String → Guard → Bool
has_nonce nonce [] = false
has_nonce nonce ((stored, _) ∷ g) = str_eq nonce stored || has_nonce nonce g

-- `consume`: the pruned entries stay pruned when the nonce is refused.
unfoldable pub consume : Guard → String → ℕ → ℕ → Result IpcError (Unit {0}) × Guard
unfolding unexpired has_nonce
consume g nonce expires_at now =
    let live = unexpired now g in
    if has_nonce nonce live
    then (err replay_detected, live)
    else (ok tt, (nonce, expires_at) ∷ live)

-- `IpcVerifier`. `signature_for` is the HMAC of a payload under the verifier's own key.
pub record Verifier : Type 0 where
  pub key_id : String
  pub signature_for : IpcPayload → String
  pub startup_nonce : String
  pub max_command_ttl : ℕ
  pub clock_skew : ℕ
  pub guard : Guard

-- The end of `verify`: a refused nonce raises, an accepted one returns the payload.
finish :
    Verifier
    → IpcPayload
    → Result IpcError (Unit {0}) × Guard
    → Result IpcError IpcPayload × Verifier
finish v p (ok _, g) = (ok p, record v { guard = g })
finish v p (err e, g) = (err e, record v { guard = g })

-- The freshness checks on a command.
unfoldable pub check_timed :
    Verifier → IpcPayload → Option TimedCommand → ℕ → Result IpcError IpcPayload × Verifier
unfolding finish
check_timed v p none now = (ok p, v)
check_timed v p (some c) now =
    if ltb (now + v.clock_skew) c.issued_at
    then (err issued_in_future, v)
    else if leb c.expires_at now
    then (err message_expired, v)
    else if ltb v.max_command_ttl (c.expires_at - c.issued_at)
    then (err ttl_exceeded, v)
    else finish v p (consume v.guard c.nonce c.expires_at now)

-- `verify`
unfoldable pub verify : Verifier → SignedIpcEnvelope → ℕ → Result IpcError IpcPayload × Verifier
unfolding check_timed timed_of startup_nonce_of
verify v envelope now =
    if not (str_eq envelope.key_id v.key_id)
    then (err unknown_key, v)
    else if not (str_eq envelope.signature (v.signature_for envelope.payload))
    then (err invalid_signature, v)
    else if not (str_eq (startup_nonce_of envelope.payload) v.startup_nonce)
    then (err startup_nonce_mismatch, v)
    else check_timed v envelope.payload (timed_of envelope.payload) now

-- The verifier after a series of envelopes, each at its time.
unfoldable pub verify_all : Verifier → List (SignedIpcEnvelope × ℕ) → Verifier
verify_all v [] = v
verify_all v ((envelope, now) ∷ rest) = verify_all (verify v envelope now).1 rest
