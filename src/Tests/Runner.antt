-- ===== src/Tests/Runner.antt =====
-- Runs of the message verifier and of the authorization of Tool calls.
use desk_pilot_agent.Base.{String}
use desk_pilot_agent.Runner.Registry.{register}
use desk_pilot_agent.Runner.Registry.Lookup.{register-resolve}
use desk_pilot_agent.Base.{◌≤◌, ◌≡◌, refl, ◌≢◌, ◌↔◌, true, false, none, some, [], ◌∷◌, arith}
use desk_pilot_agent.Base.Text.{texts_eq, sorted_set}
use desk_pilot_agent.Base.Json.{obj, end}
use desk_pilot_agent.Base.Result.{ok}
use desk_pilot_agent.Policy.Risk.{r1, risk_ordinal}
use desk_pilot_agent.Policy.Resource.{
  PolicyResource, normalize_fact_sets, normalize_resources, policy_resource_scope_digest,
  resources_eq, resource_eq,
}
use desk_pilot_agent.Policy.Request.{validate_request}
use desk_pilot_agent.Policy.Engine.{move_source, move_destination, scoped_operations}
use desk_pilot_agent.Policy.Grant.{Grant, expected_authorization_id, has_approval}
use desk_pilot_agent.Runner.Ipc.{
  TimedCommand, ToolCallRequest, IpcPayload, tool_call, startup_nonce_of, timed_of,
  SignedIpcEnvelope, Verifier, verify, verify_all,
}
use desk_pilot_agent.Runner.Ipc.Replay.{no_second_acceptance}
use desk_pilot_agent.Runner.Ipc.Acceptance.{TimedFresh, verify_ok_iff}
use desk_pilot_agent.Runner.Registry.{
  non_idempotent, brokered, ToolContract, ToolRegistration, Registry, resolve,
}
use desk_pilot_agent.Runner.Authorization.{
  AuthorizedToolCall, authorize, check_call, reconstructed_request, grant_binds, facts_agree,
}
use desk_pilot_agent.Runner.Authorization.Sound.{IsBound, HasApproval, authorize_sound}
use desk_pilot_agent.Tests.Policy.{digest_a, one_digest, binding, source, destination}

abbrev call_grant : Grant
call_grant = record {
  binding = record binding {
    capabilities = move_destination ∷ move_source ∷ [];
    resources = source ∷ destination ∷ [];
  };
  authorization_id = digest_a;
}

abbrev call : ToolCallRequest
call = record {
  timed = record { issued_at = 6; expires_at = 8; nonce = "n"; startup_nonce = "boot" };
  call_id = "c";
  task_id = "t";
  step_id = "s";
  tool_name = "file.move";
  tool_version = "1.0.0";
  contract_digest = digest_a;
  arguments = end;
  actor = "local_user";
  idempotency_key = none;
  expected_resource_versions = end;
  authorization = call_grant;
}

abbrev envelope : SignedIpcEnvelope
envelope = record { key_id = "k"; payload = tool_call call; signature = "mac" }

abbrev verifier : Verifier
verifier = record {
  key_id = "k";
  signature_for = λ _. "mac";
  startup_nonce = "boot";
  max_command_ttl = 5;
  clock_skew = 0;
  guard = [];
}

abbrev contract : ToolContract
contract = record {
  name = "file.move";
  version = "1.0.0";
  description = "Move a file";
  risk_level = r1;
  side_effects = "filesystem_write" ∷ [];
  reversible = true;
  input_schema = obj end;
  output_schema = obj end;
  execution = record {
    timeout_seconds = 30;
    idempotency = non_idempotent;
    max_output_bytes = 1024;
    resource_locks = [];
    commit_protocol = brokered;
  };
  security = record {
    capabilities = move_destination ∷ move_source ∷ [];
    network_access = false;
    supports_dry_run = false;
  };
}

abbrev registration : ToolRegistration
registration = record {
  contract = contract;
  input_schema = obj end;
  output_schema = obj end;
  input_model = λ fields. some (obj fields);
  output_model = λ fields. some (obj fields);
  resource_projector = λ _. some (source ∷ destination ∷ []);
}

abbrev tools : Registry
tools = registration ∷ []

abbrev authorized : AuthorizedToolCall
authorized = record { request = call; registration = registration; arguments = obj end }

first_accepted : (verify verifier envelope 7).0 ≡ ok (tool_call call)
unfolding verify desk_pilot_agent.Runner.Ipc.consume
first_accepted = refl

no_second_acceptance_example :
    (verify (verify_all (verify verifier envelope 7).1 ((envelope, 7) ∷ [])) envelope 7).0
    ≢ ok (tool_call call)
unfolding timed_of
no_second_acceptance_example =
    no_second_acceptance verifier envelope envelope call.timed call.timed ((envelope, 7) ∷ []) 7 7
      (tool_call call) (tool_call call) refl refl refl (ground arith) first_accepted
      (ground arith, ground arith)

verify_ok_iff_example : ((verify verifier envelope 7).0 ≡ ok envelope.payload) ↔ (
    (envelope.key_id ≡ verifier.key_id)
    × (envelope.signature ≡ verifier.signature_for envelope.payload)
    × (startup_nonce_of envelope.payload ≡ verifier.startup_nonce)
    × TimedFresh verifier (timed_of envelope.payload) 7)
verify_ok_iff_example = verify_ok_iff verifier envelope 7

call_authorized : (authorize one_digest tools verifier envelope 7).0 ≡ ok authorized
unfolding authorize verify desk_pilot_agent.Runner.Ipc.consume resolve
    desk_pilot_agent.Runner.Registry.contract_digest desk_pilot_agent.Runner.Registry.validate_input
    desk_pilot_agent.Runner.Registry.project_resources reconstructed_request validate_request
    normalize_fact_sets normalize_resources policy_resource_scope_digest grant_binds
    expected_authorization_id resources_eq facts_agree scoped_operations
    desk_pilot_agent.Runner.Authorization.check_approval has_approval sorted_set texts_eq
    desk_pilot_agent.Policy.Resource.sort_resources desk_pilot_agent.Policy.Resource.unique_keys
    check_call
call_authorized = refl

authorize_sound_example :
    (resolve tools "file.move" "1.0.0" ≡ ok registration)
    × IsBound one_digest authorized
    × (1 ≤ risk_ordinal call_grant.effective_risk)
    × (1 ≤ risk_ordinal call_grant.effective_risk → HasApproval call_grant 7)
authorize_sound_example =
    authorize_sound one_digest tools verifier envelope 7 authorized call_authorized

tool_registered : register (λ _ _. true) [] registration ≡ ok tools
unfolding register
tool_registered = refl

register-resolve_example :
    (resolve tools "file.move" "1.0.0" ≡ ok registration)
    × ((name version : String) (s : ToolRegistration)
        → resolve [] name version ≡ ok s
        → resolve tools name version ≡ ok s)
register-resolve_example = register-resolve (λ _ _. true) [] registration tools tool_registered
