-- ===== src/Runner/Authorization.antt =====
-- backend/src/deskpilot/runner/authorization.py: `ToolCallAuthorizer`.
pub mod Steps
pub mod Sound
pub mod Evaluated
use desk_pilot_agent.Base.{
  ℕ, String, Bool, true, false, not, ◌&&◌, ◌||◌, Option, none, some, List, [], ◌∷◌, ltb, leb,
  if◌then◌else◌, is_some,
}
use desk_pilot_agent.Base.Text.{str_eq, texts_eq, sorted_set}
use desk_pilot_agent.Base.Json.{Json, obj, Hashing}
use desk_pilot_agent.Base.Result.{Result, ok, err, ◌>>=◌, ◌>>◌, raise_if}
use desk_pilot_agent.Policy.Risk.{ToolRiskLevel, r0, risk_is, risk_ordinal, max_risk, is_builtin}
use desk_pilot_agent.Policy.Resource.{PolicyResource, ValidationError, resources_eq}
use desk_pilot_agent.Policy.Request.{
  ToolAuthorizationRequest, request_digest, resource_scope_digest, validate_request,
}
use desk_pilot_agent.Policy.Engine.{scoped_operations}
use desk_pilot_agent.Policy.Grant.{Grant, has_approval, expected_authorization_id}
use desk_pilot_agent.Runner.Ipc.{
  ToolCallRequest, IpcPayload, tool_call, SignedIpcEnvelope, IpcError, unexpected_message, Verifier,
  verify,
}
use desk_pilot_agent.Runner.Registry.{
  ToolContract, ToolRegistration, RegistryError, Registry, needs_key, contract_digest, resolve,
  validate_input, project_resources,
}

pub data AuthorizationError : Type 0 where
  ipc : IpcError → AuthorizationError
  registry : RegistryError → AuthorizationError
  contract_mismatch key_missing grant_mismatch facts_mismatch : AuthorizationError
  risk_lowered approval_missing approval_in_future approval_expired : AuthorizationError

pub record AuthorizedToolCall : Type 0 where
  pub request : ToolCallRequest
  pub registration : ToolRegistration
  pub arguments : Json

from_registry {ℓ} : {A : Type ℓ} → Result RegistryError A → Result AuthorizationError A
from_registry (ok a) = ok a
from_registry (err e) = err (registry e)

-- A `ValidationError` of the reconstruction is a mismatch.
from_validation {ℓ} : {A : Type ℓ} → Result ValidationError A → Result AuthorizationError A
from_validation (ok a) = ok a
from_validation (err e) = err grant_mismatch

abbrev pub arguments_digest_of : Hashing → ToolCallRequest → String
arguments_digest_of h p = h.sha256_digest (obj p.arguments)

abbrev pub versions_digest_of : Hashing → ToolCallRequest → String
versions_digest_of h p = h.sha256_digest (obj p.expected_resource_versions)

-- The request as `_reconstructed_request` states it, before validation.
abbrev pub restated :
    Hashing → ToolCallRequest → ToolContract → List PolicyResource → ToolAuthorizationRequest
restated h p contract resources = record {
  task_id = p.task_id;
  step_id = p.step_id;
  call_id = p.call_id;
  actor = p.actor;
  origin = p.authorization.origin;
  tool_name = p.tool_name;
  tool_version = p.tool_version;
  contract_digest = p.contract_digest;
  arguments_digest = arguments_digest_of h p;
  risk_level = contract.risk_level;
  side_effects = contract.side_effects;
  reversible = contract.reversible;
  capabilities = contract.security.capabilities;
  network_access = contract.security.network_access;
  data_egress = p.authorization.data_egress;
  resources = resources;
  expected_resource_versions_digest = versions_digest_of h p;
  interactive = p.authorization.interactive;
  batch_count = p.authorization.batch_count;
}

-- `_reconstructed_request`
unfoldable pub reconstructed_request :
    Hashing
    → ToolCallRequest
    → ToolContract
    → List PolicyResource
    → Result AuthorizationError ToolAuthorizationRequest
unfolding from_validation
reconstructed_request h p contract resources = do
  request ← from_validation (validate_request (restated h p contract resources))
  raise_if (not (str_eq (resource_scope_digest h request) p.authorization.resource_scope_digest))
      grant_mismatch
  ok request

-- The first long test of `authorize`, negated: the grant is bound to this call.
unfoldable pub grant_binds : Hashing → ToolCallRequest → ToolAuthorizationRequest → Bool
grant_binds h p request =
    let a = p.authorization in
    str_eq a.authorization_id (expected_authorization_id h a)
    && str_eq a.request_digest (request_digest h request)
    && str_eq a.task_id p.task_id
    && str_eq a.step_id p.step_id
    && str_eq a.call_id p.call_id
    && str_eq a.actor_id p.actor
    && str_eq a.tool_name p.tool_name
    && str_eq a.tool_version p.tool_version
    && str_eq a.contract_digest p.contract_digest
    && str_eq a.arguments_digest (arguments_digest_of h p)
    && str_eq a.expected_resource_versions_digest (versions_digest_of h p)
    && resources_eq a.resources request.resources

same_flag : Bool → Bool → Bool
same_flag true b = b
same_flag false b = not b

-- The second long test, negated: the facts of the grant are those of the contract.
unfoldable pub facts_agree : Grant → ToolContract → Bool
unfolding same_flag
facts_agree a contract =
    let capabilities = sorted_set contract.security.capabilities in
    is_builtin a.origin
    && texts_eq a.capabilities capabilities
    && texts_eq (sorted_set (scoped_operations a.resources)) capabilities
    && same_flag a.network_access contract.security.network_access
    && texts_eq a.side_effects (sorted_set contract.side_effects)
    && same_flag a.reversible contract.reversible
    && not (a.data_egress && not a.network_access)

-- `value > now`, `value <= now`, where the value is given
unfoldable pub after_now : Option ℕ → ℕ → Bool
after_now none now = false
after_now (some t) now = ltb now t

unfoldable pub up_to_now : Option ℕ → ℕ → Bool
up_to_now none now = false
up_to_now (some t) now = leb t now

-- The checks of risk, approval and time that end `authorize`.
unfoldable pub check_approval : Grant → ToolContract → ℕ → Result AuthorizationError (Unit {0})
unfolding after_now up_to_now
check_approval a contract now = do
  raise_if (ltb (risk_ordinal a.effective_risk) (risk_ordinal contract.risk_level)) risk_lowered
  raise_if
      (not (risk_is (max_risk contract.risk_level a.effective_risk) r0)
        && not (has_approval a.binding))
      approval_missing
  raise_if (after_now a.approved_at now) approval_in_future
  raise_if (up_to_now a.grant_expires_at now) approval_expired
  ok tt

-- `authorize`, from the verified payload on.
unfoldable pub check_call :
    Hashing → Registry → ℕ → ToolCallRequest → Result AuthorizationError AuthorizedToolCall
unfolding from_registry
check_call h tools now p = do
  registration ← from_registry (resolve tools p.tool_name p.tool_version)
  let contract = registration.contract
  raise_if (not (str_eq p.contract_digest (contract_digest h contract))) contract_mismatch
  raise_if (needs_key contract.execution.idempotency && not (is_some p.idempotency_key)) key_missing
  arguments ← from_registry (validate_input tools p.tool_name p.tool_version p.arguments)
  resources ← from_registry (project_resources tools p.tool_name p.tool_version arguments)
  request ← reconstructed_request h p contract resources
  raise_if (not (grant_binds h p request)) grant_mismatch
  raise_if (not (facts_agree p.authorization contract)) facts_mismatch
  check_approval p.authorization contract now
  ok (record { request = p; registration = registration; arguments = arguments })

-- Only a `tool.call` is accepted.
unfoldable pub accept :
    Hashing
    → Registry
    → ℕ
    → Result IpcError IpcPayload
    → Result AuthorizationError AuthorizedToolCall
unfolding check_call
accept h tools now (err e) = err (ipc e)
accept h tools now (ok (tool_call p)) = check_call h tools now p
accept h tools now (ok _) = err (ipc unexpected_message)

-- `authorize`: the result, and the verifier with the nonce consumed.
unfoldable pub authorize :
    Hashing
    → Registry
    → Verifier
    → SignedIpcEnvelope
    → ℕ
    → Result AuthorizationError AuthorizedToolCall × Verifier
unfolding accept
authorize h tools v envelope now = let (r, v') = verify v envelope now in (accept h tools now r, v')
