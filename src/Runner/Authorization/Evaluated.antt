-- ===== src/Runner/Authorization/Evaluated.antt =====
-- The call that runs is the call that the policy evaluated.
use desk_pilot_agent.Base.{◌≡◌}
use desk_pilot_agent.Base.Json.{Hashing}
use desk_pilot_agent.Policy.Request.{ToolAuthorizationRequest}
use desk_pilot_agent.Runner.Registry.{Registry}
use desk_pilot_agent.Runner.Authorization.{
  AuthorizedToolCall, arguments_digest_of, versions_digest_of,
}

-- The evaluated request states the facts of the call.
pub record IsSameCall (h : Hashing) (r : ToolAuthorizationRequest) (c : AuthorizedToolCall)
    : Type 0 where
  pub task : r.task_id ≡ c.request.task_id
  pub step : r.step_id ≡ c.request.step_id
  pub call : r.call_id ≡ c.request.call_id
  pub actor : r.actor ≡ c.request.actor
  pub tool : r.tool_name ≡ c.request.tool_name
  pub version : r.tool_version ≡ c.request.tool_version
  pub arguments : r.arguments_digest ≡ arguments_digest_of h c.request
  pub versions : r.expected_resource_versions_digest ≡ versions_digest_of h c.request
  pub risk : r.risk_level ≡ c.registration.contract.risk_level
  pub reversible : r.reversible ≡ c.registration.contract.reversible
  pub network : r.network_access ≡ c.registration.contract.security.network_access
  pub egress : r.data_egress ≡ c.request.authorization.data_egress
  pub resources : r.resources ≡ c.request.authorization.resources
