-- ===== src/Policy/Request.antt =====
-- backend/src/deskpilot/domain/policy.py: the facts of a Tool call and the decision on it.
use desk_pilot_agent.Base.{
  ℕ, String, Bool, true, false, not, ◌&&◌, ◌||◌, Option, none, some, List, [], ◌∷◌, leb, ltb, ◌==◌,
  if◌then◌else◌, is_some, length, all_of,
}
use desk_pilot_agent.Base.Json.{
  Json, flag, num, str, arr, obj, end, field, texts, codes, is_digit, is_lower, is_upper, is_sha256,
  Hashing,
}
use desk_pilot_agent.Base.Result.{Result, ok, ◌>>=◌, ◌>>◌, raise_if}
use desk_pilot_agent.Policy.Risk.{
  ToolRiskLevel, risk_value, PolicyEffect, is_require_approval, Origin, origin_value,
}
use desk_pilot_agent.Policy.Resource.{
  bad_batch_count, normalize_fact_sets, normalize_resources, PolicyResource, ValidationError,
  bad_policy_revision, bad_rule_id, bad_reason_code, bad_decision_id, bad_digest, bad_approval_ttl,
  approval_ttl_presence, resources_json, policy_resource_scope_digest,
}

pub record ToolAuthorizationRequest : Type 0 where
  pub task_id : String
  pub step_id : String
  pub call_id : String
  pub actor : String
  pub origin : Origin
  pub tool_name : String
  pub tool_version : String
  pub contract_digest : String
  pub arguments_digest : String
  pub risk_level : ToolRiskLevel
  pub side_effects : List String
  pub reversible : Bool
  pub capabilities : List String
  pub network_access : Bool
  pub data_egress : Bool
  pub resources : List PolicyResource
  pub expected_resource_versions_digest : String
  pub interactive : Bool
  pub batch_count : ℕ

unfoldable pub request_json : ToolAuthorizationRequest → Json
unfolding resources_json risk_value origin_value texts
request_json r = obj (
    field "task_id" (str r.task_id) (
      field "step_id" (str r.step_id) (
        field "call_id" (str r.call_id) (
          field "actor" (str r.actor) (
            field "origin" (str (origin_value r.origin)) (
              field "tool_name" (str r.tool_name) (
                field "tool_version" (str r.tool_version) (
                  field "contract_digest" (str r.contract_digest) (
                    field "arguments_digest" (str r.arguments_digest) (
                      field "risk_level" (str (risk_value r.risk_level)) (
                        field "side_effects" (arr (texts r.side_effects)) (
                          field "reversible" (flag r.reversible) (
                            field "capabilities" (arr (texts r.capabilities)) (
                              field "network_access" (flag r.network_access) (
                                field "data_egress" (flag r.data_egress) (
                                  field "resources" (arr (resources_json r.resources)) (
                                    field "expected_resource_versions_digest"
                                      (str r.expected_resource_versions_digest)
                                      (field "interactive" (flag r.interactive) (
                                        field "batch_count" (num r.batch_count)
                                          end)))))))))))))))))))

abbrev pub request_digest : Hashing → ToolAuthorizationRequest → String
request_digest h r = h.sha256_digest (request_json r)

abbrev pub resource_scope_digest : Hashing → ToolAuthorizationRequest → String
resource_scope_digest h r = policy_resource_scope_digest h r.resources

-- `^[A-Za-z0-9][A-Za-z0-9._:-]{0,127}$`
unfoldable pub is_policy_identifier : List ℕ → Bool
unfolding is_digit is_lower is_upper all_of
is_policy_identifier [] = false
is_policy_identifier (c ∷ cs) =
    (is_lower c || is_upper c || is_digit c) && leb (length cs) 127 && all_of tail_ok cs
  where
    tail_ok : ℕ → Bool
    tail_ok d =
        is_lower d || is_upper d || is_digit d || d == b'.' || d == b'_' || d == b':' || d == b'-'

pub record PolicyDecision : Type 0 where
  pub decision_id : String
  pub effect : PolicyEffect
  pub effective_risk : ToolRiskLevel
  pub policy_revision : String
  pub rule_id : String
  pub reason_code : String
  pub request_digest : String
  pub resource_scope_digest : String
  pub approval_ttl_seconds : Option ℕ

-- `ge=1, le=86_400` on an optional number.
unfoldable pub ttl_in_range : Option ℕ → Bool
ttl_in_range none = true
ttl_in_range (some t) = leb 1 t && leb t 86400

-- `^[A-Z][A-Z0-9_]{1,99}$`
unfoldable pub is_reason_code : List ℕ → Bool
unfolding is_digit is_upper all_of
is_reason_code [] = false
is_reason_code (c ∷ cs) = is_upper c && leb 1 (length cs) && leb (length cs) 99 && all_of tail_ok cs
  where
    tail_ok : ℕ → Bool
    tail_ok d = is_upper d || is_digit d || d == b'_'

-- What constructing a `PolicyDecision` checks. The decision ID is kept without its prefix `pdec_`,
-- so that of its pattern the 64 digits are left to test.
unfoldable pub validate_decision : PolicyDecision → Result ValidationError PolicyDecision
unfolding is_policy_identifier is_reason_code ttl_in_range codes
validate_decision d = do
  raise_if (not (is_sha256 d.decision_id)) bad_decision_id
  raise_if (not (is_policy_identifier (codes d.policy_revision))) bad_policy_revision
  raise_if (not (is_policy_identifier (codes d.rule_id))) bad_rule_id
  raise_if (not (is_reason_code (codes d.reason_code))) bad_reason_code
  raise_if (not (is_sha256 d.request_digest)) bad_digest
  raise_if (not (is_sha256 d.resource_scope_digest)) bad_digest
  raise_if (not (ttl_in_range d.approval_ttl_seconds)) bad_approval_ttl
  raise_if
      (if is_require_approval d.effect
        then not (is_some d.approval_ttl_seconds)
        else is_some d.approval_ttl_seconds)
      approval_ttl_presence
  ok d

-- `model_validate` of a `ToolAuthorizationRequest`: its fact sets and resources in normal form, and
-- the range of the batch count.
unfoldable pub validate_request :
    ToolAuthorizationRequest → Result ValidationError ToolAuthorizationRequest
validate_request r = do
  side_effects ← normalize_fact_sets r.side_effects
  capabilities ← normalize_fact_sets r.capabilities
  resources ← normalize_resources r.resources
  raise_if (ltb r.batch_count 1 || ltb 1000000 r.batch_count) bad_batch_count
  ok (record r { side_effects = side_effects; capabilities = capabilities; resources = resources })
