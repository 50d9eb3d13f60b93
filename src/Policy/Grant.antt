-- ===== src/Policy/Grant.antt =====
-- backend/src/deskpilot/domain/policy.py: the Runner authorization grant. A grant is its binding
-- and an ID that is a digest of the binding; times are numbers (microseconds).
pub mod Integrity
use desk_pilot_agent.Base.{
  ℕ, String, Bool, true, false, not, ◌&&◌, ◌||◌, Option, none, some, List, [], ◌∷◌, ltb,
  if◌then◌else◌, is_some,
}
use desk_pilot_agent.Base.Text.{str_eq}
use desk_pilot_agent.Base.Json.{
  Json, null, flag, num, str, arr, obj, end, field, texts, opt_text, opt_num, Hashing,
}
use desk_pilot_agent.Base.Result.{Result, ok, err, ◌>>=◌, ◌>>◌, raise_if}
use desk_pilot_agent.Policy.Risk.{ToolRiskLevel, risk_value, Origin, origin_value}
use desk_pilot_agent.Policy.Resource.{
  PolicyResource, ValidationError, partial_approval, approval_after_expiry, scope_mismatch,
  id_mismatch, resources_json, policy_resource_scope_digest, normalize_fact_sets,
  normalize_resources,
}

-- `_ToolAuthorizationGrantBinding`. Its `effect` is the constant `allow`.
pub record Binding : Type 0 where
  pub decision_id : String
  pub request_digest : String
  pub task_id : String
  pub step_id : String
  pub call_id : String
  pub actor_id : String
  pub origin : Origin
  pub tool_name : String
  pub tool_version : String
  pub contract_digest : String
  pub policy_revision : String
  pub rule_id : String
  pub reason_code : String
  pub effective_risk : ToolRiskLevel
  pub arguments_digest : String
  pub resource_scope_digest : String
  pub expected_resource_versions_digest : String
  pub capabilities : List String
  pub network_access : Bool
  pub data_egress : Bool
  pub side_effects : List String
  pub reversible : Bool
  pub resources : List PolicyResource
  pub interactive : Bool
  pub batch_count : ℕ
  pub approval_id : Option String
  pub preview_hash : Option String
  pub approved_at : Option ℕ
  pub grant_expires_at : Option ℕ

-- All four approval fields, or any of them.
unfoldable pub has_approval : Binding → Bool
has_approval b =
    is_some b.approval_id
    && is_some b.preview_hash
    && is_some b.approved_at
    && is_some b.grant_expires_at

unfoldable pub any_approval : Binding → Bool
any_approval b =
    is_some b.approval_id
    || is_some b.preview_hash
    || is_some b.approved_at
    || is_some b.grant_expires_at

-- `approved_at > grant_expires_at`, where both are given
unfoldable pub later_than : Option ℕ → Option ℕ → Bool
later_than (some a) (some b) = ltb b a
later_than _ _ = false

-- `validate_approval_binding`
unfoldable pub check_approval : Hashing → Binding → Result ValidationError (Unit {0})
unfolding has_approval any_approval later_than
check_approval h b = do
  raise_if (any_approval b && not (has_approval b)) partial_approval
  raise_if (later_than b.approved_at b.grant_expires_at) approval_after_expiry
  raise_if (not (str_eq b.resource_scope_digest (policy_resource_scope_digest h b.resources)))
      scope_mismatch
  ok tt

-- `model_validate` of a binding: its field validators, then its model validator.
unfoldable pub validate_binding : Hashing → Binding → Result ValidationError Binding
unfolding check_approval
validate_binding h b = do
  capabilities ← normalize_fact_sets b.capabilities
  side_effects ← normalize_fact_sets b.side_effects
  resources ← normalize_resources b.resources
  let normal = record b {
    capabilities = capabilities;
    side_effects = side_effects;
    resources = resources;
  }
  check_approval h normal
  ok normal

-- `model_dump(mode="json")` of a binding.
unfoldable pub binding_json : Binding → Json
unfolding risk_value origin_value opt_text opt_num
binding_json b = obj (
    field "decision_id" (str b.decision_id) (
      field "request_digest" (str b.request_digest) (
        field "task_id" (str b.task_id) (
          field "step_id" (str b.step_id) (
            field "call_id" (str b.call_id) (
              field "actor_id" (str b.actor_id) (
                field "origin" (str (origin_value b.origin)) (
                  field "tool_name" (str b.tool_name) (
                    field "tool_version" (str b.tool_version) (
                      field "contract_digest" (str b.contract_digest) (
                        field "policy_revision" (str b.policy_revision) (
                          field "rule_id" (str b.rule_id) (
                            field "reason_code" (str b.reason_code) (
                              field "effect" (str "allow") (
                                field "effective_risk" (str (risk_value b.effective_risk)) (
                                  field "arguments_digest" (str b.arguments_digest) (
                                    field "resource_scope_digest" (str b.resource_scope_digest) (
                                      field "expected_resource_versions_digest"
                                        (str b.expected_resource_versions_digest)
                                        (field "capabilities" (arr (texts b.capabilities)) (
                                          field "network_access" (flag b.network_access) (
                                            field "data_egress" (flag b.data_egress) (
                                              field "side_effects" (arr (texts b.side_effects)) (
                                                field "reversible" (flag b.reversible) (
                                                  field "resources"
                                                    (arr (resources_json b.resources))
                                                    (field "interactive" (flag b.interactive) (
                                                      field "batch_count" (num b.batch_count) (
                                                        field "approval_id" (opt_text b.approval_id)
                                                          (field "preview_hash"
                                                            (opt_text b.preview_hash)
                                                            (field "approved_at"
                                                            (opt_num b.approved_at)
                                                            (field "grant_expires_at"
                                                            (opt_num b.grant_expires_at)
                                                            end))))))))))))))))))))))))))))))

-- `ToolAuthorizationGrant`. The ID is kept without its fixed prefix `auth_`.
pub record Grant : Type 0 where
  pub binding : Binding
  pub open binding use *
  pub authorization_id : String

unfoldable pub expected_authorization_id : Hashing → Grant → String
expected_authorization_id h g = h.sha256_digest (binding_json g.binding)

-- Construction of a grant: its fields, then `validate_authorization_id`.
unfoldable pub validate_grant : Hashing → Grant → Result ValidationError Grant
unfolding expected_authorization_id
validate_grant h g = do
  binding ← validate_binding h g.binding
  let grant : Grant = record { binding = binding; authorization_id = g.authorization_id }
  raise_if (not (str_eq g.authorization_id (expected_authorization_id h grant))) id_mismatch
  ok grant

-- `issue`
unfoldable pub issue : Hashing → Binding → Result ValidationError Grant
unfolding validate_grant
issue h data_given = do
  binding ← validate_binding h data_given
  validate_grant h
      (record { binding = binding; authorization_id = h.sha256_digest (binding_json binding) })
