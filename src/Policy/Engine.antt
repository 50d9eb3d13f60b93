-- ===== src/Policy/Engine.antt =====
-- backend/src/deskpilot/application/policy_engine.py: `BuiltinPolicyEngine`.
use desk_pilot_agent.Base.{
  ℕ, String, Bool, true, false, not, ◌&&◌, ◌||◌, Option, none, some, List, [], ◌∷◌, ◌++◌, leb, ◌==◌,
  if◌then◌else◌, is_some, any_of, all_of,
}
use desk_pilot_agent.Base.Text.{str_eq, mem, subset, same_set, texts_eq}
use desk_pilot_agent.Base.Json.{Json, str, obj, end, field, opt_num, codes, Hashing}
use desk_pilot_agent.Base.Result.{Result, ok, ◌>>◌, raise_if}
use desk_pilot_agent.Policy.Risk.{
  ToolRiskLevel, r0, r1, r2, r3, r4, risk_is, max_risk, risk_value, PolicyEffect, allow, deny,
  require_approval, effect_value, is_builtin,
}
use desk_pilot_agent.Policy.Resource.{PolicyResource, ValidationError, scope_key, same_scope_key}
use desk_pilot_agent.Policy.Request.{
  ToolAuthorizationRequest, PolicyDecision, request_digest, resource_scope_digest,
  validate_decision,
}

-- `BuiltinPolicyEngine`: its private fields. The digests are those of the two contracts that the
-- engine knows, `FILE_MOVE_CONTRACT.digest` and `DISK_USAGE_CONTRACT.digest`.
pub record Engine : Type 0 where
  pub allowed_capabilities : List String
  pub allowed_resource_scopes : List (String × String)
  pub allow_user_selected_file_move : Bool
  pub allow_user_selected_disk_usage : Bool
  pub require_approval_for_r0 : Bool
  pub enable_r3 : Bool
  pub policy_revision : String
  pub approval_ttl_seconds : ℕ
  pub disk_usage_digest : String
  pub file_move_digest : String

pub data EngineError : Type 0 where
  empty_capability empty_scope bad_ttl : EngineError

is_empty : String → Bool
unfolding codes
is_empty s = str_eq s ""

-- The checks of `__init__`.
unfoldable pub create_engine : Engine → Result EngineError Engine
unfolding is_empty any_of
create_engine e = do
  raise_if (any_of is_empty e.allowed_capabilities) empty_capability
  raise_if (any_of (λ s. is_empty s.0 || is_empty s.1) e.allowed_resource_scopes) empty_scope
  raise_if (not (leb 1 e.approval_ttl_seconds && leb e.approval_ttl_seconds 86400)) bad_ttl
  ok e

abbrev pub metadata_read : String
metadata_read = "filesystem.metadata.read"

abbrev pub move_source : String
move_source = "filesystem.file.move_source"

abbrev pub move_destination : String
move_destination = "filesystem.file.move_destination"

unfoldable pub no_texts : List String → Bool
no_texts [] = true
no_texts (_ ∷ _) = false

-- `_effective_risk`
unfoldable pub effective_risk : ToolAuthorizationRequest → ToolRiskLevel
unfolding no_texts
effective_risk r =
    if risk_is r.risk_level r4
    then r4
    else if r.data_egress || not (is_builtin r.origin)
    then r3
    else if r.network_access || not (no_texts r.side_effects) || r.reversible
    then max_risk r.risk_level r1
    else r.risk_level

-- The operations that the resources grant.
unfoldable pub scoped_operations : List PolicyResource → List String
scoped_operations [] = []
scoped_operations (r ∷ rs) = r.operations ++ scoped_operations rs

-- Every resource is in the configured scopes.
unfoldable pub scopes_configured : Engine → List PolicyResource → Bool
unfolding all_of any_of same_scope_key
scopes_configured e rs =
    all_of (λ r. any_of (λ s. same_scope_key (scope_key r) s) e.allowed_resource_scopes) rs

-- `len(resources) == 1`, and the kind and operations of the one resource.
unfoldable pub one_path : List PolicyResource → Bool
one_path (r ∷ []) = str_eq r.kind "filesystem_path" && texts_eq r.operations (metadata_read ∷ [])
one_path _ = false

-- The second `if` of `_resource_scope_allowed`.
unfoldable pub disk_usage_selected : Engine → ToolAuthorizationRequest → Bool
unfolding one_path no_texts
disk_usage_selected e r =
    e.allow_user_selected_disk_usage
    && str_eq r.actor "local_user"
    && (str_eq r.tool_name "computer.disk_usage" && str_eq r.tool_version "1.0.0")
    && str_eq r.contract_digest e.disk_usage_digest
    && risk_is r.risk_level r0
    && texts_eq r.capabilities (metadata_read ∷ [])
    && one_path r.resources
    && no_texts r.side_effects
    && not r.reversible
    && not r.network_access
    && not r.data_egress

-- `resources_by_operation.get(operation)`: a later resource replaces an earlier one.
unfoldable pub by_operation : String → List PolicyResource → Option PolicyResource
unfolding mem
by_operation op [] = none
by_operation op (r ∷ rs) =
    let rest = by_operation op rs in
    if is_some rest then rest else if mem op r.operations then some r else none

unfoldable pub is_two : List PolicyResource → Bool
is_two (_ ∷ _ ∷ []) = true
is_two _ = false

-- The guard of the move: the negation of the third `if` of `_resource_scope_allowed`.
unfoldable pub file_move_shape : Engine → ToolAuthorizationRequest → Bool
unfolding is_two
file_move_shape e r =
    str_eq r.actor "local_user"
    && (str_eq r.tool_name "file.move" && str_eq r.tool_version "1.0.0")
    && str_eq r.contract_digest e.file_move_digest
    && risk_is r.risk_level r1
    && texts_eq r.side_effects ("filesystem_write" ∷ [])
    && r.reversible
    && not r.network_access
    && not r.data_egress
    && r.interactive
    && r.batch_count == 1
    && texts_eq r.capabilities (move_destination ∷ move_source ∷ [])
    && is_two r.resources

-- The final `return`. A `none` is the `KeyError` of the lookup, which the test of the key set
-- before it excludes.
unfoldable pub move_endpoints : Option PolicyResource → Option PolicyResource → Bool
move_endpoints (some source) (some destination) =
    str_eq source.kind "filesystem_path"
    && str_eq destination.kind "filesystem_path"
    && not (str_eq source.identifier destination.identifier)
    && texts_eq source.operations (move_source ∷ [])
    && texts_eq destination.operations (move_destination ∷ [])
    && is_some source.version_digest
    && not (is_some destination.version_digest)
move_endpoints _ _ = false

-- `_resource_scope_allowed`
unfoldable pub resource_scope_allowed : Engine → ToolAuthorizationRequest → Bool
resource_scope_allowed e r =
    if scopes_configured e r.resources
    then true
    else if disk_usage_selected e r
    then true
    else if not e.allow_user_selected_file_move
    then false
    else if not (file_move_shape e r)
    then false
    else if not (same_set (scoped_operations r.resources) r.capabilities)
    then false
    else move_endpoints (by_operation move_source r.resources)
        (by_operation move_destination r.resources)

-- What one `return self._decision(...)` passes on.
pub record Verdict : Type 0 where
  pub effect : PolicyEffect
  pub risk : ToolRiskLevel
  pub rule_id : String
  pub reason_code : String
  pub ttl : Option ℕ

abbrev pub verdict : PolicyEffect → ToolRiskLevel → String → String → Option ℕ → Verdict
verdict effect risk rule_id reason_code ttl = record {
  effect = effect;
  risk = risk;
  rule_id = rule_id;
  reason_code = reason_code;
  ttl = ttl;
}

-- The branches of `evaluate` behind the deny rules, by the effective risk.
unfoldable pub graded : Engine → ToolRiskLevel → Verdict
graded e risk =
    let ttl = some e.approval_ttl_seconds in
    if risk_is risk r0
    then if e.require_approval_for_r0
      then verdict require_approval risk "default.r0-explicit-approval" "R0_APPROVAL_REQUIRED" ttl
      else verdict allow risk "default.r0-allow" "DEFAULT_R0_ALLOW" none
    else if risk_is risk r1 || risk_is risk r2
    then verdict require_approval risk "default.interactive-approval" "APPROVAL_REQUIRED" ttl
    else if risk_is risk r3 && e.enable_r3
    then verdict require_approval risk "default.r3-explicit-approval" "R3_APPROVAL_REQUIRED" ttl
    else verdict deny risk "default.r3-disabled" "R3_DISABLED" none

-- The branches of `evaluate`, in their order.
unfoldable pub judge : Engine → ToolAuthorizationRequest → Verdict
unfolding graded
judge e r =
    let risk = effective_risk r in
    if risk_is r.risk_level r4
    then verdict deny r4 "project.r4-prohibited" "RISK_LEVEL_PROHIBITED" none
    else if not r.interactive
    then verdict deny risk "interaction.interactive-only" "NON_INTERACTIVE_NOT_SUPPORTED" none
    else if not (r.batch_count == 1)
    then verdict deny risk "batch.single-call-only" "BATCH_NOT_SUPPORTED" none
    else if not (is_builtin r.origin)
    then verdict deny risk "origin.builtin-only" "TOOL_ORIGIN_NOT_ALLOWED" none
    else if not (subset r.capabilities e.allowed_capabilities)
    then verdict deny risk "capability.allowlist" "CAPABILITY_NOT_ALLOWED" none
    else if not (same_set (scoped_operations r.resources) r.capabilities)
    then verdict deny risk "resource.capability-binding" "RESOURCE_CAPABILITY_MISMATCH" none
    else if not (resource_scope_allowed e r)
    then verdict deny risk "resource.exact-scope" "RESOURCE_SCOPE_DENIED" none
    else if risk_is r.risk_level r0
        && (not (no_texts r.side_effects) || r.reversible || r.network_access || r.data_egress)
    then verdict deny risk "contract.r0-consistency" "R0_CONTRACT_INCONSISTENT" none
    else graded e risk

-- The facts that the decision ID covers.
unfoldable pub decision_facts : Hashing → Engine → ToolAuthorizationRequest → Verdict → Json
unfolding effect_value risk_value opt_num
decision_facts h e r v = obj (
    field "request_digest" (str (request_digest h r)) (
      field "resource_scope_digest" (str (resource_scope_digest h r)) (
        field "effect" (str (effect_value v.effect)) (
          field "effective_risk" (str (risk_value v.risk)) (
            field "policy_revision" (str e.policy_revision) (
              field "rule_id" (str v.rule_id) (
                field "reason_code" (str v.reason_code)
                  (field "approval_ttl_seconds" (opt_num v.ttl) end))))))))

-- The `PolicyDecision` that `_decision` constructs. `decision_id` is kept without its fixed prefix
-- `pdec_`.
abbrev pub built : Hashing → Engine → ToolAuthorizationRequest → Verdict → PolicyDecision
built h e r v = record {
  decision_id = h.sha256_digest (decision_facts h e r v);
  effect = v.effect;
  effective_risk = v.risk;
  policy_revision = e.policy_revision;
  rule_id = v.rule_id;
  reason_code = v.reason_code;
  request_digest = request_digest h r;
  resource_scope_digest = resource_scope_digest h r;
  approval_ttl_seconds = v.ttl;
}

-- `_decision`
unfoldable pub decision :
    Hashing → Engine → ToolAuthorizationRequest → Verdict → Result ValidationError PolicyDecision
unfolding decision_facts validate_decision
decision h e r v = validate_decision (built h e r v)

-- `evaluate`
unfoldable pub evaluate :
    Hashing → Engine → ToolAuthorizationRequest → Result ValidationError PolicyDecision
unfolding judge decision
evaluate h e r = decision h e r (judge e r)
