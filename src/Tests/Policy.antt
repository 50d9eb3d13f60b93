-- ===== src/Tests/Policy.antt =====
-- Runs of the policy engine and of grants.
use desk_pilot_agent.Base.{
  ◌≤◌, String, ◌≡◌, refl, ◌↔◌, ◌⊎◌, true, false, none, some, [], ◌∷◌, All, if◌then◌else◌, not, ◌||◌,
}
use mathlib.Core.List.{Mem}
use desk_pilot_agent.Base.Text.{mem, subset, same_set, texts_eq}
use desk_pilot_agent.Base.Json.{Hashing, is_sha256}
use desk_pilot_agent.Base.Result.{ok}
use desk_pilot_agent.Policy.Risk.{
  r0, r1, risk_ordinal, allow, require_approval, is_require_approval, builtin, is_builtin,
}
use desk_pilot_agent.Policy.Resource.{
  PolicyResource, scope_key, normalize_fact_sets, normalize_resources, policy_resource_scope_digest,
}
use desk_pilot_agent.Policy.Request.{ToolAuthorizationRequest, PolicyDecision}
use desk_pilot_agent.Policy.Engine.{
  Engine, create_engine, metadata_read, move_source, move_destination, scoped_operations,
  scopes_configured, disk_usage_selected, file_move_shape, move_endpoints, by_operation,
  effective_risk, resource_scope_allowed, judge, built, evaluate,
}
use desk_pilot_agent.Policy.Decisions.{evaluate_total}
use desk_pilot_agent.Policy.Verdicts.{
  IsAdmissible, IsReadOnly, AsksUser, declares_effects, evaluate-allow_iff,
  evaluate-require_approval_iff, risk-le-effective_risk,
}
use desk_pilot_agent.Policy.Scope.{IsDiskQuery, IsFileMove, resource_scope_cases}
use desk_pilot_agent.Policy.Grant.{Binding, Grant, validate_binding, validate_grant, issue}
use desk_pilot_agent.Policy.Grant.Integrity.{issue_valid}

abbrev pub digest_a : String
digest_a = "aaaaaaaaaaaaaaaaaaaaaaaaaaaaaaaaaaaaaaaaaaaaaaaaaaaaaaaaaaaaaaaa"

pub digest_a_hex : is_sha256 digest_a ≡ true
unfolding is_sha256
digest_a_hex = refl

-- A hash of one value, for runs.
abbrev pub one_digest : Hashing
one_digest = record { sha256_digest = λ _. digest_a; hex = λ _. digest_a_hex }

abbrev engine : Engine
engine = record {
  allowed_capabilities = metadata_read ∷ move_destination ∷ move_source ∷ [];
  allowed_resource_scopes = [];
  allow_user_selected_file_move = true;
  allow_user_selected_disk_usage = true;
  require_approval_for_r0 = false;
  enable_r3 = false;
  policy_revision = "builtin-tool-policy-v1";
  approval_ttl_seconds = 300;
  disk_usage_digest = "disk";
  file_move_digest = "move";
}

abbrev disk : PolicyResource
disk = record {
  kind = "filesystem_path";
  identifier = "/data";
  operations = metadata_read ∷ [];
  version_digest = none;
  display_name = none;
}

abbrev pub disk_query : ToolAuthorizationRequest
disk_query = record {
  task_id = "t";
  step_id = "s";
  call_id = "c";
  actor = "local_user";
  origin = builtin;
  tool_name = "computer.disk_usage";
  tool_version = "1.0.0";
  contract_digest = "disk";
  arguments_digest = digest_a;
  risk_level = r0;
  side_effects = [];
  reversible = false;
  capabilities = metadata_read ∷ [];
  network_access = false;
  data_egress = false;
  resources = disk ∷ [];
  expected_resource_versions_digest = digest_a;
  interactive = true;
  batch_count = 1;
}

abbrev pub source : PolicyResource
source = record {
  kind = "filesystem_path";
  identifier = "/a";
  operations = move_source ∷ [];
  version_digest = some digest_a;
  display_name = none;
}

abbrev pub destination : PolicyResource
destination = record {
  kind = "filesystem_path";
  identifier = "/b";
  operations = move_destination ∷ [];
  version_digest = none;
  display_name = none;
}

abbrev pub move : ToolAuthorizationRequest
move = record {
  task_id = "t";
  step_id = "s";
  call_id = "c";
  actor = "local_user";
  origin = builtin;
  tool_name = "file.move";
  tool_version = "1.0.0";
  contract_digest = "move";
  arguments_digest = digest_a;
  risk_level = r1;
  side_effects = "filesystem_write" ∷ [];
  reversible = true;
  capabilities = move_destination ∷ move_source ∷ [];
  network_access = false;
  data_egress = false;
  resources = source ∷ destination ∷ [];
  expected_resource_versions_digest = digest_a;
  interactive = true;
  batch_count = 1;
}

abbrev allowed : PolicyDecision
allowed = built one_digest engine disk_query (judge engine disk_query)

disk_query-allowed : evaluate one_digest engine disk_query ≡ ok allowed
unfolding evaluate subset mem same_set scoped_operations resource_scope_allowed scopes_configured
    disk_usage_selected file_move_shape texts_eq move_endpoints by_operation effective_risk
    is_sha256 policy_resource_scope_digest
disk_query-allowed = refl

evaluate-allow_iff_example : (allowed.effect ≡ allow) ↔ (
    IsAdmissible engine disk_query
    × IsReadOnly disk_query
    × (engine.require_approval_for_r0 ≡ false))
evaluate-allow_iff_example = evaluate-allow_iff one_digest engine disk_query disk_query-allowed

abbrev asked : PolicyDecision
asked = built one_digest engine move (judge engine move)

move-asked : evaluate one_digest engine move ≡ ok asked
unfolding evaluate subset mem same_set scoped_operations resource_scope_allowed scopes_configured
    disk_usage_selected file_move_shape texts_eq move_endpoints by_operation effective_risk
    is_sha256 policy_resource_scope_digest
move-asked = refl

move_effect : asked.effect ≡ require_approval
unfolding evaluate subset mem same_set scoped_operations resource_scope_allowed scopes_configured
    disk_usage_selected file_move_shape texts_eq move_endpoints by_operation effective_risk
    is_sha256 policy_resource_scope_digest
move_effect = refl

evaluate-require_approval_iff_example :
    (asked.effect ≡ require_approval) ↔ (IsAdmissible engine move × AsksUser engine move)
evaluate-require_approval_iff_example =
    evaluate-require_approval_iff one_digest engine move move-asked

risk-le-effective_risk_example :
    (risk_ordinal move.risk_level ≤ risk_ordinal asked.effective_risk)
    × (declares_effects move ≡ true → 1 ≤ risk_ordinal asked.effective_risk)
    × ((move.data_egress || not (is_builtin move.origin)) ≡ true
        → 3 ≤ risk_ordinal asked.effective_risk)
risk-le-effective_risk_example = risk-le-effective_risk one_digest engine move move-asked

evaluate_total_example :
    (d : PolicyDecision) × (evaluate one_digest engine move ≡ ok d)
    × (d.approval_ttl_seconds
        ≡ (if is_require_approval d.effect then some engine.approval_ttl_seconds else none))
unfolding create_engine evaluate subset mem same_set scoped_operations resource_scope_allowed
    scopes_configured disk_usage_selected file_move_shape texts_eq move_endpoints by_operation
    effective_risk is_sha256 policy_resource_scope_digest
evaluate_total_example = evaluate_total one_digest engine engine move refl refl

resource_scope_cases_example :
    All (λ p. Mem (scope_key p) engine.allowed_resource_scopes) move.resources
    ⊎ ((engine.allow_user_selected_disk_usage ≡ true) × IsDiskQuery engine move)
    ⊎ ((engine.allow_user_selected_file_move ≡ true) × IsFileMove engine move)
unfolding evaluate subset mem same_set scoped_operations resource_scope_allowed scopes_configured
    disk_usage_selected file_move_shape texts_eq move_endpoints by_operation effective_risk
    is_sha256 policy_resource_scope_digest
resource_scope_cases_example = resource_scope_cases engine move refl

abbrev pub binding : Binding
binding = record {
  decision_id = digest_a;
  request_digest = digest_a;
  task_id = "t";
  step_id = "s";
  call_id = "c";
  actor_id = "local_user";
  origin = builtin;
  tool_name = "file.move";
  tool_version = "1.0.0";
  contract_digest = digest_a;
  policy_revision = "p";
  rule_id = "r";
  reason_code = "OK";
  effective_risk = r1;
  arguments_digest = digest_a;
  resource_scope_digest = digest_a;
  expected_resource_versions_digest = digest_a;
  capabilities = "b" ∷ "a" ∷ "b" ∷ [];
  network_access = false;
  data_egress = false;
  side_effects = "filesystem_write" ∷ [];
  reversible = true;
  resources = destination ∷ source ∷ [];
  interactive = true;
  batch_count = 1;
  approval_id = some "ap";
  preview_hash = some digest_a;
  approved_at = some 5;
  grant_expires_at = some 9;
}

abbrev normal : Binding
normal = record binding { capabilities = "a" ∷ "b" ∷ []; resources = source ∷ destination ∷ [] }

binding_normal : validate_binding one_digest binding ≡ ok normal
unfolding validate_binding normalize_fact_sets normalize_resources policy_resource_scope_digest
binding_normal = refl

abbrev sealed : Grant
sealed = record { binding = normal; authorization_id = digest_a }

issue_valid_example :
    (issue one_digest binding ≡ ok sealed) × (validate_grant one_digest sealed ≡ ok sealed)
issue_valid_example = issue_valid one_digest binding normal binding_normal

abbrev other : Grant
other = record { binding = record normal { effective_risk = r0 }; authorization_id = digest_a }

resources_sorted : normalize_resources (destination ∷ source ∷ []) ≡ ok (source ∷ destination ∷ [])
unfolding normalize_resources
resources_sorted = refl
