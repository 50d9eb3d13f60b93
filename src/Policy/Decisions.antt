-- ===== src/Policy/Decisions.antt =====
-- What the decisions of `BuiltinPolicyEngine.evaluate` guarantee.
use desk_pilot_agent.Base.{
  ℕ, ◌≤◌, ◌≡◌, refl, true, none, some, if◌then◌else◌, arith, is_some, all_of, List, [], ◌∷◌, String,
}
use desk_pilot_agent.Base.Json.{Hashing, codes, is_sha256}
use desk_pilot_agent.Base.Result.{ok}
use desk_pilot_agent.Policy.Risk.{is_require_approval}
use desk_pilot_agent.Policy.Resource.{policy_resource_scope_digest}
use desk_pilot_agent.Policy.Request.{
  ToolAuthorizationRequest, PolicyDecision, validate_decision, is_policy_identifier, is_reason_code,
  ttl_in_range,
}
use desk_pilot_agent.Policy.Engine.{Engine, create_engine, Verdict, graded, judge, built, evaluate}

validate_keeps : (d : PolicyDecision) {d' : PolicyDecision} → validate_decision d ≡ ok d' → d' ≡ d
unfolding validate_decision
validate_keeps d h = ground arith

-- A decision that is returned is the one built from the verdict.
pub evaluate_verdict :
    (h : Hashing) (e : Engine) (r : ToolAuthorizationRequest) {d : PolicyDecision}
    → evaluate h e r ≡ ok d
    → d ≡ built h e r (judge e r)
unfolding evaluate
evaluate_verdict h e r q = validate_keeps _ q

-- What `create_engine` leaves true of the approval lifetime.
pub engine_ttl :
    (e : Engine) {e' : Engine}
    → create_engine e ≡ ok e'
    → (e' ≡ e) × (1 ≤ e.approval_ttl_seconds) × (e.approval_ttl_seconds ≤ 86400)
unfolding create_engine
engine_ttl e h = ground arith

-- The lifetime of an approval stands in a verdict exactly when it asks for one.
judge_ttl :
    (e : Engine) (r : ToolAuthorizationRequest)
    → (judge e r).ttl
      ≡ (if is_require_approval (judge e r).effect then some e.approval_ttl_seconds else none)
unfolding judge graded
judge_ttl e r = ground arith

-- The rules and the reasons of the verdicts.
abbrev rule_ids : List String
rule_ids =
    "default.r0-explicit-approval" ∷ "default.r0-allow" ∷ "default.interactive-approval"
    ∷ "default.r3-explicit-approval" ∷ "default.r3-disabled" ∷ "project.r4-prohibited"
    ∷ "interaction.interactive-only" ∷ "batch.single-call-only" ∷ "origin.builtin-only"
    ∷ "capability.allowlist" ∷ "resource.capability-binding" ∷ "resource.exact-scope"
    ∷ "contract.r0-consistency" ∷ []

abbrev reason_codes : List String
reason_codes =
    "R0_APPROVAL_REQUIRED" ∷ "DEFAULT_R0_ALLOW" ∷ "APPROVAL_REQUIRED" ∷ "R3_APPROVAL_REQUIRED"
    ∷ "R3_DISABLED" ∷ "RISK_LEVEL_PROHIBITED" ∷ "NON_INTERACTIVE_NOT_SUPPORTED"
    ∷ "BATCH_NOT_SUPPORTED" ∷ "TOOL_ORIGIN_NOT_ALLOWED" ∷ "CAPABILITY_NOT_ALLOWED"
    ∷ "RESOURCE_CAPABILITY_MISMATCH" ∷ "RESOURCE_SCOPE_DENIED" ∷ "R0_CONTRACT_INCONSISTENT" ∷ []

rule_ids_fit : all_of (λ s. is_policy_identifier (codes s)) rule_ids ≡ true
unfolding all_of is_policy_identifier codes
rule_ids_fit = refl

reason_codes_fit : all_of (λ s. is_reason_code (codes s)) reason_codes ≡ true
unfolding all_of is_reason_code codes
reason_codes_fit = refl

judge_rule :
    (e : Engine) (r : ToolAuthorizationRequest)
    → is_policy_identifier (codes (judge e r).rule_id) ≡ true
unfolding judge graded all_of
judge_rule e r = ground (arith, rule_ids_fit)

judge_reason :
    (e : Engine) (r : ToolAuthorizationRequest)
    → is_reason_code (codes (judge e r).reason_code) ≡ true
unfolding judge graded all_of
judge_reason e r = ground (arith, reason_codes_fit)

validates :
    (d : PolicyDecision)
    → is_sha256 d.decision_id ≡ true
    → is_policy_identifier (codes d.rule_id) ≡ true
    → is_reason_code (codes d.reason_code) ≡ true
    → is_policy_identifier (codes d.policy_revision) ≡ true
    → is_sha256 d.request_digest ≡ true
    → is_sha256 d.resource_scope_digest ≡ true
    → ttl_in_range d.approval_ttl_seconds ≡ true
    → is_some d.approval_ttl_seconds ≡ is_require_approval d.effect
    → validate_decision d ≡ ok d
unfolding validate_decision
validates d i k n p q s t u = ground arith

ttl_valid :
    (v : Verdict) (n : ℕ)
    → 1 ≤ n
    → n ≤ 86400
    → v.ttl ≡ (if is_require_approval v.effect then some n else none)
    → (ttl_in_range v.ttl ≡ true) × (is_some v.ttl ≡ is_require_approval v.effect)
unfolding ttl_in_range
ttl_valid v n low high q = ground arith

-- For an engine that was constructed with a policy revision that matches the pattern of policy
-- identifiers, `evaluate` returns a decision on every request: the patterns of the decision's ID,
-- revision, rule, reason and digests, the range of its approval lifetime and the rule on the
-- lifetime's presence all hold of it. It carries the engine's approval lifetime exactly when its
-- effect is to require approval.
pub evaluate_total :
    (h : Hashing) (raw e : Engine) (r : ToolAuthorizationRequest)
    → create_engine raw ≡ ok e
    → is_policy_identifier (codes e.policy_revision) ≡ true
    → (d : PolicyDecision) × (evaluate h e r ≡ ok d)
      × (d.approval_ttl_seconds
          ≡ (if is_require_approval d.effect then some e.approval_ttl_seconds else none))
unfolding evaluate is_sha256 policy_resource_scope_digest
evaluate_total h raw e r c p =
    let (same, low, high) = engine_ttl raw c in
    let (range, present) =
      ttl_valid (judge e r) e.approval_ttl_seconds (rw same low) (rw same high) (judge_ttl e r) in
    let d : PolicyDecision = built h e r (judge e r) in
    (
      d,
      validates d (h.hex _) (judge_rule e r) (judge_reason e r) p (h.hex _) (h.hex _) range present,
      judge_ttl e r,
    )
