-- ===== src/Policy/Verdicts.antt =====
-- Which requests `BuiltinPolicyEngine.evaluate` lets run at once, and which ask the user.
use desk_pilot_agent.Base.{
  ◌≤◌, String, ◌≡◌, ◌↔◌, ◌⊎◌, Bool, true, false, not, ◌&&◌, ◌||◌, none, [], ◌==◌, if◌then◌else◌,
  arith, ap,
}
use desk_pilot_agent.Base.Text.{mem, subset, same_set}
use desk_pilot_agent.Base.Text.Sets.{subset_iff, same_set_iff}
use desk_pilot_agent.Base.Json.{Hashing}
use desk_pilot_agent.Base.Result.{ok}
use desk_pilot_agent.Policy.Risk.{
  ToolRiskLevel, r0, r1, r2, r3, r4, risk_is, risk_ordinal, max_risk, allow, deny, require_approval,
  builtin, is_builtin,
}
use desk_pilot_agent.Policy.Request.{ToolAuthorizationRequest, PolicyDecision}
use desk_pilot_agent.Policy.Decisions.{evaluate_verdict}
use desk_pilot_agent.Policy.Engine.{
  Engine, no_texts, effective_risk, scoped_operations, resource_scope_allowed, graded, verdict,
  judge, evaluate,
}

-- What every decision that does not deny asks of the request.
pub record IsAdmissible (e : Engine) (r : ToolAuthorizationRequest) : Type 0 where
  pub interactive : r.interactive ≡ true
  pub single : r.batch_count ≡ 1
  pub own : r.origin ≡ builtin
  pub permitted : (c : String) → mem c r.capabilities ≡ true → mem c e.allowed_capabilities ≡ true
  pub bound : (c : String) → mem c (scoped_operations r.resources) ≡ mem c r.capabilities
  pub in_scope : resource_scope_allowed e r ≡ true

-- A request whose declared facts are all read-only.
pub record IsReadOnly (r : ToolAuthorizationRequest) : Type 0 where
  pub level : r.risk_level ≡ r0
  pub no_effects : r.side_effects ≡ []
  pub irreversible : r.reversible ≡ false
  pub offline : r.network_access ≡ false
  pub no_egress : r.data_egress ≡ false

-- The Boolean form of `IsAdmissible`.
abbrev admits : Engine → ToolAuthorizationRequest → Bool
admits e r =
    not (risk_is r.risk_level r4)
    && r.interactive
    && r.batch_count == 1
    && is_builtin r.origin
    && subset r.capabilities e.allowed_capabilities
    && same_set (scoped_operations r.resources) r.capabilities
    && resource_scope_allowed e r

admits-IsAdmissible :
    (e : Engine) (r : ToolAuthorizationRequest) → admits e r ≡ true → IsAdmissible e r
admits-IsAdmissible e r h = record {
  interactive = ground arith;
  single = ground arith;
  own = ground arith;
  permitted = (subset_iff r.capabilities e.allowed_capabilities).0 (ground arith);
  bound = (same_set_iff (scoped_operations r.resources) r.capabilities).0 (ground arith);
  in_scope = ground arith;
}

IsAdmissible-admits :
    (e : Engine) (r : ToolAuthorizationRequest)
    → risk_is r.risk_level r4 ≡ false
    → IsAdmissible e r
    → admits e r ≡ true
IsAdmissible-admits e r n a = ground (
  arith,
  a.interactive,
  a.single,
  a.own,
  a.in_scope,
  (subset_iff r.capabilities e.allowed_capabilities).1 a.permitted,
  (same_set_iff (scoped_operations r.resources) r.capabilities).1 a.bound,
)

-- Past the deny rules the verdict is that of the effective risk, unless an R0 contract lies.
judge_admitted :
    (e : Engine) (r : ToolAuthorizationRequest)
    → ((admits e r ≡ false) × ((judge e r).effect ≡ deny))
      ⊎ (admits e r ≡ true)
        × (judge e r ≡ (
            if risk_is r.risk_level r0
              && (not (no_texts r.side_effects)
                  || r.reversible
                  || r.network_access
                  || r.data_egress)
            then verdict deny
                (effective_risk r)
                "contract.r0-consistency"
                "R0_CONTRACT_INCONSISTENT"
                none
            else graded e (effective_risk r)))
unfolding judge
judge_admitted e r = ground arith

-- The effective risk of a call whose declared level is below R4, and what it was raised for.
graded_risk :
    (r : ToolAuthorizationRequest)
    → r.origin ≡ builtin
    → effective_risk r ≡ (
        if risk_is r.risk_level r4
        then r4
        else if r.data_egress
        then r3
        else if r.network_access || not (no_texts r.side_effects) || r.reversible
        then max_risk r.risk_level r1
        else r.risk_level)
unfolding effective_risk
graded_risk r o = ground arith

-- The flags of `IsReadOnly`, as `evaluate` reads them.
abbrev pub declares_effects : ToolAuthorizationRequest → Bool
declares_effects r =
    not (no_texts r.side_effects) || r.reversible || r.network_access || r.data_egress

IsReadOnly-iff :
    (r : ToolAuthorizationRequest)
    → IsReadOnly r ↔ ((r.risk_level ≡ r0) × (declares_effects r ≡ false))
unfolding no_texts
IsReadOnly-iff r = (
  λ o. ground (arith, o.level, o.no_effects, o.irreversible, o.offline, o.no_egress),
  λ p. record {
    level = p.0;
    no_effects = ground arith;
    irreversible = ground arith;
    offline = ground arith;
    no_egress = ground arith;
  },
)

graded_keeps : (e : Engine) (risk : ToolRiskLevel) → (graded e risk).risk ≡ risk
unfolding graded
graded_keeps e risk = ground arith

judge_risk : (e : Engine) (r : ToolAuthorizationRequest) → (judge e r).risk ≡ effective_risk r
unfolding judge effective_risk
judge_risk e r = ground (arith, graded_keeps e (effective_risk r))

effective_risk_floor :
    (r : ToolAuthorizationRequest)
    → (risk_ordinal r.risk_level ≤ risk_ordinal (effective_risk r))
      × (declares_effects r ≡ true → 1 ≤ risk_ordinal (effective_risk r))
      × ((r.data_egress || not (is_builtin r.origin)) ≡ true → 3 ≤ risk_ordinal (effective_risk r))
unfolding effective_risk
effective_risk_floor r = ground arith

-- What an admissible request must be for the user to be asked.
abbrev pub AsksUser : Engine → ToolAuthorizationRequest → Type 0
AsksUser e r =
    (IsReadOnly r × (e.require_approval_for_r0 ≡ true))
    ⊎ (((r.risk_level ≡ r1) ⊎ (r.risk_level ≡ r2)) × (r.data_egress ≡ false))
    ⊎ ((r.risk_level ≡ r3) × (e.enable_r3 ≡ true))
    ⊎ (((r.risk_level ≡ r1) ⊎ (r.risk_level ≡ r2)) × (r.data_egress ≡ true) × (e.enable_r3 ≡ true))

-- Its Boolean form.
abbrev asks_user : Engine → ToolAuthorizationRequest → Bool
asks_user e r =
    if risk_is r.risk_level r0
    then not (declares_effects r) && e.require_approval_for_r0
    else if risk_is r.risk_level r4
    then false
    else if risk_is r.risk_level r3 || r.data_egress
    then e.enable_r3
    else true

asks_forward :
    (e : Engine) (r : ToolAuthorizationRequest)
    → admits e r ≡ true
    → asks_user e r ≡ true
    → AsksUser e r
asks_forward e r b a = ground (arith, (IsReadOnly-iff r).1)

asks_backward : (e : Engine) (r : ToolAuthorizationRequest) → AsksUser e r → asks_user e r ≡ true
asks_backward e r a = ground (arith, (IsReadOnly-iff r).0)

module _ (h : Hashing) (e : Engine) (r : ToolAuthorizationRequest) {d : PolicyDecision}
    (q : evaluate h e r ≡ ok d) where
  effect_judged : d.effect ≡ (judge e r).effect
  effect_judged = ap (λ (p : PolicyDecision). p.effect) (evaluate_verdict h e r q)

  allow_forward :
      d.effect ≡ allow → IsAdmissible e r × IsReadOnly r × (e.require_approval_for_r0 ≡ false)
  unfolding graded
  allow_forward a =
      let admitted : admits e r ≡ true = ground (arith, judge_admitted e r, effect_judged) in
      let adm : IsAdmissible e r = admits-IsAdmissible e r admitted in
      (
        adm,
        (IsReadOnly-iff r).1
            (ground (arith, judge_admitted e r, effect_judged, graded_risk r adm.own)),
        ground (arith, judge_admitted e r, effect_judged),
      )

  allow_backward :
      IsAdmissible e r → IsReadOnly r → e.require_approval_for_r0 ≡ false → d.effect ≡ allow
  unfolding graded
  allow_backward a o n = ground (
    arith,
    IsAdmissible-admits e r (ground (arith, o.level)) a,
    (IsReadOnly-iff r).0 o,
    judge_admitted e r,
    effect_judged,
    graded_risk r a.own,
  )

  -- A decision allows the call without asking anyone exactly when the request is admissible
  -- (interactive, a single call, of a built-in tool, with permitted capabilities that are exactly
  -- those its resources grant, in an allowed scope), declares a read-only R0 contract, and the
  -- engine does not ask approval for R0.
  pub evaluate-allow_iff :
      (d.effect ≡ allow) ↔ (IsAdmissible e r × IsReadOnly r × (e.require_approval_for_r0 ≡ false))
  evaluate-allow_iff = (allow_forward, λ p. allow_backward p.0 p.1 p.2)

  approval_forward : d.effect ≡ require_approval → IsAdmissible e r × AsksUser e r
  unfolding graded
  approval_forward a =
      let admitted : admits e r ≡ true = ground (arith, judge_admitted e r, effect_judged) in
      let adm : IsAdmissible e r = admits-IsAdmissible e r admitted in
      (
        adm,
        asks_forward e r (ground (arith, admitted))
            (ground (arith, judge_admitted e r, effect_judged, graded_risk r adm.own)),
      )

  approval_backward : IsAdmissible e r → AsksUser e r → d.effect ≡ require_approval
  unfolding graded
  approval_backward a o =
      let asks : asks_user e r ≡ true = asks_backward e r o in
      ground (
        arith,
        IsAdmissible-admits e r (ground (arith, asks)) a,
        asks,
        judge_admitted e r,
        effect_judged,
        graded_risk r a.own,
      )

  -- A decision asks for an approval exactly when the request is admissible and either is read-only
  -- under an engine that asks for R0 too, or is of level R1 or R2 and sends no data out, or is of
  -- level R3, or of R1 or R2 and sends data out, under an engine with R3 enabled.
  pub evaluate-require_approval_iff :
      (d.effect ≡ require_approval) ↔ (IsAdmissible e r × AsksUser e r)
  evaluate-require_approval_iff = (approval_forward, λ p. approval_backward p.0 p.1)

  risk_judged : d.effective_risk ≡ (judge e r).risk
  risk_judged = ap (λ (p : PolicyDecision). p.effective_risk) (evaluate_verdict h e r q)

  -- Whatever the decision, its effective risk is at least the declared one; at least R1 where the
  -- call writes, can be reversed or uses the network; and at least R3 where it sends data out or is
  -- no built-in tool.
  pub risk-le-effective_risk :
      (risk_ordinal r.risk_level ≤ risk_ordinal d.effective_risk)
      × (declares_effects r ≡ true → 1 ≤ risk_ordinal d.effective_risk)
      × ((r.data_egress || not (is_builtin r.origin)) ≡ true → 3 ≤ risk_ordinal d.effective_risk)
  risk-le-effective_risk = rw (risk_judged, judge_risk e r) (effective_risk_floor r)
