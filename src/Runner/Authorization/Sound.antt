-- ===== src/Runner/Authorization/Sound.antt =====
-- What an authorized Tool call guarantees.
use desk_pilot_agent.Base.{
  ℕ, ◌≤◌, ◌<◌, String, ◌≡◌, refl, sym, subst, ◌∙◌, inl, inr, true, false, some, arith, Option-cases,
}
use desk_pilot_agent.Base.Text.{str_eq}
use desk_pilot_agent.Base.Text.Sets.{eq_of_str_eq}
use desk_pilot_agent.Base.Json.{Hashing}
use desk_pilot_agent.Base.Result.{Result, ok, err}
use desk_pilot_agent.Policy.Risk.{risk_ordinal}
use desk_pilot_agent.Policy.Request.{ToolAuthorizationRequest}
use desk_pilot_agent.Policy.Grant.{Grant, has_approval, expected_authorization_id}
use desk_pilot_agent.Runner.Ipc.{
  ToolCallRequest, IpcPayload, IpcError, tool_call, SignedIpcEnvelope, Verifier, verify,
}
use desk_pilot_agent.Runner.Registry.{ToolContract, Registry, contract_digest, resolve}
use desk_pilot_agent.Runner.Authorization.{
  AuthorizedToolCall, arguments_digest_of, versions_digest_of, grant_binds, after_now, up_to_now,
  check_approval, check_call, accept, authorize,
}
use desk_pilot_agent.Runner.Authorization.Steps.{Checked, checked}

-- The grant of a call is bound to it.
pub record IsBound (h : Hashing) (c : AuthorizedToolCall) : Type 0 where
  pub sealed :
      c.request.authorization.authorization_id ≡ expected_authorization_id h c.request.authorization
  pub task : c.request.authorization.task_id ≡ c.request.task_id
  pub step : c.request.authorization.step_id ≡ c.request.step_id
  pub call : c.request.authorization.call_id ≡ c.request.call_id
  pub actor : c.request.authorization.actor_id ≡ c.request.actor
  pub tool : c.request.authorization.tool_name ≡ c.request.tool_name
  pub version : c.request.authorization.tool_version ≡ c.request.tool_version
  pub contract : c.request.authorization.contract_digest ≡ contract_digest h c.registration.contract
  pub arguments : c.request.authorization.arguments_digest ≡ arguments_digest_of h c.request
  pub versions :
      c.request.authorization.expected_resource_versions_digest ≡ versions_digest_of h c.request

grant-IsBound :
    (h : Hashing) (r : ToolAuthorizationRequest) (c : AuthorizedToolCall)
    → str_eq c.request.contract_digest (contract_digest h c.registration.contract) ≡ true
    → grant_binds h c.request r ≡ true
    → IsBound h c
unfolding grant_binds
grant-IsBound h r c known b = record {
  sealed = eq_of_str_eq _ _ (ground arith);
  task = eq_of_str_eq _ _ (ground arith);
  step = eq_of_str_eq _ _ (ground arith);
  call = eq_of_str_eq _ _ (ground arith);
  actor = eq_of_str_eq _ _ (ground arith);
  tool = eq_of_str_eq _ _ (ground arith);
  version = eq_of_str_eq _ _ (ground arith);
  contract = eq_of_str_eq _ _ (ground arith) ∙ eq_of_str_eq _ _ known;
  arguments = eq_of_str_eq _ _ (ground arith);
  versions = eq_of_str_eq _ _ (ground arith);
}

-- An approval that covers `now`.
pub record HasApproval (a : Grant) (now : ℕ) : Type 0 where
  pub approval_id : String
  pub given : a.approval_id ≡ some approval_id
  pub preview_hash : String
  pub shown : a.preview_hash ≡ some preview_hash
  pub approved_at : ℕ
  pub approved : a.approved_at ≡ some approved_at
  pub grant_expires_at : ℕ
  pub expires : a.grant_expires_at ≡ some grant_expires_at
  pub past : approved_at ≤ now
  pub live : now < grant_expires_at

approval_fields :
    (a : Grant) (now : ℕ)
    → has_approval a.binding ≡ true
    → after_now a.approved_at now ≡ false
    → up_to_now a.grant_expires_at now ≡ false
    → HasApproval a now
unfolding has_approval after_now up_to_now
approval_fields a now h p q = elim (Option-cases a.approval_id) [
  | inl missing ↦ absurd (ground arith)
  | inr (i, given) ↦ elim (Option-cases a.preview_hash) [
    | inl missing ↦ absurd (ground arith)
    | inr (v, shown) ↦ elim (Option-cases a.approved_at) [
      | inl missing ↦ absurd (ground arith)
      | inr (s, approved) ↦ elim (Option-cases a.grant_expires_at) [
        | inl missing ↦ absurd (ground arith)
        | inr (t, expires) ↦ record {
          approval_id = i;
          given = given;
          preview_hash = v;
          shown = shown;
          approved_at = s;
          approved = approved;
          grant_expires_at = t;
          expires = expires;
          past = ground arith;
          live = ground arith;
        }
      ]
    ]
  ]
]

approval_checked :
    (a : Grant) (c : ToolContract) (now : ℕ)
    → check_approval a c now ≡ ok tt
    → (risk_ordinal c.risk_level ≤ risk_ordinal a.effective_risk)
      × (1 ≤ risk_ordinal a.effective_risk → has_approval a.binding ≡ true)
      × (after_now a.approved_at now ≡ false)
      × (up_to_now a.grant_expires_at now ≡ false)
unfolding check_approval
approval_checked a c now h = ground arith

accepted_call :
    (h : Hashing) (tools : Registry) (now : ℕ) (r : Result IpcError IpcPayload)
    {c : AuthorizedToolCall}
    → accept h tools now r ≡ ok c
    → (p : ToolCallRequest) × (r ≡ ok (tool_call p)) × (check_call h tools now p ≡ ok c)
unfolding accept
accepted_call h tools now (err e) q = cc
accepted_call h tools now (ok (tool_call p)) q = (p, refl, q)
accepted_call h tools now (ok _) q = cc

module _ (h : Hashing) (tools : Registry) (v : Verifier) (envelope : SignedIpcEnvelope) (now : ℕ)
    (c : AuthorizedToolCall) (q : (authorize h tools v envelope now).0 ≡ ok c) where
  pub call-Checked :
      ((verify v envelope now).0 ≡ ok (tool_call c.request)) × Checked h tools now c.request c
  unfolding authorize
  call-Checked =
      let (p, verified, passed) = accepted_call h tools now (verify v envelope now).0 q in
      let k : Checked h tools now p c = checked h tools now p passed in
      subst (λ p'. ((verify v envelope now).0 ≡ ok (tool_call p')) × Checked h tools now p' c)
        (sym k.same) (verified, k)

  -- A call that is authorized comes from the registered Tool that it names; its grant is sealed by
  -- its own ID and bound to the task, step, call, actor, Tool, contract, arguments and resource
  -- versions of the request; the risk of the contract is not lowered; and where the granted risk is
  -- above R0, the grant has a user's approval that was given by `now` and has not expired.
  pub authorize_sound :
      (resolve tools c.request.tool_name c.request.tool_version ≡ ok c.registration)
      × IsBound h c
      × (risk_ordinal c.registration.contract.risk_level
          ≤ risk_ordinal c.request.authorization.effective_risk)
      × (1 ≤ risk_ordinal c.request.authorization.effective_risk
          → HasApproval c.request.authorization now)
  authorize_sound =
      let k = call-Checked.1 in
      let a = c.request.authorization in
      let (floor, asked, past, live) = approval_checked a c.registration.contract now k.approved in
      (
        k.registered,
        grant-IsBound h k.request c k.known k.binds,
        floor,
        λ high. approval_fields a now (asked high) past live,
      )
