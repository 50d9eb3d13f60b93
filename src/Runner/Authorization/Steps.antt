-- ===== src/Runner/Authorization/Steps.antt =====
-- The checks that an authorized Tool call has passed, one by one.
use desk_pilot_agent.Base.{ℕ, ◌≡◌, refl, ◌⊎◌, inl, inr, true, List, arith, is_some}
use desk_pilot_agent.Base.Text.{str_eq}
use desk_pilot_agent.Base.Json.{Hashing}
use desk_pilot_agent.Base.Result.{Result, ok, err, Result-cases}
use desk_pilot_agent.Policy.Resource.{PolicyResource}
use desk_pilot_agent.Policy.Request.{ToolAuthorizationRequest}
use desk_pilot_agent.Runner.Ipc.{ToolCallRequest}
use desk_pilot_agent.Runner.Registry.{
  Registry, RegistryError, needs_key, contract_digest, resolve, validate_input, project_resources,
}
use desk_pilot_agent.Runner.Authorization.{
  registry, AuthorizedToolCall, from_registry, reconstructed_request, grant_binds, facts_agree,
  check_approval, check_call,
}

-- The steps of `check_call` on its way to a call.
pub record Checked (h : Hashing) (tools : Registry) (now : ℕ) (p : ToolCallRequest)
    (c : AuthorizedToolCall) : Type 0 where
  pub same : c.request ≡ p
  pub registered : resolve tools p.tool_name p.tool_version ≡ ok c.registration
  pub known : str_eq p.contract_digest (contract_digest h c.registration.contract) ≡ true
  pub keyed :
      needs_key c.registration.contract.execution.idempotency ≡ true
      → is_some p.idempotency_key ≡ true
  pub resources : List PolicyResource
  pub request : ToolAuthorizationRequest
  pub rebuilt : reconstructed_request h p c.registration.contract resources ≡ ok request
  pub binds : grant_binds h p request ≡ true
  pub agrees : facts_agree p.authorization c.registration.contract ≡ true
  pub approved : check_approval p.authorization c.registration.contract now ≡ ok tt

from_registry_ok {ℓ} :
    {A : Type ℓ} (r : Result RegistryError A)
    → ((a : A) × (r ≡ ok a) × (from_registry r ≡ ok a))
      ⊎ ((e : RegistryError) × (from_registry r ≡ err (registry e)))
unfolding from_registry
from_registry_ok (ok b) = inl (b, refl, refl)
from_registry_ok (err x) = inr (x, refl)

pub checked :
    (h : Hashing) (tools : Registry) (now : ℕ) (p : ToolCallRequest) {c : AuthorizedToolCall}
    → check_call h tools now p ≡ ok c
    → Checked h tools now p c
unfolding check_call
checked h tools now p {c} e = elim (from_registry_ok (resolve tools p.tool_name p.tool_version)) [
  | inr (x, bad) ↦ ground arith
  | inl (registration, found, f1) ↦
      elim (from_registry_ok (validate_input tools p.tool_name p.tool_version p.arguments)) [
        | inr (x, bad) ↦ ground arith
        | inl (arguments, parsed, f2) ↦
            elim (from_registry_ok (project_resources tools p.tool_name p.tool_version arguments)) [
              | inr (x, bad) ↦ ground arith
              | inl (resources, projected, f3) ↦
                  elim (Result-cases (reconstructed_request h p registration.contract resources)) [
                    | inr (x, bad) ↦ ground arith
                    | inl (request, rebuilt) ↦ record {
                      same = ground arith;
                      registered = ground arith;
                      known = ground arith;
                      keyed = ground arith;
                      resources = resources;
                      request = request;
                      rebuilt = ground arith;
                      binds = ground arith;
                      agrees = ground arith;
                      approved = ground arith;
                    }
                  ]
            ]
      ]
]
