-- ===== src/Policy/Grant/Integrity.antt =====
-- A grant passes its own checks, and its ID covers all of its binding.
use desk_pilot_agent.Base.{◌≡◌, refl, ◌≢◌, arith}
use desk_pilot_agent.Base.Text.{eq_refl}
use desk_pilot_agent.Base.Json.{Json, Hashing}
use desk_pilot_agent.Base.Result.{ok}
use desk_pilot_agent.Policy.Resource.{normalize_fact_sets, normalize_resources}
use desk_pilot_agent.Policy.Normal.{normalize_fact_sets_stable, normalize_resources_stable}
use desk_pilot_agent.Policy.Grant.{
  Binding, check_approval, validate_binding, binding_json, Grant, validate_grant, issue,
}

-- What a binding that passed has passed.
record Passed (h : Hashing) (b c : Binding) : Type 0 where
  capabilities : normalize_fact_sets b.capabilities ≡ ok c.capabilities
  side_effects : normalize_fact_sets b.side_effects ≡ ok c.side_effects
  resources : normalize_resources b.resources ≡ ok c.resources
  approval : check_approval h c ≡ ok tt

passed : (h : Hashing) (b : Binding) {c : Binding} → validate_binding h b ≡ ok c → Passed h b c
unfolding validate_binding
passed h b q = ground arith

-- A binding that the validators returned is returned by them unchanged.
validate_binding_stable :
    (h : Hashing) (b : Binding) {c : Binding}
    → validate_binding h b ≡ ok c
    → validate_binding h c ≡ ok c
unfolding validate_binding
validate_binding_stable h b {c} q =
    let p : Passed h b c = passed h b q in
    ground (
      arith,
      normalize_fact_sets_stable b.capabilities p.capabilities,
      normalize_fact_sets_stable b.side_effects p.side_effects,
      normalize_resources_stable b.resources p.resources,
      p.approval,
    )

abbrev seal : Hashing → Binding → Grant
seal h b = record { binding = b; authorization_id = h.sha256_digest (binding_json b) }

seal_valid :
    (h : Hashing) (b : Binding)
    → validate_binding h b ≡ ok b
    → validate_grant h (seal h b) ≡ ok (seal h b)
unfolding validate_grant
seal_valid h b q = rw q (rw eq_refl refl)

-- `issue` fails only where the binding is refused. Otherwise it returns the normal form of the
-- binding under its own digest, and that grant passes its validators unchanged, so a Runner that
-- parses it sees the grant that was issued.
pub issue_valid :
    (h : Hashing) (b c : Binding)
    → validate_binding h b ≡ ok c
    → (issue h b ≡ ok (record { binding = c; authorization_id = h.sha256_digest (binding_json c) }))
      × (validate_grant h
            (record { binding = c; authorization_id = h.sha256_digest (binding_json c) })
          ≡ ok (record { binding = c; authorization_id = h.sha256_digest (binding_json c) }))
unfolding issue
issue_valid h b c q =
    let valid = seal_valid h c (validate_binding_stable h b q) in (rw q valid, valid)

-- Two inputs of the hash with one digest.
abbrev pub Collision : Hashing → Type 0
Collision h = (x : Json) × (y : Json) × (x ≢ y) × (h.sha256_digest x ≡ h.sha256_digest y)
