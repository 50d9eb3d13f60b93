-- ===== src/Runner/Registry.antt =====
-- backend/src/deskpilot/domain/tool_contracts.py and application/tool_registry.py: the contracts
-- of the Tools and the registrations that a Runner resolves.
pub mod Lookup
use desk_pilot_agent.Base.{
  ℕ, String, Bool, true, false, not, ◌&&◌, Option, none, some, List, [], ◌∷◌, ◌++◌, if◌then◌else◌,
}
use desk_pilot_agent.Base.Text.{str_eq}
use desk_pilot_agent.Base.Json.{Json, Fields, flag, num, str, arr, obj, end, field, texts, Hashing}
use desk_pilot_agent.Base.Result.{Result, ok, err, ◌>>=◌, ◌>>◌, raise_if}
use desk_pilot_agent.Policy.Risk.{ToolRiskLevel, risk_value}
use desk_pilot_agent.Policy.Resource.{PolicyResource}

pub data ToolIdempotency : Type 0 where
  idempotent key_required non_idempotent : ToolIdempotency

unfoldable pub idempotency_value : ToolIdempotency → String
idempotency_value idempotent = "idempotent"
idempotency_value key_required = "key_required"
idempotency_value non_idempotent = "non_idempotent"

abbrev pub needs_key : ToolIdempotency → Bool
needs_key key_required = true
needs_key _ = false

pub data ToolCommitProtocol : Type 0 where
  read_only brokered : ToolCommitProtocol

unfoldable pub protocol_value : ToolCommitProtocol → String
protocol_value read_only = "read_only"
protocol_value brokered = "brokered"

pub record ToolExecutionContract : Type 0 where
  pub timeout_seconds : ℕ
  pub idempotency : ToolIdempotency
  pub max_output_bytes : ℕ
  pub resource_locks : List String
  pub commit_protocol : ToolCommitProtocol

pub record ToolSecurityContract : Type 0 where
  pub capabilities : List String
  pub network_access : Bool
  pub supports_dry_run : Bool

pub record ToolContract : Type 0 where
  pub name : String
  pub version : String
  pub description : String
  pub risk_level : ToolRiskLevel
  pub side_effects : List String
  pub reversible : Bool
  pub input_schema : Json
  pub output_schema : Json
  pub execution : ToolExecutionContract
  pub security : ToolSecurityContract

unfoldable pub execution_json : ToolExecutionContract → Json
unfolding idempotency_value protocol_value texts
execution_json e = obj (
    field "timeout_seconds" (num e.timeout_seconds) (
      field "idempotency" (str (idempotency_value e.idempotency)) (
        field "max_output_bytes" (num e.max_output_bytes) (
          field "resource_locks" (arr (texts e.resource_locks))
            (field "commit_protocol" (str (protocol_value e.commit_protocol)) end)))))

unfoldable pub security_json : ToolSecurityContract → Json
unfolding texts
security_json s = obj (
    field "capabilities" (arr (texts s.capabilities)) (
      field "network_access" (flag s.network_access)
        (field "supports_dry_run" (flag s.supports_dry_run) end)))

-- `ToolContract.digest`
unfoldable pub contract_digest : Hashing → ToolContract → String
unfolding execution_json security_json risk_value
contract_digest h c = h.sha256_digest (
    obj (
      field "name" (str c.name) (
        field "version" (str c.version) (
          field "description" (str c.description) (
            field "risk_level" (str (risk_value c.risk_level)) (
              field "side_effects" (arr (texts c.side_effects)) (
                field "reversible" (flag c.reversible) (
                  field "input_schema" c.input_schema (
                    field "output_schema" c.output_schema (
                      field "execution" (execution_json c.execution)
                        (field "security" (security_json c.security) end)))))))))))

-- `ToolRegistration`. The two models are Pydantic's: each is its schema and its validation of a
-- value, `none` where that fails. A projector that raises returns `none`.
pub record ToolRegistration : Type 0 where
  pub contract : ToolContract
  pub input_schema : Json
  pub output_schema : Json
  pub input_model : Fields → Option Json
  pub output_model : Fields → Option Json
  pub resource_projector : Json → Option (List PolicyResource)

pub data RegistryError : Type 0 where
  already_registered not_registered input_mismatch output_mismatch : RegistryError
  schema_invalid projection_failed : RegistryError

-- The registrations, by their contracts' keys.
abbrev pub Registry : Type 0
Registry = List ToolRegistration

unfoldable pub find_tool : String → String → Registry → Option ToolRegistration
find_tool name version [] = none
find_tool name version (r ∷ rs) =
    if str_eq r.contract.name name && str_eq r.contract.version version
    then some r
    else find_tool name version rs

-- `resolve`
unfoldable pub resolve : Registry → String → String → Result RegistryError ToolRegistration
unfolding find_tool
resolve registry name version = elim (find_tool name version registry) [
  | none ↦ err not_registered
  | some r ↦ ok r
]

-- `register`. `same_json` is the comparison of two schemas.
unfoldable pub register :
    (Json → Json → Bool) → Registry → ToolRegistration → Result RegistryError Registry
unfolding find_tool
register same_json registry r = elim (find_tool r.contract.name r.contract.version registry) [
  | some _ ↦ err already_registered
  | none ↦ do
    raise_if (not (same_json r.contract.input_schema r.input_schema)) input_mismatch
    raise_if (not (same_json r.contract.output_schema r.output_schema)) output_mismatch
    ok (registry ++ r ∷ [])
]

-- The result of a validation.
unfoldable pub or_invalid : Option Json → Result RegistryError Json
or_invalid none = err schema_invalid
or_invalid (some v) = ok v

-- `validate_input`
unfoldable pub validate_input : Registry → String → String → Fields → Result RegistryError Json
unfolding resolve or_invalid
validate_input registry name version value = do
  registration ← resolve registry name version
  or_invalid (registration.input_model value)

-- `validate_output`
unfoldable pub validate_output : Registry → String → String → Fields → Result RegistryError Json
unfolding resolve or_invalid
validate_output registry name version value = do
  registration ← resolve registry name version
  or_invalid (registration.output_model value)

-- A projection that raised, or projected nothing, is refused.
unfoldable pub or_unprojected :
    Option (List PolicyResource) → Result RegistryError (List PolicyResource)
or_unprojected (some (r ∷ rs)) = ok (r ∷ rs)
or_unprojected _ = err projection_failed

-- `project_resources`
unfoldable pub project_resources :
    Registry → String → String → Json → Result RegistryError (List PolicyResource)
unfolding resolve or_unprojected
project_resources registry name version arguments = do
  registration ← resolve registry name version
  or_unprojected (registration.resource_projector arguments)
