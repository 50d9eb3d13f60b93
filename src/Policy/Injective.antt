-- ===== src/Policy/Injective.antt =====
-- The JSON forms determine their values.
use desk_pilot_agent.Base.{
  ℕ, String, ◌≡◌, refl, sym, ◌∙◌, ap, Option, List, [], ◌∷◌, arith, if◌then◌else◌,
}
use desk_pilot_agent.Base.Text.{str_eq}
use desk_pilot_agent.Base.Json.{texts, opt_text, opt_num}
use desk_pilot_agent.Policy.Risk.{
  ToolRiskLevel, r0, r1, r2, r3, r4, risk_value, Origin, builtin, plugin, mcp, origin_value,
}
use desk_pilot_agent.Policy.Resource.{PolicyResource, resource_json, resources_json}
use desk_pilot_agent.Policy.Request.{ToolAuthorizationRequest, request_json}

pub texts_injective : (xs ys : List String) → texts xs ≡ texts ys → xs ≡ ys
unfolding texts
texts_injective [] [] e = refl
texts_injective [] (y ∷ ys) e = cc
texts_injective (x ∷ xs) [] e = cc
texts_injective (x ∷ xs) (y ∷ ys) e = ground (arith, texts_injective xs ys)

pub opt_text_injective : (a b : Option String) → opt_text a ≡ opt_text b → a ≡ b
unfolding opt_text
opt_text_injective a b e = ground arith

pub opt_num_injective : (a b : Option ℕ) → opt_num a ≡ opt_num b → a ≡ b
unfolding opt_num
opt_num_injective a b e = ground arith

-- The level that a text names.
risk_of : String → ToolRiskLevel
risk_of s =
    if str_eq s "R0"
    then r0
    else if str_eq s "R1"
    then r1
    else if str_eq s "R2"
    then r2
    else if str_eq s "R3"
    then r3
    else r4

risk_of-value : (a : ToolRiskLevel) → risk_of (risk_value a) ≡ a
unfolding risk_value risk_of
risk_of-value r0 = refl
risk_of-value r1 = refl
risk_of-value r2 = refl
risk_of-value r3 = refl
risk_of-value r4 = refl

pub risk_value_injective : (a b : ToolRiskLevel) → risk_value a ≡ risk_value b → a ≡ b
risk_value_injective a b e = sym (risk_of-value a) ∙ ap risk_of e ∙ risk_of-value b

origin_of : String → Origin
origin_of s = if str_eq s "builtin" then builtin else if str_eq s "plugin" then plugin else mcp

origin_of-value : (a : Origin) → origin_of (origin_value a) ≡ a
unfolding origin_value origin_of
origin_of-value builtin = refl
origin_of-value plugin = refl
origin_of-value mcp = refl

pub origin_value_injective : (a b : Origin) → origin_value a ≡ origin_value b → a ≡ b
origin_value_injective a b e = sym (origin_of-value a) ∙ ap origin_of e ∙ origin_of-value b

pub resource_json_injective : (a b : PolicyResource) → resource_json a ≡ resource_json b → a ≡ b
unfolding resource_json
resource_json_injective a b e = ground (
  arith,
  texts_injective a.operations b.operations,
  opt_text_injective a.version_digest b.version_digest,
  opt_text_injective a.display_name b.display_name,
)

pub resources_json_injective :
    (xs ys : List PolicyResource) → resources_json xs ≡ resources_json ys → xs ≡ ys
unfolding resources_json
resources_json_injective [] [] e = refl
resources_json_injective [] (y ∷ ys) e = cc
resources_json_injective (x ∷ xs) [] e = cc
resources_json_injective (x ∷ xs) (y ∷ ys) e =
    ground (arith, resource_json_injective x y, resources_json_injective xs ys)

pub request_json_injective :
    (a b : ToolAuthorizationRequest) → request_json a ≡ request_json b → a ≡ b
unfolding request_json
request_json_injective a b e = ground (
  arith,
  texts_injective a.capabilities b.capabilities,
  texts_injective a.side_effects b.side_effects,
  resources_json_injective a.resources b.resources,
  origin_value_injective a.origin b.origin,
  risk_value_injective a.risk_level b.risk_level,
)
