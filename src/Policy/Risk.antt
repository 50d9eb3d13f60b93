-- ===== src/Policy/Risk.antt =====
-- The enums of backend/src/deskpilot/domain/policy.py and domain/tool_contracts.py.
use desk_pilot_agent.Base.{ℕ, String, Bool, true, false, ltb, ◌==◌, if◌then◌else◌}

pub data ToolRiskLevel : Type 0 where
  r0 r1 r2 r3 r4 : ToolRiskLevel

abbrev pub risk_ordinal : ToolRiskLevel → ℕ
risk_ordinal r0 = 0
risk_ordinal r1 = 1
risk_ordinal r2 = 2
risk_ordinal r3 = 3
risk_ordinal r4 = 4

-- `a is b`
abbrev pub risk_is : ToolRiskLevel → ToolRiskLevel → Bool
risk_is a b = risk_ordinal a == risk_ordinal b

-- `max(a, b, key=_risk_ordinal)`: of two equals the first
abbrev pub max_risk : ToolRiskLevel → ToolRiskLevel → ToolRiskLevel
max_risk a b = if ltb (risk_ordinal a) (risk_ordinal b) then b else a

-- The value of the enum.
unfoldable pub risk_value : ToolRiskLevel → String
risk_value r0 = "R0"
risk_value r1 = "R1"
risk_value r2 = "R2"
risk_value r3 = "R3"
risk_value r4 = "R4"

pub data PolicyEffect : Type 0 where
  allow deny require_approval : PolicyEffect

unfoldable pub effect_value : PolicyEffect → String
effect_value allow = "allow"
effect_value deny = "deny"
effect_value require_approval = "require_approval"

abbrev pub is_require_approval : PolicyEffect → Bool
is_require_approval require_approval = true
is_require_approval _ = false

pub data Origin : Type 0 where
  builtin plugin mcp : Origin

abbrev pub is_builtin : Origin → Bool
is_builtin builtin = true
is_builtin _ = false

unfoldable pub origin_value : Origin → String
origin_value builtin = "builtin"
origin_value plugin = "plugin"
origin_value mcp = "mcp"
