-- ===== src/Runner/Registry/Lookup.antt =====
-- What registration does to later lookups.
use desk_pilot_agent.Base.{
  ◌≡◌, refl, String, Bool, none, some, [], ◌∷◌, ◌++◌, if◌then◌else◌, arith, is_some,
}
use desk_pilot_agent.Base.Text.{eq_refl}
use desk_pilot_agent.Base.Json.{Json}
use desk_pilot_agent.Base.Result.{ok}
use desk_pilot_agent.Runner.Registry.{ToolRegistration, Registry, find_tool, resolve, register}

find_tool-append :
    (name version : String) (tools : Registry) (r : ToolRegistration)
    → find_tool name version (tools ++ r ∷ []) ≡ (
        if is_some (find_tool name version tools)
        then find_tool name version tools
        else find_tool name version (r ∷ []))
unfolding find_tool
find_tool-append name version [] r = refl
find_tool-append name version (s ∷ tools) r = ground (arith, find_tool-append name version tools r)

find_tool_own :
    (r : ToolRegistration) → find_tool r.contract.name r.contract.version (r ∷ []) ≡ some r
unfolding find_tool
find_tool_own r = ground (arith, eq_refl r.contract.name, eq_refl r.contract.version)

registered :
    (same_json : Json → Json → Bool) (tools : Registry) (r : ToolRegistration) {tools' : Registry}
    → register same_json tools r ≡ ok tools'
    → (find_tool r.contract.name r.contract.version tools ≡ none) × (tools' ≡ tools ++ r ∷ [])
unfolding register
registered same_json tools r h = ground arith

-- A Tool that has been registered is what its name and version resolve to, and every Tool that
-- resolved before resolves to the same registration: a later one never replaces it.
pub register-resolve :
    (same_json : Json → Json → Bool) (tools : Registry) (r : ToolRegistration) (tools' : Registry)
    → register same_json tools r ≡ ok tools'
    → (resolve tools' r.contract.name r.contract.version ≡ ok r)
      × ((name version : String) (s : ToolRegistration)
          → resolve tools name version ≡ ok s
          → resolve tools' name version ≡ ok s)
unfolding resolve
register-resolve same_json tools r tools' h =
    let (fresh, grown) = registered same_json tools r h in
    (
      ground (
        arith,
        grown,
        fresh,
        find_tool_own r,
        find_tool-append r.contract.name r.contract.version tools r,
      ),
      λ name version s found. ground (arith, grown, found, find_tool-append name version tools r),
    )
