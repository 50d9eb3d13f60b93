-- ===== src/Effects/GraphStatus.antt =====
-- backend/src/deskpilot/domain/effect_graph.py: the states of effect graphs.
use desk_pilot_agent.Base.{String, ◌≡◌, refl, sym, ap, ◌∙◌, Bool, true, false, if◌then◌else◌}
use desk_pilot_agent.Base.Text.{str_eq, eq_iff}

pub data EffectGraphStatus : Type 0 where
  active compensating succeeded compensated failed cancelled : EffectGraphStatus
  blocked_unknown blocked_non_compensable : EffectGraphStatus
  blocked_compensation_failed blocked_compensation_unknown : EffectGraphStatus

pub data EffectExecutionMode : Type 0 where
  forward_mode compensating_mode : EffectExecutionMode

unfoldable pub graph_value : EffectGraphStatus → String
graph_value active = "active"
graph_value compensating = "compensating"
graph_value succeeded = "succeeded"
graph_value compensated = "compensated"
graph_value failed = "failed"
graph_value cancelled = "cancelled"
graph_value blocked_unknown = "blocked_unknown"
graph_value blocked_non_compensable = "blocked_non_compensable"
graph_value blocked_compensation_failed = "blocked_compensation_failed"
graph_value blocked_compensation_unknown = "blocked_compensation_unknown"

unfoldable pub graph_is : EffectGraphStatus → EffectGraphStatus → Bool
unfolding graph_value
graph_is s t = str_eq (graph_value s) (graph_value t)

abbrev pub is_compensating_graph : EffectGraphStatus → Bool
is_compensating_graph compensating = true
is_compensating_graph _ = false

abbrev pub is_active_graph : EffectGraphStatus → Bool
is_active_graph active = true
is_active_graph _ = false

-- From a value to its state.
of_value : String → EffectGraphStatus
of_value v =
    if str_eq v "active"
    then active
    else if str_eq v "compensating"
    then compensating
    else if str_eq v "succeeded"
    then succeeded
    else if str_eq v "compensated"
    then compensated
    else if str_eq v "failed"
    then failed
    else if str_eq v "cancelled"
    then cancelled
    else if str_eq v "blocked_unknown"
    then blocked_unknown
    else if str_eq v "blocked_non_compensable"
    then blocked_non_compensable
    else if str_eq v "blocked_compensation_failed"
    then blocked_compensation_failed
    else blocked_compensation_unknown

of_value-graph_value : (s : EffectGraphStatus) → of_value (graph_value s) ≡ s
unfolding of_value graph_value
of_value-graph_value active = refl
of_value-graph_value compensating = refl
of_value-graph_value succeeded = refl
of_value-graph_value compensated = refl
of_value-graph_value failed = refl
of_value-graph_value cancelled = refl
of_value-graph_value blocked_unknown = refl
of_value-graph_value blocked_non_compensable = refl
of_value-graph_value blocked_compensation_failed = refl
of_value-graph_value blocked_compensation_unknown = refl

-- The values of two states are equal only if the states are.
pub eq_of_graph_is : (s t : EffectGraphStatus) → graph_is s t ≡ true → s ≡ t
unfolding graph_is
eq_of_graph_is s t h =
    sym (of_value-graph_value s)
    ∙ ap of_value ((eq_iff (graph_value s) (graph_value t)).0 h)
    ∙ of_value-graph_value t
