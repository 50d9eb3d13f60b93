-- ===== src/Effects/NodeStatus.antt =====
-- backend/src/deskpilot/domain/effect_graph.py: the states of effect nodes, and the sets of states
-- that application/task_service.py tests for.
use desk_pilot_agent.Base.{String, Bool, true, false, List, any_of}
use desk_pilot_agent.Base.Text.{str_eq}

pub data EffectNodeStatus : Type 0 where
  pending active waiting_approval running succeeded failed unknown : EffectNodeStatus
  compensating compensated compensation_failed compensation_unknown : EffectNodeStatus
  skipped cancelled : EffectNodeStatus

unfoldable pub node_value : EffectNodeStatus → String
node_value pending = "pending"
node_value active = "active"
node_value waiting_approval = "waiting_approval"
node_value running = "running"
node_value succeeded = "succeeded"
node_value failed = "failed"
node_value unknown = "unknown"
node_value compensating = "compensating"
node_value compensated = "compensated"
node_value compensation_failed = "compensation_failed"
node_value compensation_unknown = "compensation_unknown"
node_value skipped = "skipped"
node_value cancelled = "cancelled"

-- `status in statuses`, by the values of the two.
unfoldable pub status_in : EffectNodeStatus → List EffectNodeStatus → Bool
unfolding any_of node_value
status_in s = any_of (λ t. str_eq (node_value s) (node_value t))

abbrev pub is_pending : EffectNodeStatus → Bool
is_pending pending = true
is_pending _ = false

abbrev pub is_active : EffectNodeStatus → Bool
is_active active = true
is_active _ = false

abbrev pub is_succeeded : EffectNodeStatus → Bool
is_succeeded succeeded = true
is_succeeded _ = false

abbrev pub is_compensating : EffectNodeStatus → Bool
is_compensating compensating = true
is_compensating _ = false

abbrev pub is_compensated : EffectNodeStatus → Bool
is_compensated compensated = true
is_compensated _ = false

abbrev pub is_cancelled : EffectNodeStatus → Bool
is_cancelled cancelled = true
is_cancelled _ = false

abbrev pub is_compensation_unknown : EffectNodeStatus → Bool
is_compensation_unknown compensation_unknown = true
is_compensation_unknown _ = false

abbrev pub is_compensation_failed : EffectNodeStatus → Bool
is_compensation_failed compensation_failed = true
is_compensation_failed _ = false

-- `{UNKNOWN, COMPENSATION_UNKNOWN}`
abbrev pub is_unknown : EffectNodeStatus → Bool
is_unknown unknown = true
is_unknown compensation_unknown = true
is_unknown _ = false

-- `{FAILED, COMPENSATION_FAILED}`
abbrev pub is_failed : EffectNodeStatus → Bool
is_failed failed = true
is_failed compensation_failed = true
is_failed _ = false

-- `{SUCCEEDED, SKIPPED}`
abbrev pub is_done : EffectNodeStatus → Bool
is_done succeeded = true
is_done skipped = true
is_done _ = false

-- `propagation_sources`
abbrev pub propagates : EffectNodeStatus → Bool
propagates failed = true
propagates unknown = true
propagates skipped = true
propagates cancelled = true
propagates compensation_failed = true
propagates compensation_unknown = true
propagates _ = false

-- `in_flight`
abbrev pub in_flight : EffectNodeStatus → Bool
in_flight pending = true
in_flight active = true
in_flight waiting_approval = true
in_flight running = true
in_flight compensating = true
in_flight _ = false

-- The states in which a node's claim is renewed.
abbrev pub is_renewable : EffectNodeStatus → Bool
is_renewable active = true
is_renewable running = true
is_renewable compensating = true
is_renewable _ = false
