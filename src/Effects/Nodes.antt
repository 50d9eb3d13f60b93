-- ===== src/Effects/Nodes.antt =====
-- backend/src/deskpilot/application/task_service.py: `transition_claimed_effect_node`,
-- `renew_effect_dag_node_claim` and `request_effect_dag_cancel`.
pub mod Fenced
use desk_pilot_agent.Base.{
  ℕ, ◌+◌, String, Bool, true, false, not, ◌&&◌, Option, none, some, List, is_some, if◌then◌else◌,
}
use desk_pilot_agent.Base.Json.{Json, end, field, str, num, obj}
use desk_pilot_agent.Base.Result.{Result, ok, err, ◌>>=◌, ◌>>◌, raise_if}
use desk_pilot_agent.Tasks.Events.{Source, next_event}
use desk_pilot_agent.Effects.NodeStatus.{
  EffectNodeStatus, node_value, status_in, is_active, is_renewable,
}
use desk_pilot_agent.Effects.GraphStatus.{EffectGraphStatus, graph_value}
use desk_pilot_agent.Effects.Leases.{Graph, holds_lease, ttl_valid}
use desk_pilot_agent.Effects.Dag.{
  EffectNode, EffectDag, EffectError, invalid_transition, graph_fence_rejected, node_fence_rejected,
  value_invalid, ensure_effect_dag, assert_graph_lease, get_node, change_node, holds_claim,
  fence_mutation, dag_event, transition,
}

-- The arguments of a transition but the lease of the graph.
pub record NodeTransition : Type 0 where
  pub node_id : String
  pub expected_statuses : List EffectNodeStatus
  pub target_status : EffectNodeStatus
  pub transition_kind : String
  pub event_type : String
  pub claim_owner_id : String
  pub node_fencing_token : ℕ
  pub graph_status : Option EffectGraphStatus

abbrev pub status_or : Option EffectGraphStatus → EffectGraphStatus → EffectGraphStatus
status_or none current = current
status_or (some s) current = s

pub transition_payload : Graph → EffectNode → NodeTransition → EffectGraphStatus → Json
unfolding node_value graph_value
transition_payload g n q target_graph = obj (
    field "graph_id" (str g.graph_id) (
      field "node_id" (str n.node_id) (
        field "node_key" (str n.node_key) (
          field "transition" (str q.transition_kind) (
            field "from" (str (node_value n.status)) (
              field "to" (str (node_value q.target_status)) (
                field "graph_status" (str (graph_value target_graph)) (
                  field "claim_owner_id" (str q.claim_owner_id)
                    (field "claim_fencing_token" (num q.node_fencing_token) end)))))))))

-- A claim ends with the work that it is for.
unfoldable pub released_claim : EffectNodeStatus → EffectNode → EffectNode
released_claim target m = if is_active target then m else record m {
  claim_owner_id = none;
  claim_acquired_at = none;
  claim_heartbeat_at = none;
  claim_expires_at = none;
}

-- `transition_claimed_effect_node`
unfoldable pub transition_claimed :
    Source → EffectDag → NodeTransition → String → ℕ → ℕ → Result EffectError EffectDag
unfolding ensure_effect_dag get_node fence_mutation status_in transition_payload change_node
    released_claim transition
transition_claimed source d q owner token at = do
  n ← get_node q.node_id d.nodes
  ensure_effect_dag d.graph
  fenced ← fence_mutation d n owner token (some (q.claim_owner_id, q.node_fencing_token)) at
  raise_if (not (status_in n.status q.expected_statuses)) invalid_transition
  let target_graph = status_or q.graph_status d.graph.status
  let freed : EffectDag = record fenced {
    nodes = change_node (released_claim q.target_status) n.node_id fenced.nodes;
  }
  ok (
      transition source freed n q.event_type (transition_payload d.graph n q target_graph)
        q.transition_kind q.target_status target_graph)

-- A claim with more time.
abbrev pub renewed_claim : ℕ → ℕ → EffectNode → EffectNode
renewed_claim at ttl m = record m {
  claim_heartbeat_at = some at;
  claim_expires_at = some (at + ttl);
  updated_at = at;
}

-- `renew_effect_dag_node_claim`, with the rows it leaves.
unfoldable pub renew_claim :
    EffectDag → String → String → ℕ → ℕ → String → ℕ → ℕ → Result EffectError EffectDag
unfolding ttl_valid get_node ensure_effect_dag assert_graph_lease holds_claim change_node
renew_claim d node_id claim_owner node_token ttl owner token at = do
  raise_if (not (ttl_valid ttl)) value_invalid
  n ← get_node node_id d.nodes
  ensure_effect_dag d.graph
  assert_graph_lease d.graph owner token at
  raise_if (not (is_renewable n.status && holds_claim n (some (claim_owner, node_token)) at))
      node_fence_rejected
  raise_if (not (is_some n.claim_acquired_at)) node_fence_rejected
  ok (record d { nodes = change_node (renewed_claim at ttl) node_id d.nodes })

-- `request_effect_dag_cancel`, with the rows it leaves.
unfoldable pub request_cancel : Source → EffectDag → String → ℕ → ℕ → Result EffectError EffectDag
unfolding ensure_effect_dag assert_graph_lease dag_event next_event
request_cancel source d owner token at = do
  ensure_effect_dag d.graph
  assert_graph_lease d.graph owner token at
  (if is_some d.graph.cancel_requested_at then ok d else do
    raise_if (not (holds_lease d.graph owner token at)) graph_fence_rejected
    let payload = obj (field "graph_id" (str d.graph.graph_id) end)
    let event = next_event source d.task "effect_graph.cancel_requested" payload
    ok (record (dag_event source d "effect_graph.cancel_requested" payload) {
      graph = record d.graph {
        revision = d.graph.revision + 1;
        cancel_requested_at = some at;
        updated_at = at;
        last_event_seq = event.seq;
      };
    }))
