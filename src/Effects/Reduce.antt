-- ===== src/Effects/Reduce.antt =====
-- backend/src/deskpilot/application/task_service.py: `request_effect_dag_cancel` and
-- `reduce_effect_dag`, which skips or cancels nodes that will not run, and derives the state of the
-- graph from those of its nodes.
pub mod Closure
pub mod Turns
pub mod Rounds
pub mod Verdict
use desk_pilot_agent.Base.{
  ℕ, zero, suc, ◌+◌, String, Bool, true, false, not, ◌&&◌, ◌||◌, ◌==◌, Option, none, some, List, [],
  ◌∷◌, map, keep, any_of, all_of, is_some, length, if◌then◌else◌,
}
use desk_pilot_agent.Base.Text.{str_eq, opt_eq}
use desk_pilot_agent.Base.Json.{Json, Hashing, end, field, str, obj}
use desk_pilot_agent.Base.Result.{Result, ok, err, ◌>>=◌, ◌>>◌, raise_if, map_result}
use desk_pilot_agent.Tasks.Events.{Source, next_event}
use desk_pilot_agent.Effects.Definitions.{
  CompensationStrategy, no_compensation, receipt_bound_reverse,
}
use desk_pilot_agent.Effects.NodeStatus.{
  EffectNodeStatus, skipped, cancelled, is_pending, is_succeeded, is_cancelled, is_unknown,
  is_failed, is_done, propagates, in_flight,
}
use desk_pilot_agent.Effects.GraphStatus.{
  EffectGraphStatus, EffectExecutionMode, compensating_mode, graph_value, graph_is,
}
use desk_pilot_agent.Effects.Leases.{Graph, holds_lease}
use desk_pilot_agent.Effects.Dag.{
  EffectNode, EffectEdge, EffectEdgeKind, success, conditional, compensation_order, BranchDecision,
  EffectDag, EffectError, graph_fence_rejected, decision_rejected, key_error, ensure_effect_dag,
  assert_graph_lease, find_node, fence_mutation, dag_event, transition,
}
use desk_pilot_agent.Effects.Decisions.{is_conditional, check_decisions, decided}

-- `edge.kind in {SUCCESS, CONDITIONAL}`
abbrev pub is_forward : EffectEdgeKind → Bool
is_forward compensation_order = false
is_forward _ = true

-- `predecessors[node_id]`, as edges, and `conditional_edges[node_id]`.
unfoldable pub predecessor_edges : List EffectEdge → String → List EffectEdge
predecessor_edges edges id =
    keep (λ (e : EffectEdge). is_forward e.kind && str_eq e.to_node_id id) edges

unfoldable pub conditional_edges : List EffectEdge → String → List EffectEdge
conditional_edges edges id =
    keep (λ (e : EffectEdge). is_conditional e.kind && str_eq e.to_node_id id) edges

-- A node has a state that passes a test.
unfoldable pub status_of : List EffectNode → String → (EffectNodeStatus → Bool) → Bool
unfolding find_node
status_of nodes id p = elim (find_node id nodes) [ none ↦ false | some n ↦ p n.status ]

-- The first loop raises `KeyError` at an edge from an unknown node.
unfoldable pub check_edges : List EffectNode → List EffectEdge → Result EffectError (Unit {0})
unfolding find_node
check_edges nodes [] = ok tt
check_edges nodes (e ∷ es) =
    raise_if (is_forward e.kind && not (is_some (find_node e.from_node_id nodes))) key_error
    >> check_edges nodes es

-- A predecessor ended without success.
unfoldable pub has_ended_predecessor : List EffectNode → List EffectEdge → String → Bool
unfolding any_of
has_ended_predecessor nodes edges id =
    any_of (λ (e : EffectEdge). status_of nodes e.from_node_id propagates)
      (predecessor_edges edges id)

-- All predecessors have succeeded.
unfoldable pub predecessors_succeeded : List EffectNode → List EffectEdge → String → Bool
unfolding all_of
predecessors_succeeded nodes edges id =
    all_of (λ (e : EffectEdge). status_of nodes e.from_node_id is_succeeded)
      (predecessor_edges edges id)

-- The decision that an edge waits for was made otherwise.
unfoldable pub decided_otherwise : Option String → Option String → Bool
decided_otherwise none expected = false
decided_otherwise (some outcome) expected = not (opt_eq (some outcome) expected)

-- The loop over the conditional edges of a node.
unfoldable pub branch_not_selected : List BranchDecision → List EffectEdge → Result EffectError Bool
unfolding decided decided_otherwise
branch_not_selected decisions [] = ok false
branch_not_selected decisions (e ∷ es) = elim e.decision_key [
  | none ↦ err decision_rejected
  | some key ↦
      let rest = branch_not_selected decisions es in
      if decided_otherwise (decided decisions e.from_node_id key) e.expected_outcome
      then ok true
      else rest
]

reduced_payload : Graph → EffectNode → String → Json
reduced_payload g n reason = obj (
    field "graph_id" (str g.graph_id) (
      field "node_id" (str n.node_id)
        (field "node_key" (str n.node_key) (field "reason" (str reason) end))))

abbrev pub has_no_compensation : CompensationStrategy → Bool
has_no_compensation no_compensation = true
has_no_compensation receipt_bound_reverse = false

module _ (source : Source) (owner : String) (token at : ℕ) where
  -- A pending node that will not run is skipped, or cancelled.
  unfoldable pub end_node : EffectDag → EffectNode → Bool → Bool → Result EffectError EffectDag
  unfolding fence_mutation transition reduced_payload
  end_node d n blocked not_selected = do
    fenced ← fence_mutation d n owner token none at
    let event_type = if blocked then "effect.node.skipped" else "effect.node.cancelled"
    let reason =
        if not_selected
        then "branch_not_selected"
        else if blocked
        then "predecessor_not_succeeded"
        else "graph_cancel_requested"
    let payload = reduced_payload d.graph n reason
    ok (
        transition source fenced n event_type payload
          (if blocked then "dependency_skipped" else "graph_cancelled")
          (if blocked then skipped else cancelled) fenced.graph.status)

  -- The body of the loop, at a pending node.
  unfoldable pub reduce_pending : EffectDag → EffectNode → Result EffectError (EffectDag × Bool)
  unfolding has_ended_predecessor predecessors_succeeded branch_not_selected end_node
  reduce_pending d n = do
    not_selected ← branch_not_selected d.decisions (conditional_edges d.edges n.node_id)
    let blocked = has_ended_predecessor d.nodes d.edges n.node_id || not_selected
    let stays =
        not blocked
        && (not (is_some d.graph.cancel_requested_at)
            || not (predecessors_succeeded d.nodes d.edges n.node_id))
    (if stays
        then ok (d, false)
        else map_result (λ (d' : EffectDag). (d', true)) (end_node d n blocked not_selected))

  -- A node is read when its turn comes.
  unfoldable pub reduce_node : EffectDag → String → Result EffectError (EffectDag × Bool)
  unfolding find_node reduce_pending
  reduce_node d id = elim (find_node id d.nodes) [
    | none ↦ err key_error
    | some n ↦ if is_pending n.status then reduce_pending d n else ok (d, false)
  ]

  -- `for node in nodes: …`, with `changed`.
  unfoldable pub reduce_nodes :
      List String → EffectDag → Bool → Result EffectError (EffectDag × Bool)
  unfolding reduce_node
  reduce_nodes [] d changed = ok (d, changed)
  reduce_nodes (id ∷ ids) d changed =
      reduce_node d id >>= λ (r : EffectDag × Bool). reduce_nodes ids r.0 (changed || r.1)

  -- `while changed: …`. The fuel is the number of nodes and one: each round but the last ends a node.
  unfoldable pub reduce_rounds : ℕ → List String → EffectDag → Result EffectError EffectDag
  unfolding reduce_nodes
  reduce_rounds zero ids d = ok d
  reduce_rounds (suc fuel) ids d = reduce_nodes ids d false >>= λ (r : EffectDag × Bool). elim r.1 [
    | true ↦ reduce_rounds fuel ids r.0
    | false ↦ ok r.0
  ]

-- A succeeded node without compensation.
abbrev pub not_compensable : EffectNode → Bool
not_compensable n = is_succeeded n.status && has_no_compensation n.compensation_strategy

unfoldable pub any_status : (EffectNodeStatus → Bool) → List EffectNode → Bool
unfolding any_of
any_status p = any_of (λ (n : EffectNode). p n.status)

-- The state and mode that the nodes give the graph.
unfoldable pub derived_state : Graph → List EffectNode → EffectGraphStatus × EffectExecutionMode
unfolding any_status any_of all_of
derived_state g nodes =
    if any_status in_flight nodes
    then (g.status, g.execution_mode)
    else if any_status is_unknown nodes
    then (EffectGraphStatus.blocked_unknown, g.execution_mode)
    else if is_some g.cancel_requested_at || any_status is_cancelled nodes
    then (EffectGraphStatus.cancelled, g.execution_mode)
    else if any_status is_failed nodes
    then (if any_of not_compensable nodes
        then (EffectGraphStatus.blocked_non_compensable, g.execution_mode)
        else if any_status is_succeeded nodes
        then (EffectGraphStatus.compensating, compensating_mode)
        else (EffectGraphStatus.failed, g.execution_mode))
    else if all_of (λ (n : EffectNode). is_done n.status) nodes
    then (EffectGraphStatus.succeeded, g.execution_mode)
    else (g.status, g.execution_mode)

moved_payload : Graph → EffectGraphStatus → Json
unfolding graph_value
moved_payload g target = obj (
    field "graph_id" (str g.graph_id)
      (field "from" (str (graph_value g.status)) (field "to" (str (graph_value target)) end)))

-- The graph takes the derived mode, and the state where it does not have it.
unfoldable pub move_graph :
    Source
    → EffectDag
    → EffectGraphStatus × EffectExecutionMode
    → String
    → ℕ
    → ℕ
    → Result EffectError EffectDag
unfolding graph_is next_event dag_event moved_payload
move_graph source d (target, mode) owner token at =
    if graph_is target d.graph.status
    then ok (record d { graph = record d.graph { execution_mode = mode } })
    else do
      raise_if (not (holds_lease d.graph owner token at)) graph_fence_rejected
      let payload = moved_payload d.graph target
      let event = next_event source d.task "effect_graph.reduced" payload
      ok (record (dag_event source d "effect_graph.reduced" payload) {
        graph = record d.graph {
          status = target;
          execution_mode = mode;
          revision = d.graph.revision + 1;
          updated_at = at;
          last_event_seq = event.seq;
        };
      })

abbrev pub node_ids : List EffectNode → List String
node_ids = map (λ (n : EffectNode). n.node_id)

-- `reduce_effect_dag`, with the rows it leaves.
unfoldable pub reduce_effect_dag :
    Hashing → Source → EffectDag → String → ℕ → ℕ → Result EffectError EffectDag
unfolding ensure_effect_dag assert_graph_lease check_edges check_decisions reduce_rounds
    derived_state move_graph
reduce_effect_dag h source d owner token at = do
  ensure_effect_dag d.graph
  assert_graph_lease d.graph owner token at
  check_edges d.nodes d.edges
  check_decisions h d.graph.graph_id d.nodes d.edges d.decisions
  reduced ← reduce_rounds source owner token at (suc (length d.nodes)) (node_ids d.nodes) d
  move_graph source reduced (derived_state reduced.graph reduced.nodes) owner token at
