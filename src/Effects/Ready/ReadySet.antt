-- ===== src/Effects/Ready/ReadySet.antt =====
-- backend/src/deskpilot/application/task_service.py: `_build_effect_ready_set`, which lists the ready
-- nodes from the rows of a graph.
use desk_pilot_agent.Base.{
  ℕ, Bool, true, false, not, ◌&&◌, ◌||◌, none, some, List, [], ◌∷◌, is_some, if◌then◌else◌,
}
use desk_pilot_agent.Base.Text.{opt_eq}
use desk_pilot_agent.Base.Result.{Result, ok, err, ◌>>=◌, map_result}
use desk_pilot_agent.Effects.NodeStatus.{is_pending, is_active, is_succeeded}
use desk_pilot_agent.Effects.GraphStatus.{is_active_graph}
use desk_pilot_agent.Effects.Leases.{no_lease}
use desk_pilot_agent.Effects.Dag.{
  EffectNode, EffectEdge, BranchDecision, EffectDag, EffectError, key_error, ready_set_rejected,
  find_node,
}
use desk_pilot_agent.Effects.Decisions.{decided}
use desk_pilot_agent.Effects.Reduce.{predecessor_edges, conditional_edges}

-- The loop over the conditional edges of a node in `_build_effect_ready_set`.
unfoldable pub branch_selected : List BranchDecision → List EffectEdge → Result EffectError Bool
unfolding decided
branch_selected decisions [] = ok true
branch_selected decisions (e ∷ es) =
    let rest = branch_selected decisions es in
    elim e.decision_key [
      | none ↦ err ready_set_rejected
      | some key ↦
          if is_some e.expected_outcome
          then (if opt_eq (decided decisions e.from_node_id key) e.expected_outcome
              then rest
              else ok false)
          else err ready_set_rejected
    ]

-- `any(predecessor.status is not SUCCEEDED for predecessor in predecessors)`
unfoldable pub has_unfinished : List EffectNode → List EffectEdge → Result EffectError Bool
unfolding find_node
has_unfinished nodes [] = ok false
has_unfinished nodes (e ∷ es) =
    let rest = has_unfinished nodes es in
    elim (find_node e.from_node_id nodes) [
      | none ↦ err key_error
      | some n ↦ map_result (λ (b : Bool). not (is_succeeded n.status) || b) rest
    ]

-- Whether the loop of `_build_effect_ready_set` takes a node. No code calls that method any more: the
-- pages read the flags that the counters keep, and the method stands here as what the flags mean.
-- Its checks of the recorded decisions, which come before the loop, are not part of this.
unfoldable pub is_ready : EffectDag → ℕ → EffectNode → Result EffectError Bool
unfolding no_lease predecessor_edges conditional_edges has_unfinished branch_selected
is_ready d at n =
    if not (is_active_graph d.graph.status && not (is_some d.graph.cancel_requested_at))
      || not (
          (is_pending n.status || is_active n.status)
          && no_lease n.claim_owner_id n.claim_expires_at at)
    then ok false
    else (has_unfinished d.nodes (predecessor_edges d.edges n.node_id) >>= λ unfinished.
        if unfinished
        then ok false
        else branch_selected d.decisions (conditional_edges d.edges n.node_id))
