-- ===== src/Effects/Ready/Branches.antt =====
-- backend/src/deskpilot/application/task_service.py: the projection of the ready nodes at a decision
-- on branches.
use desk_pilot_agent.Base.{
  ℕ, zero, suc, String, true, not, ◌||◌, none, some, List, [], ◌∷◌, map, if◌then◌else◌,
}
use desk_pilot_agent.Base.Text.{str_eq, opt_eq, mem}
use desk_pilot_agent.Base.Json.{Json, Hashing, end, field, str, obj}
use desk_pilot_agent.Base.Result.{Result, ok, err, ◌>>=◌, ◌>>◌, traverse}
use desk_pilot_agent.Tasks.Events.{TaskEvent}
use desk_pilot_agent.Effects.Dag.{
  EffectEdge, BranchDecision, EffectDag, EffectError, ready_set_rejected,
}
use desk_pilot_agent.Effects.Decisions.{governed_edges}
use desk_pilot_agent.Effects.Ready.{ReadyNode, Projection, rebuild}
use desk_pilot_agent.Effects.Ready.Upkeep.{
  is_stale, validate_state, changes, targets_of, all_known, advance, refreshed,
}

-- An edge that waited for the decision is resolved, in the row of its target.
unfoldable pub settled_row : String → EffectEdge → ReadyNode → Result EffectError ReadyNode
settled_row outcome e r =
    if not (str_eq r.node_id e.to_node_id) then ok r else elim r.unresolved_branches [
      | zero ↦ err ready_set_rejected
      | suc k ↦ ok (record r {
        unresolved_branches = k;
        branch_rejected = not (opt_eq e.expected_outcome (some outcome)) || r.branch_rejected;
      })
    ]

-- `for edge in edges: …`
unfoldable pub settle :
    String → List EffectEdge → List ReadyNode → Result EffectError (List ReadyNode)
unfolding settled_row
settle outcome [] rows = ok rows
settle outcome (e ∷ es) rows = traverse (settled_row outcome e) rows >>= settle outcome es

pub decision_mutation : BranchDecision → Json
decision_mutation r = obj (
    field "kind" (str "branch_decision") (
      field "decision_id" (str r.decision_id) (
        field "source_node_id" (str r.source_node_id)
          (field "decision_key" (str r.decision_key) (field "outcome" (str r.outcome) end)))))

module _ (h : Hashing) where
  -- The rows of the targets of a decision.
  unfoldable pub decided_row : EffectDag → ℕ → List String → ReadyNode → ReadyNode
  unfolding refreshed
  decided_row d at targets r = if mem r.node_id targets then refreshed h d at true r else r

  -- `_apply_effect_dag_ready_branch_decision`
  unfoldable pub apply_decision :
      EffectDag → Projection → BranchDecision → TaskEvent → ℕ → ℕ → Result EffectError Projection
  unfolding is_stale rebuild validate_state governed_edges all_known settle decided_row changes
      decision_mutation
  apply_decision d p r event expected at = elim p.state [
    | none ↦ rebuild h d p at
    | some s ↦ if is_stale p.state expected then rebuild h d p at else do
      validate_state s
      let edges = governed_edges r.source_node_id r.decision_key d.edges
      let targets = targets_of edges
      (if not (all_known d p.rows targets) then rebuild h d p at else do
        rows ← settle r.outcome edges p.rows
        let f = decided_row d at targets
        let c = changes (λ (row : ReadyNode). mem row.node_id targets) f rows
        advance h d (record p { rows = map f rows }) event expected (decision_mutation r) c at)
  ]
