-- ===== src/Effects/Ready/Transitions.antt =====
-- backend/src/deskpilot/application/task_service.py: the projection of the ready nodes at a transition
-- of a node.
use desk_pilot_agent.Base.{
  ℕ, zero, suc, ◌+◌, String, Bool, not, ◌&&◌, ◌||◌, none, some, List, [], map, keep, if◌then◌else◌,
}
use desk_pilot_agent.Base.Text.{str_eq, mem}
use desk_pilot_agent.Base.Json.{Json, Hashing, end, field, str, num, obj}
use desk_pilot_agent.Base.Result.{Result, ok, err, ◌>>=◌, ◌>>◌, traverse}
use desk_pilot_agent.Tasks.Events.{TaskEvent}
use desk_pilot_agent.Effects.NodeStatus.{EffectNodeStatus, node_value, is_succeeded}
use desk_pilot_agent.Effects.Dag.{
  EffectNode, EffectEdge, EffectDag, EffectError, ready_set_rejected,
}
use desk_pilot_agent.Effects.Reduce.{is_forward}
use desk_pilot_agent.Effects.Ready.{ReadyNode, Projection, find_row, rebuild}
use desk_pilot_agent.Effects.Ready.Upkeep.{
  is_stale, validate_state, differs, changes, targets_of, all_known, advance, refreshed,
}

-- `target_ids` of the edges that lead on from a node.
unfoldable pub outgoing : String → List EffectEdge → List EffectEdge
outgoing id = keep (λ (e : EffectEdge). is_forward e.kind && str_eq e.from_node_id id)

-- The targets of the edges of a node, where its success came or went.
unfoldable pub moved_targets :
    EffectDag → String → EffectNodeStatus → EffectNodeStatus → List String
unfolding outgoing
moved_targets d id previous target =
    if differs (is_succeeded previous) (is_succeeded target)
    then targets_of (outgoing id d.edges)
    else []

-- `projection.remaining_predecessors += delta` of the targets; a count below 0 is refused.
unfoldable pub counted_row : List String → Bool → ReadyNode → Result EffectError ReadyNode
counted_row targets target_succeeded r =
    if not (mem r.node_id targets)
    then ok r
    else if not target_succeeded
    then ok (record r { remaining_predecessors = r.remaining_predecessors + 1 })
    else elim r.remaining_predecessors [
      | zero ↦ err ready_set_rejected
      | suc k ↦ ok (record r { remaining_predecessors = k })
    ]

pub transition_mutation : String → EffectNode → EffectNodeStatus → EffectNodeStatus → Json
unfolding node_value
transition_mutation kind n previous target = obj (
    field "kind" (str "node_transition") (
      field "transition_kind" (str kind) (
        field "node_id" (str n.node_id) (
          field "node_revision" (num n.revision) (
            field "from_status" (str (node_value previous))
              (field "to_status" (str (node_value target)) end))))))

module _ (h : Hashing) where
  -- The row of the node and those of the targets.
  unfoldable pub refreshed_row : EffectDag → ℕ → String → List String → ReadyNode → ReadyNode
  unfolding refreshed
  refreshed_row d at id targets r =
      if mem r.node_id targets || str_eq r.node_id id
      then refreshed h d at (mem r.node_id targets) r
      else r

  unfoldable pub is_refreshed : EffectDag → ℕ → String → List String → ReadyNode → Bool
  unfolding refreshed_row
  is_refreshed d at id targets r =
      mem r.node_id targets
      || differs (refreshed_row d at id targets r).membership_ready r.membership_ready

  -- `_apply_effect_dag_ready_transition`, after the row of the node `n` was changed.
  unfoldable pub apply_transition :
      EffectDag
      → Projection
      → EffectNode
      → TaskEvent
      → ℕ
      → EffectNodeStatus
      → EffectNodeStatus
      → String
      → ℕ
      → Result EffectError Projection
  unfolding is_stale rebuild validate_state find_row moved_targets all_known counted_row
      refreshed_row is_refreshed changes transition_mutation advance
  apply_transition d p n event expected previous target kind at = elim p.state [
    | none ↦ rebuild h d p at
    | some s ↦ if is_stale p.state expected then rebuild h d p at else do
      validate_state s
      elim (find_row n.node_id p.rows) [
        | none ↦ rebuild h d p at
        | some own ↦
            let targets = moved_targets d n.node_id previous target in
            if not (str_eq own.graph_id d.graph.graph_id) || not (all_known d p.rows targets)
            then rebuild h d p at
            else do
              rows ← traverse (counted_row targets (is_succeeded target)) p.rows
              let f = refreshed_row d at n.node_id targets
              let c = changes (is_refreshed d at n.node_id targets) f rows
              advance h d (record p { rows = map f rows }) event expected
                  (transition_mutation kind n previous target) c at
      ]
  ]
