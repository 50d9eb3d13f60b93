-- ===== src/Effects/Claims.antt =====
-- backend/src/deskpilot/application/task_service.py: the claims of nodes for their compensation, in
-- the order of the plan's waves, and `reduce_effect_dag_compensation`.
pub mod Barrier
use desk_pilot_agent.Base.{
  ℕ, zero, suc, ◌+◌, String, Bool, true, false, not, ◌&&◌, ◌||◌, ◌==◌, Option, none, some, List, [],
  ◌∷◌, ◌++◌, map, leb, ltb, keep, any_of, all_of, is_some, length, if◌then◌else◌,
}
use desk_pilot_agent.Base.Text.{str_eq, mem}
use desk_pilot_agent.Base.Text.Unique.{unique}
use desk_pilot_agent.Base.Json.{
  Json, Items, Hashing, nil, cons, end, field, str, num, arr, obj, texts,
}
use desk_pilot_agent.Base.Result.{Result, ok, err, ◌>>=◌, ◌>>◌, raise_if, map_result}
use desk_pilot_agent.Tasks.Events.{Source, next_event}
use desk_pilot_agent.Effects.Definitions.{
  CompensationStrategy, no_compensation, receipt_bound_reverse,
}
use desk_pilot_agent.Effects.NodeStatus.{
  EffectNodeStatus, compensating, node_value, is_succeeded, is_compensating, is_compensated,
  is_compensation_unknown, is_compensation_failed,
}
use desk_pilot_agent.Effects.GraphStatus.{
  EffectGraphStatus, graph_value, graph_is, is_compensating_graph,
}
use desk_pilot_agent.Effects.Leases.{Graph, holds_lease, ttl_valid}
use desk_pilot_agent.Effects.Dag.{
  EffectNode, EffectEdge, EffectDag, EffectError, CompensationPlan, invalid_transition,
  graph_fence_rejected, value_invalid, ensure_effect_dag, assert_graph_lease, change_node,
  fence_mutation, dag_event, transition,
}
use desk_pilot_agent.Effects.Reduce.{is_forward}
use desk_pilot_agent.Effects.Admissions.{Proofs, fence_admission_proofs}
use desk_pilot_agent.Effects.Compensation.{is_empty, find_plan}

-- `waves[ordinal]`, and the nodes of the waves before it.
unfoldable pub wave_at : List (List String) → ℕ → Option (List String)
wave_at [] i = none
wave_at (w ∷ ws) zero = some w
wave_at (w ∷ ws) (suc i) = wave_at ws i

unfoldable pub prior_ids : List (List String) → ℕ → List String
prior_ids [] i = []
prior_ids (w ∷ ws) zero = []
prior_ids (w ∷ ws) (suc i) = w ++ prior_ids ws i

-- `WHERE node_id IN ids`
unfoldable pub nodes_in : List String → List EffectNode → List EffectNode
nodes_in ids = keep (λ (n : EffectNode). mem n.node_id ids)

-- The barrier: every node of the waves before is compensated.
unfoldable pub barrier_open : List String → List EffectNode → Bool
unfolding nodes_in all_of
barrier_open prior nodes =
    (length (nodes_in prior nodes) == length prior)
    && all_of (λ (n : EffectNode). is_compensated n.status) (nodes_in prior nodes)

-- The claim of a node has no time or has expired.
unfoldable pub claim_expired : Option ℕ → ℕ → Bool
claim_expired none at = true
claim_expired (some t) at = leb t at

-- The arguments of a claim but the lease.
pub record CompensationClaim : Type 0 where
  pub node_ids : List String
  pub plan_id : String
  pub wave_ordinal : ℕ
  pub claim_owner_id : String
  pub claim_ttl : ℕ
  pub admission_proofs : Option Proofs

claimed_payload : Graph → EffectNode → CompensationClaim → Json
claimed_payload g n c = obj (
    field "graph_id" (str g.graph_id) (
      field "node_id" (str n.node_id) (
        field "node_key" (str n.node_key) (
          field "plan_id" (str c.plan_id) (
            field "wave_ordinal" (num c.wave_ordinal) (
              field "claim_owner_id" (str c.claim_owner_id)
                (field "claim_fencing_token" (num (n.claim_fencing_token + 1)) end)))))))

abbrev pub with_claim : CompensationClaim → ℕ → EffectNode → EffectNode
with_claim c at m = record m {
  claim_owner_id = some c.claim_owner_id;
  claim_acquired_at = some at;
  claim_heartbeat_at = some at;
  claim_expires_at = some (at + c.claim_ttl);
  claim_fencing_token = m.claim_fencing_token + 1;
}

-- The checks of a claim against its plan.
unfoldable pub check_claim :
    CompensationClaim → EffectDag → CompensationPlan → Result EffectError (Unit {0})
unfolding wave_at prior_ids barrier_open
check_claim c d p = elim (wave_at p.waves c.wave_ordinal) [
  | none ↦ err invalid_transition
  | some ids ↦ do
    raise_if (any_of (λ id. not (mem id ids)) c.node_ids) invalid_transition
    let prior = prior_ids p.waves c.wave_ordinal
    raise_if (not (is_empty prior) && not (barrier_open prior d.nodes)) invalid_transition
    raise_if (not (length (nodes_in c.node_ids d.nodes) == length c.node_ids)) invalid_transition
]

module _ (source : Source) (owner : String) (token at : ℕ) where
  -- The body of the loop over the records.
  unfoldable pub claim_node :
      CompensationClaim → EffectDag → EffectNode → Result EffectError EffectDag
  unfolding fence_mutation transition claimed_payload claim_expired
  claim_node c d n = do
    raise_if
        (not (is_succeeded n.status)
          && not (is_compensating n.status && claim_expired n.claim_expires_at at))
        invalid_transition
    fenced ← fence_mutation d n owner token none at
    let claimed : EffectDag = record fenced {
      nodes = change_node (with_claim c at) n.node_id fenced.nodes;
    }
    ok (
        transition source claimed n "effect.compensation.claimed" (claimed_payload d.graph n c)
          "compensation_claimed" compensating EffectGraphStatus.compensating)

  unfoldable pub claim_nodes :
      CompensationClaim → List EffectNode → EffectDag → Result EffectError EffectDag
  unfolding claim_node
  claim_nodes c [] d = ok d
  claim_nodes c (n ∷ ns) d = claim_node c d n >>= claim_nodes c ns

  -- `claim_effect_dag_compensation_nodes`, with the rows it leaves.
  unfoldable pub claim_compensation : EffectDag → CompensationClaim → Result EffectError EffectDag
  unfolding ttl_valid ensure_effect_dag assert_graph_lease find_plan check_claim claim_nodes
  claim_compensation d c = do
    raise_if (is_empty c.node_ids || not (unique c.node_ids)) value_invalid
    raise_if (not (ttl_valid c.claim_ttl)) value_invalid
    ensure_effect_dag d.graph
    raise_if (not (is_compensating_graph d.graph.status)) invalid_transition
    assert_graph_lease d.graph owner token at
    elim (find_plan c.plan_id d.plans) [
      | none ↦ err invalid_transition
      | some p ↦ do
        check_claim c d p
        rows ←
            fence_admission_proofs d.graph.graph_id c.node_ids c.claim_owner_id c.admission_proofs
              at d.admissions
        claim_nodes c (nodes_in c.node_ids d.nodes) (record d { admissions = rows })
    ]

reduced_payload : Graph → String → EffectGraphStatus → Json
unfolding graph_value
reduced_payload g plan_id target = obj (
    field "graph_id" (str g.graph_id) (
      field "plan_id" (str plan_id)
        (field "from" (str (graph_value g.status)) (field "to" (str (graph_value target)) end))))

-- The state that the planned nodes give the graph.
unfoldable pub compensation_status : EffectGraphStatus → List EffectNode → EffectGraphStatus
unfolding any_of all_of
compensation_status current nodes =
    if any_of (λ (n : EffectNode). is_compensation_unknown n.status) nodes
    then EffectGraphStatus.blocked_compensation_unknown
    else if any_of (λ (n : EffectNode). is_compensation_failed n.status) nodes
    then EffectGraphStatus.blocked_compensation_failed
    else if any_of (λ (n : EffectNode). true) nodes
        && all_of (λ (n : EffectNode). is_compensated n.status) nodes
    then EffectGraphStatus.compensated
    else current

flatten_waves : List (List String) → List String
flatten_waves [] = []
flatten_waves (w ∷ ws) = w ++ flatten_waves ws

-- The graph takes the state, where it does not have it.
unfoldable pub finish_compensation :
    Source → EffectDag → String → EffectGraphStatus → String → ℕ → ℕ → Result EffectError EffectDag
unfolding graph_is next_event dag_event reduced_payload
finish_compensation source d plan_id target owner token at =
    if graph_is target d.graph.status then ok d else do
      raise_if (not (holds_lease d.graph owner token at)) graph_fence_rejected
      let payload = reduced_payload d.graph plan_id target
      let event = next_event source d.task "effect_graph.compensation_reduced" payload
      ok (record (dag_event source d "effect_graph.compensation_reduced" payload) {
        graph = record d.graph {
          status = target;
          revision = d.graph.revision + 1;
          updated_at = at;
          last_event_seq = event.seq;
        };
      })

-- `reduce_effect_dag_compensation`, with the rows it leaves.
unfoldable pub reduce_compensation :
    Source → EffectDag → String → String → ℕ → ℕ → Result EffectError EffectDag
unfolding ensure_effect_dag assert_graph_lease find_plan nodes_in flatten_waves finish_compensation
reduce_compensation source d plan_id owner token at = do
  ensure_effect_dag d.graph
  assert_graph_lease d.graph owner token at
  elim (find_plan plan_id d.plans) [
    | none ↦ err invalid_transition
    | some p ↦
        let planned = nodes_in (flatten_waves p.waves) d.nodes in
        finish_compensation source d plan_id (compensation_status d.graph.status planned) owner
          token at
  ]
