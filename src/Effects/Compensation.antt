-- ===== src/Effects/Compensation.antt =====
-- backend/src/deskpilot/application/task_service.py: the compensation of an effect DAG. A plan is a
-- list of waves; a wave is claimed after those before it are compensated.
pub mod Waves
use desk_pilot_agent.Base.{
  ℕ, zero, suc, ◌+◌, String, Bool, true, false, not, ◌&&◌, ◌||◌, ◌==◌, Option, none, some, List, [],
  ◌∷◌, ◌++◌, map, leb, ltb, keep, any_of, all_of, is_some, length, if◌then◌else◌,
}
use desk_pilot_agent.Base.Text.{str_eq, mem}
use desk_pilot_agent.Base.Text.Unique.{unique}
use desk_pilot_agent.Base.Json.{
  Json, Items, Hashing, nil, cons, end, field, str, num, arr, obj, texts,
}
use desk_pilot_agent.Base.Result.{Result, ok, err, ◌>>=◌, ◌>>◌, raise_if, map_result}
use desk_pilot_agent.Tasks.Events.{Source, next_event}
use desk_pilot_agent.Effects.Definitions.{
  CompensationStrategy, no_compensation, receipt_bound_reverse,
}
use desk_pilot_agent.Effects.NodeStatus.{
  EffectNodeStatus, compensating, node_value, is_succeeded, is_compensating, is_compensated,
  is_compensation_unknown, is_compensation_failed,
}
use desk_pilot_agent.Effects.GraphStatus.{
  EffectGraphStatus, graph_value, graph_is, is_compensating_graph,
}
use desk_pilot_agent.Effects.Leases.{Graph, holds_lease, ttl_valid}
use desk_pilot_agent.Effects.Dag.{
  EffectNode, EffectEdge, EffectDag, EffectError, CompensationPlan, invalid_transition,
  graph_fence_rejected, value_invalid, ensure_effect_dag, assert_graph_lease, change_node,
  fence_mutation, dag_event, transition,
}
use desk_pilot_agent.Effects.Reduce.{is_forward, node_ids}
use desk_pilot_agent.Effects.Admissions.{Proofs, fence_admission_proofs}

abbrev pub is_reversible : CompensationStrategy → Bool
is_reversible receipt_bound_reverse = true
is_reversible no_compensation = false

-- `selected`: the nodes to compensate, by ordinal.
unfoldable pub selected_nodes : List EffectNode → List EffectNode
selected_nodes =
    keep (λ (n : EffectNode). is_succeeded n.status && is_reversible n.compensation_strategy)

-- `to in successor_ids[from]`
unfoldable pub follows : List EffectEdge → List String → String → String → Bool
unfolding any_of
follows edges selected from to =
    any_of
      (λ (e : EffectEdge).
        is_forward e.kind && str_eq e.from_node_id from && str_eq e.to_node_id to)
      edges
    && mem from selected
    && mem to selected

-- The nodes of `remaining` that nothing in `remaining` follows.
unfoldable pub wave : (String → String → Bool) → List String → List String
wave follows remaining = keep (λ id. not (any_of (follows id) remaining)) remaining

abbrev pub is_empty : List String → Bool
is_empty [] = true
is_empty _ = false

-- `while remaining: …`; each round takes a node at least, so that the fuel is the number of nodes.
unfoldable pub plan_waves :
    ℕ → (String → String → Bool) → List String → Result EffectError (List (List String))
unfolding wave
plan_waves fuel follows [] = ok []
plan_waves zero follows (x ∷ xs) = err invalid_transition
plan_waves (suc fuel) follows (x ∷ xs) =
    let ready = wave follows (x ∷ xs) in
    let rest = plan_waves fuel follows (keep (λ id. not (mem id ready)) (x ∷ xs)) in
    if is_empty ready then err invalid_transition else map_result (◌∷◌ ready) rest

nodes_proof : List EffectNode → Items
nodes_proof [] = nil
nodes_proof (n ∷ ns) =
    cons
      (obj (
        field "node_id" (str n.node_id) (
          field "status" (str (node_value n.status)) (
            field "revision" (num n.revision)
              (field "last_event_seq" (num n.last_event_seq) end)))))
      (nodes_proof ns)

waves_proof : ℕ → List (List String) → Items
waves_proof ordinal [] = nil
waves_proof ordinal (w ∷ ws) =
    cons (obj (field "ordinal" (num ordinal) (field "node_ids" (arr (texts w)) end)))
      (waves_proof (ordinal + 1) ws)

-- What the digest of a plan digests.
unfoldable pub plan_proof : Graph → List EffectNode → List (List String) → Json
unfolding nodes_proof waves_proof
plan_proof g selected waves = obj (
    field "schema_version" (str "deskpilot.effect-compensation-plan.v1") (
      field "graph_id" (str g.graph_id) (
        field "graph_revision" (num g.revision) (
          field "event_seq" (num g.last_event_seq) (
            field "nodes" (arr (nodes_proof selected))
              (field "waves" (arr (waves_proof 0 waves)) end))))))

-- `session.get(ToolEffectCompensationPlanRecord, plan_id)`
unfoldable pub find_plan : String → List CompensationPlan → Option CompensationPlan
find_plan digest [] = none
find_plan digest (p ∷ ps) = if str_eq p.proof_digest digest then some p else find_plan digest ps

-- The waves of a DAG's nodes and edges.
unfoldable pub waves_of : EffectDag → Result EffectError (List (List String))
unfolding selected_nodes follows plan_waves
waves_of d =
    let ids = node_ids (selected_nodes d.nodes) in plan_waves (length ids) (follows d.edges ids) ids

-- The plan is stored unless it is there.
unfoldable pub store_plan :
    Hashing → EffectDag → List (List String) → ℕ → EffectDag × CompensationPlan
unfolding plan_proof find_plan
store_plan h d waves at =
    let digest = h.sha256_digest (plan_proof d.graph (selected_nodes d.nodes) waves) in
    elim (find_plan digest d.plans) [
      | some p ↦ (d, p)
      | none ↦
          let p : CompensationPlan = record {
            graph_revision = d.graph.revision;
            event_seq = d.graph.last_event_seq;
            waves = waves;
            proof_digest = digest;
            created_at = at;
          } in
          (record d { plans = p ∷ d.plans }, p)
    ]

-- `plan_effect_dag_compensation`, with the rows it leaves.
unfoldable pub plan_compensation :
    Hashing → EffectDag → String → ℕ → ℕ → Result EffectError (EffectDag × CompensationPlan)
unfolding ensure_effect_dag assert_graph_lease waves_of store_plan
plan_compensation h d owner token at = do
  ensure_effect_dag d.graph
  assert_graph_lease d.graph owner token at
  raise_if (not (is_compensating_graph d.graph.status)) invalid_transition
  waves ← waves_of d
  ok (store_plan h d waves at)
