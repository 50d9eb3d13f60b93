-- ===== src/Effects/Create.antt =====
-- backend/src/deskpilot/domain/effect_graph.py and application/task_service.py: the identities of
-- the parts of an effect DAG, and `create_effect_dag`. The hash of a text is a parameter.
pub mod Compensable
pub mod Simple
use desk_pilot_agent.Base.{
  ℕ, suc, ◌+◌, String, Bool, true, false, not, Option, none, some, List, [], ◌∷◌, ◌++◌, map,
  if◌then◌else◌,
}
use Prim.Native.String.{◌++◌ as str_append}
use desk_pilot_agent.Base.Text.{str_eq}
use desk_pilot_agent.Base.Text.Unique.{unique}
use desk_pilot_agent.Base.Json.{Json, Items, nil, cons, end, field, str, num, arr, obj, texts}
use desk_pilot_agent.Base.Result.{Result, ok, err, ◌>>=◌, ◌>>◌, raise_if}
use desk_pilot_agent.Tasks.Events.{Task, Source, next_event, append_event_record}
use desk_pilot_agent.Effects.Definitions.{
  NodeDefinition, BranchCondition, CompensationStrategy, no_compensation, receipt_bound_reverse,
  DagError, validate_effect_dag,
}
use desk_pilot_agent.Effects.NodeStatus.{pending}
use desk_pilot_agent.Effects.GraphStatus.{EffectGraphStatus, forward_mode}
use desk_pilot_agent.Effects.Leases.{Graph}
use desk_pilot_agent.Effects.Dag.{
  EffectNode, EffectEdge, EffectEdgeKind, success, conditional, compensation_order, EffectDag,
  EffectError, definition_invalid, invalid_transition, key_error, dag_schema,
}

-- `"\x1f".join(parts)`
joined : List String → String
joined [] = ""
joined (p ∷ []) = p
joined (p ∷ q ∷ ps) = str_append p (str_append "\u{1f}" (joined (q ∷ ps)))

abbrev kind_value : EffectEdgeKind → String
kind_value success = "success"
kind_value conditional = "conditional"
kind_value compensation_order = "compensation_order"

abbrev strategy_value : CompensationStrategy → String
strategy_value no_compensation = "none"
strategy_value receipt_bound_reverse = "receipt_bound_reverse"

conditions_json : List BranchCondition → Items
conditions_json [] = nil
conditions_json (c ∷ cs) =
    cons
      (obj (
        field "predecessor_key" (str c.predecessor_key) (
          field "decision_key" (str c.decision_key)
            (field "expected_outcome" (str c.expected_outcome) end))))
      (conditions_json cs)

-- The error of the validation.
abbrev pub as_definition_error : Result DagError (Unit {0}) → Result EffectError (Unit {0})
as_definition_error (ok a) = ok a
as_definition_error (err e) = err (definition_invalid e)

-- `sha256(text.encode("utf-8")).hexdigest()`
module _ (sha256 : String → String) where
  -- `_stable_identity`, without its prefix.
  unfoldable pub stable_identity : List String → String
  unfolding joined
  stable_identity parts = sha256 (joined parts)

  -- `effect_graph_id` of a v2 graph, and `effect_node_id`.
  unfoldable pub effect_graph_id : String → String
  unfolding stable_identity
  effect_graph_id task_id = stable_identity (dag_schema ∷ task_id ∷ [])

  unfoldable pub effect_node_id : String → String → String
  unfolding stable_identity
  effect_node_id graph_id node_key = stable_identity (graph_id ∷ node_key ∷ [])

  -- `effect_edge_id`, of an edge without a condition and of one with.
  plain_edge_id : String → String → String → EffectEdgeKind → String
  unfolding stable_identity
  plain_edge_id graph_id from to kind =
      stable_identity (graph_id ∷ from ∷ to ∷ kind_value kind ∷ [])

  condition_edge_id : String → String → String → BranchCondition → String
  unfolding stable_identity
  condition_edge_id graph_id from to c =
      stable_identity
        (graph_id ∷ from ∷ to ∷ kind_value conditional ∷ c.decision_key ∷ c.expected_outcome ∷ [])

  -- The edges of an unconditional dependency, and of a condition.
  unfoldable pub plain_edge : String → String → String → EffectEdgeKind → EffectEdge
  unfolding plain_edge_id
  plain_edge graph_id from to kind = record {
    edge_id = plain_edge_id graph_id from to kind;
    from_node_id = from;
    to_node_id = to;
    kind = kind;
    decision_key = none;
    expected_outcome = none;
  }

  unfoldable pub condition_edge : String → String → String → BranchCondition → EffectEdge
  unfolding condition_edge_id
  condition_edge graph_id from to c = record {
    edge_id = condition_edge_id graph_id from to c;
    from_node_id = from;
    to_node_id = to;
    kind = conditional;
    decision_key = some c.decision_key;
    expected_outcome = some c.expected_outcome;
  }

  unfoldable pub dependency_edges : String → String → List String → List EffectEdge
  dependency_edges graph_id current [] = []
  dependency_edges graph_id current (key ∷ keys) =
      plain_edge graph_id (effect_node_id graph_id key) current success
      ∷ plain_edge graph_id current (effect_node_id graph_id key) compensation_order
      ∷ dependency_edges graph_id current keys

  unfoldable pub condition_edges : String → String → List BranchCondition → List EffectEdge
  condition_edges graph_id current [] = []
  condition_edges graph_id current (c ∷ cs) =
      condition_edge graph_id (effect_node_id graph_id c.predecessor_key) current c
      ∷ plain_edge graph_id current (effect_node_id graph_id c.predecessor_key) compensation_order
      ∷ condition_edges graph_id current cs

  -- The edges of all definitions.
  unfoldable pub created_edges : String → List NodeDefinition → List EffectEdge
  unfolding dependency_edges condition_edges
  created_edges graph_id [] = []
  created_edges graph_id (d ∷ ds) =
      dependency_edges graph_id (effect_node_id graph_id d.node_key) d.depends_on
      ++ condition_edges graph_id (effect_node_id graph_id d.node_key) d.conditional_depends_on
      ++ created_edges graph_id ds

  -- The nodes, by their ordinals.
  unfoldable pub created_nodes : String → ℕ → ℕ → ℕ → List NodeDefinition → List EffectNode
  created_nodes graph_id seq now ordinal [] = []
  created_nodes graph_id seq now ordinal (d ∷ ds) =
      record {
        node_id = effect_node_id graph_id d.node_key;
        node_key = d.node_key;
        ordinal = ordinal;
        step_id = d.step_id;
        tool_name = d.tool_name;
        tool_version = d.tool_version;
        contract_digest = d.contract_digest;
        compensation_strategy = d.compensation_strategy;
        status = pending;
        revision = 1;
        last_event_seq = seq;
        updated_at = now;
        claim_owner_id = none;
        claim_acquired_at = none;
        claim_heartbeat_at = none;
        claim_expires_at = none;
        claim_fencing_token = 0;
      }
      ∷ created_nodes graph_id seq now (ordinal + 1) ds

  nodes_json : String → ℕ → List NodeDefinition → Items
  unfolding conditions_json
  nodes_json graph_id ordinal [] = nil
  nodes_json graph_id ordinal (d ∷ ds) =
      cons
        (obj (
          field "node_id" (str (effect_node_id graph_id d.node_key)) (
            field "node_key" (str d.node_key) (
              field "ordinal" (num ordinal) (
                field "step_id" (str d.step_id) (
                  field "tool" (str d.tool_name) (
                    field "tool_version" (str d.tool_version) (
                      field "contract_digest" (str d.contract_digest) (
                        field "compensation_strategy" (str (strategy_value d.compensation_strategy))
                          (field "depends_on" (arr (texts d.depends_on)) (
                            field "conditional_depends_on"
                              (arr (conditions_json d.conditional_depends_on)) end)))))))))))
        (nodes_json graph_id (ordinal + 1) ds)

  unfoldable pub created_payload : String → List NodeDefinition → Json
  unfolding nodes_json
  created_payload graph_id ds = obj (
      field "graph_id" (str graph_id) (
        field "schema_version" (str dag_schema)
          (field "nodes" (arr (nodes_json graph_id 0 ds)) end)))

  abbrev created_graph : String → ℕ → ℕ → Graph
  created_graph graph_id seq now = record {
    graph_id = graph_id;
    schema_version = dag_schema;
    status = EffectGraphStatus.active;
    execution_mode = forward_mode;
    cancel_requested_at = none;
    last_event_seq = seq;
    revision = 1;
    lease_owner_id = none;
    lease_acquired_at = none;
    lease_heartbeat_at = none;
    lease_expires_at = none;
    fencing_token = 0;
    updated_at = now;
  }

  -- The rows of a new DAG.
  unfoldable pub created_dag : Source → Task → List NodeDefinition → ℕ → EffectDag
  unfolding created_payload next_event append_event_record created_nodes created_edges
  created_dag source task ds now =
      let graph_id = effect_graph_id task.task_id in
      let payload = created_payload graph_id ds in
      let event = next_event source task "effect_graph.created" payload in
      record {
        task = append_event_record source task "effect_graph.created" payload none;
        graph = created_graph graph_id event.seq now;
        nodes = created_nodes graph_id event.seq now 0 ds;
        edges = created_edges graph_id ds;
        decisions = [];
        transitions = [];
        plans = [];
        admissions = [];
      }

  -- `create_effect_dag`, with the rows it leaves, for a task and the DAG that it has. The primary key
  -- of the nodes refuses IDs that are equal.
  unfoldable pub create_effect_dag :
      Source → Task → Option EffectDag → List NodeDefinition → ℕ → Result EffectError EffectDag
  unfolding effect_graph_id effect_node_id created_dag
  create_effect_dag source task existing ds now = do
    as_definition_error (validate_effect_dag ds)
    elim existing [
      | some d ↦ do
        raise_if (not (str_eq d.graph.schema_version dag_schema)) invalid_transition
        ok d
      | none ↦ do
        let created : EffectDag = created_dag source task ds now
        raise_if (not (unique (map (λ (n : EffectNode). n.node_id) created.nodes))) key_error
        ok created
    ]
