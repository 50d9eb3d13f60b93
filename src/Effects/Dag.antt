-- ===== src/Effects/Dag.antt =====
-- backend/src/deskpilot/infrastructure/models.py and application/task_service.py: an effect DAG with
-- its rows, and the parts of a call that the operations on DAGs share. A call holds the task's lock
-- and is one database transaction: where it raises, nothing of it is kept; the database's clock is
-- read once, `at`. Ready models the tables that project the set of ready nodes from these rows.
use desk_pilot_agent.Base.{
  ℕ, ◌+◌, String, Bool, true, not, ◌&&◌, ◌==◌, Option, none, some, List, [], ◌∷◌, if◌then◌else◌,
}
use desk_pilot_agent.Base.Text.{str_eq}
use desk_pilot_agent.Base.Json.{Json}
use desk_pilot_agent.Base.Result.{Result, ok, err, ◌>>◌, raise_if}
use desk_pilot_agent.Tasks.Events.{Task, TaskEvent, Source, next_event, append_event_record}
use desk_pilot_agent.Effects.Definitions.{CompensationStrategy, DagError}
use desk_pilot_agent.Effects.NodeStatus.{EffectNodeStatus}
use desk_pilot_agent.Effects.GraphStatus.{EffectGraphStatus}
use desk_pilot_agent.Effects.Leases.{Graph, holds_lease, owned_by, live_at}

-- `ToolEffectNodeRecord`
pub record EffectNode : Type 0 where
  pub node_id : String
  pub node_key : String
  pub ordinal : ℕ
  pub step_id : String
  pub tool_name : String
  pub tool_version : String
  pub contract_digest : String
  pub compensation_strategy : CompensationStrategy
  pub status : EffectNodeStatus
  pub revision : ℕ
  pub last_event_seq : ℕ
  pub updated_at : ℕ
  pub claim_owner_id : Option String
  pub claim_acquired_at : Option ℕ
  pub claim_heartbeat_at : Option ℕ
  pub claim_expires_at : Option ℕ
  pub claim_fencing_token : ℕ

pub data EffectEdgeKind : Type 0 where
  success conditional compensation_order : EffectEdgeKind

-- `ToolEffectEdgeRecord`
pub record EffectEdge : Type 0 where
  pub edge_id : String
  pub from_node_id : String
  pub to_node_id : String
  pub kind : EffectEdgeKind
  pub decision_key : Option String
  pub expected_outcome : Option String

-- `ToolEffectBranchDecisionRecord`, but for the ID of its event and its time.
pub record BranchDecision : Type 0 where
  pub decision_id : String
  pub source_node_id : String
  pub decision_key : String
  pub outcome : String
  pub evidence_digest : String
  pub source_node_revision : ℕ
  pub source_event_seq : ℕ
  pub proof_digest : String
  pub event_seq : ℕ

-- `ToolEffectTransitionRecord`; its ID is a digest of that of its event.
pub record EffectTransition : Type 0 where
  pub node_id : String
  pub event_id : String
  pub event_seq : ℕ
  pub transition_kind : String
  pub from_status : EffectNodeStatus
  pub to_status : EffectNodeStatus
  pub graph_from_status : EffectGraphStatus
  pub graph_to_status : EffectGraphStatus
  pub created_at : ℕ

-- `ToolEffectCompensationPlanRecord`; its ID is `proof_digest` with a prefix.
pub record CompensationPlan : Type 0 where
  pub graph_revision : ℕ
  pub event_seq : ℕ
  pub waves : List (List String)
  pub proof_digest : String
  pub created_at : ℕ

-- `ToolEffectDagAdmissionRecord`, as far as the claims of nodes use it.
pub record AdmissionRow : Type 0 where
  pub admission_id : String
  pub graph_id : String
  pub node_id : String
  pub owner_id : String
  pub granted : Bool
  pub fencing_token : ℕ
  pub expires_at : ℕ
  pub revision : ℕ
  pub heartbeat_at : ℕ

-- A task with its effect DAG: the nodes by ordinal, the latest transition first.
pub record EffectDag : Type 0 where
  pub task : Task
  pub graph : Graph
  pub nodes : List EffectNode
  pub edges : List EffectEdge
  pub decisions : List BranchDecision
  pub transitions : List EffectTransition
  pub plans : List CompensationPlan
  pub admissions : List AdmissionRow

pub data EffectError : Type 0 where
  definition_invalid : DagError → EffectError
  invalid_transition graph_fence_rejected node_fence_rejected ready_set_rejected : EffectError
  decision_rejected decision_conflict admission_rejected value_invalid key_error : EffectError

abbrev pub dag_schema : String
dag_schema = "deskpilot.tool-effect-graph.v2"

-- `_ensure_effect_dag`
unfoldable pub ensure_effect_dag : Graph → Result EffectError (Unit {0})
ensure_effect_dag g = raise_if (not (str_eq g.schema_version dag_schema)) invalid_transition

-- `_assert_effect_graph_lease`
unfoldable pub assert_graph_lease : Graph → String → ℕ → ℕ → Result EffectError (Unit {0})
assert_graph_lease g owner token at =
    raise_if (not (holds_lease g owner token at)) graph_fence_rejected

-- `nodes_by_id.get(node_id)`
unfoldable pub find_node : String → List EffectNode → Option EffectNode
find_node id [] = none
find_node id (n ∷ ns) = if str_eq n.node_id id then some n else find_node id ns

-- The row with an ID is changed.
unfoldable pub change_node : (EffectNode → EffectNode) → String → List EffectNode → List EffectNode
change_node f id [] = []
change_node f id (n ∷ ns) = (if str_eq n.node_id id then f n else n) ∷ change_node f id ns

-- `nodes_by_id[node_id]`
unfoldable pub get_node : String → List EffectNode → Result EffectError EffectNode
unfolding find_node
get_node id ns = elim (find_node id ns) [ none ↦ err key_error | some n ↦ ok n ]

-- The owner and fence of a node's claim, where the call gives them.
abbrev pub NodeClaim : Type 0
NodeClaim = Option (String × ℕ)

-- The live claim of a node is this one.
unfoldable pub holds_claim : EffectNode → NodeClaim → ℕ → Bool
holds_claim n none at = true
holds_claim n (some (owner, token)) at =
    owned_by n.claim_owner_id owner
    && n.claim_fencing_token == token
    && live_at n.claim_expires_at at

-- `_fence_effect_mutation`: the revisions are claimed while the leases are live.
unfoldable pub fence_mutation :
    EffectDag → EffectNode → String → ℕ → NodeClaim → ℕ → Result EffectError EffectDag
fence_mutation d n owner token claim at = do
  raise_if (not (holds_lease d.graph owner token at)) graph_fence_rejected
  raise_if (not (holds_claim n claim at)) node_fence_rejected
  ok (record d {
    graph = record d.graph { revision = d.graph.revision + 1; updated_at = at };
    nodes =
        change_node (λ (m : EffectNode). record m { revision = m.revision + 1; updated_at = at })
          n.node_id d.nodes;
  })

-- The event of a node or graph.
unfoldable pub dag_event : Source → EffectDag → String → Json → EffectDag
dag_event source d event_type payload = record d {
  task = append_event_record source d.task event_type payload none;
}

-- `_record_effect_transition` without revisions, for an event that was appended last.
unfoldable pub record_transition :
    Source
    → EffectDag
    → EffectNode
    → TaskEvent
    → String
    → EffectNodeStatus
    → EffectGraphStatus
    → EffectDag
unfolding change_node
record_transition source d n event kind target target_graph = record d {
  nodes =
      change_node
        (λ (m : EffectNode). record m {
          status = target;
          last_event_seq = event.seq;
          updated_at = source.clock event.seq;
        })
        n.node_id d.nodes;
  graph = record d.graph {
    status = target_graph;
    last_event_seq = event.seq;
    updated_at = source.clock event.seq;
  };
  transitions =
      record {
        node_id = n.node_id;
        event_id = event.event_id;
        event_seq = event.seq;
        transition_kind = kind;
        from_status = n.status;
        to_status = target;
        graph_from_status = d.graph.status;
        graph_to_status = target_graph;
        created_at = source.clock event.seq;
      }
      ∷ d.transitions;
}

-- A node's event, and the transition that it tells of.
unfoldable pub transition :
    Source
    → EffectDag
    → EffectNode
    → String
    → Json
    → String
    → EffectNodeStatus
    → EffectGraphStatus
    → EffectDag
unfolding dag_event next_event record_transition
transition source d n event_type payload kind target target_graph =
    record_transition source (dag_event source d event_type payload) n
      (next_event source d.task event_type payload) kind target target_graph
