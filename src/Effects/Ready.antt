-- ===== src/Effects/Ready.antt =====
-- backend/src/deskpilot/infrastructure/models.py and application/task_service.py: the tables that
-- project the set of ready nodes of an effect DAG, and how they are rebuilt from its rows. The time
-- that a rebuild takes is not kept.
pub mod ReadySet
pub mod Upkeep
pub mod Transitions
pub mod Branches
pub mod Counters
pub mod Expiry
pub mod Heads
pub mod Recount
pub mod Moved
pub mod Total
pub mod Kept
pub mod Resolved
pub mod Settled
pub mod Reached
pub mod Listed
use desk_pilot_agent.Base.{
  ℕ, suc, ◌+◌, String, Bool, true, false, not, ◌&&◌, ◌||◌, ◌==◌, Option, none, some, List, [], ◌∷◌,
  keep, is_some, length, ltb, if◌then◌else◌,
}
use desk_pilot_agent.Base.Text.{str_eq, opt_eq}
use desk_pilot_agent.Base.Json.{
  Json, Items, Hashing, nil, cons, end, field, str, num, flag, arr, obj,
}
use desk_pilot_agent.Base.Result.{Result, ok, err, ◌>>=◌, ◌>>◌, raise_if, map_result, traverse}
use desk_pilot_agent.Effects.NodeStatus.{EffectNodeStatus, is_pending, is_active, is_succeeded}
use desk_pilot_agent.Effects.GraphStatus.{is_active_graph}
use desk_pilot_agent.Effects.Leases.{Graph, no_lease}
use desk_pilot_agent.Effects.Dag.{
  EffectNode, EffectEdge, BranchDecision, EffectDag, EffectError, key_error, ready_set_rejected,
  find_node,
}
use desk_pilot_agent.Effects.Decisions.{check_decisions, decided}
use desk_pilot_agent.Effects.Reduce.{predecessor_edges, conditional_edges}

-- `ToolEffectDagReadyNodeRecord`
pub record ReadyNode : Type 0 where
  pub node_id : String
  pub graph_id : String
  pub ordinal : ℕ
  pub remaining_predecessors : ℕ
  pub unresolved_branches : ℕ
  pub branch_rejected : Bool
  pub membership_ready : Bool
  pub revision : ℕ
  pub proof_digest : String
  pub updated_at : ℕ

-- `ToolEffectDagReadyStateRecord`
pub record ReadyState : Type 0 where
  pub revision : ℕ
  pub event_seq : ℕ
  pub content_digest : String
  pub membership_version : ℕ
  pub projected_node_count : ℕ
  pub ready_node_count : ℕ
  pub rebuild_count : ℕ
  pub rebuilt_at : ℕ
  pub updated_at : ℕ

-- The projection of one graph, the rows by ordinal.
pub record Projection : Type 0 where
  pub state : Option ReadyState
  pub rows : List ReadyNode

-- `_effect_ready_projection_membership`
unfoldable pub membership : EffectNode → ℕ → ℕ → Bool → ℕ → Bool
unfolding no_lease
membership n remaining unresolved rejected at =
    not rejected
    && remaining == 0
    && unresolved == 0
    && (is_pending n.status || is_active n.status)
    && no_lease n.claim_owner_id n.claim_expires_at at

-- What `_effect_ready_projection_node_digest` digests.
node_proof : ReadyNode → Json
node_proof r = obj (
    field "schema_version" (str "deskpilot.effect-ready-projection-node.v2") (
      field "graph_id" (str r.graph_id) (
        field "node_id" (str r.node_id) (
          field "ordinal" (num r.ordinal) (
            field "remaining_predecessors" (num r.remaining_predecessors) (
              field "unresolved_branches" (num r.unresolved_branches) (
                field "branch_rejected" (flag r.branch_rejected) (
                  field "membership_ready" (flag r.membership_ready)
                    (field "revision" (num r.revision) end)))))))))

-- A row with the digest of its other fields.
unfoldable pub digested : Hashing → ReadyNode → ReadyNode
unfolding node_proof
digested h r = record r { proof_digest = h.sha256_digest (node_proof r) }

-- `existing_rows.get(node_id)`
unfoldable pub find_row : String → List ReadyNode → Option ReadyNode
find_row id [] = none
find_row id (r ∷ rs) = if str_eq r.node_id id then some r else find_row id rs

-- The predecessors that have not succeeded, of the edges to a node.
unfoldable pub remaining_of : List EffectNode → List EffectEdge → Result EffectError ℕ
unfolding find_node
remaining_of nodes [] = ok 0
remaining_of nodes (e ∷ es) =
    let rest = remaining_of nodes es in
    elim (find_node e.from_node_id nodes) [
      | none ↦ err key_error
      | some n ↦ map_result (λ (k : ℕ). if is_succeeded n.status then k else suc k) rest
    ]

-- One edge adds an open branch, or rejects the node, by the decision that it waits for.
abbrev pub count_branch : Option String → Option String → ℕ × Bool → ℕ × Bool
count_branch none expected (unresolved, rejected) = (suc unresolved, rejected)
count_branch (some outcome) expected (unresolved, rejected) =
    (unresolved, not (opt_eq (some outcome) expected) || rejected)

unfoldable pub branches_of : List BranchDecision → List EffectEdge → Result EffectError (ℕ × Bool)
unfolding decided
branches_of decisions [] = ok (0, false)
branches_of decisions (e ∷ es) =
    let rest = branches_of decisions es in
    elim e.decision_key [
      | none ↦ err ready_set_rejected
      | some key ↦
          if is_some e.expected_outcome
          then map_result (count_branch (decided decisions e.from_node_id key) e.expected_outcome)
              rest
          else err ready_set_rejected
    ]

abbrev next_revision : Option ReadyNode → ℕ
next_revision none = 1
next_revision (some r) = r.revision + 1

-- The body of the loop over the nodes.
unfoldable pub rebuilt_row :
    Hashing → EffectDag → List ReadyNode → ℕ → EffectNode → Result EffectError ReadyNode
unfolding predecessor_edges conditional_edges remaining_of branches_of membership digested find_row
rebuilt_row h d existing at n = do
  remaining ← remaining_of d.nodes (predecessor_edges d.edges n.node_id)
  branches ← branches_of d.decisions (conditional_edges d.edges n.node_id)
  ok (
      digested h (record {
        node_id = n.node_id;
        graph_id = d.graph.graph_id;
        ordinal = n.ordinal;
        remaining_predecessors = remaining;
        unresolved_branches = branches.0;
        branch_rejected = branches.1;
        membership_ready = membership n remaining branches.0 branches.1 at;
        revision = next_revision (find_row n.node_id existing);
        proof_digest = "";
        updated_at = at;
      }))

row_proofs : List ReadyNode → Items
row_proofs [] = nil
row_proofs (r ∷ rs) = cons (str r.proof_digest) (row_proofs rs)

unfoldable pub proofs_of : List ReadyNode → Json
unfolding row_proofs
proofs_of rows = arr (row_proofs rows)

rebuild_proof : Graph → ℕ → List ReadyNode → ℕ → Json
unfolding proofs_of
rebuild_proof g revision rows ready = obj (
    field "schema_version" (str "deskpilot.effect-ready-projection-rebuild.v2") (
      field "graph_id" (str g.graph_id) (
        field "event_seq" (num g.last_event_seq) (
          field "state_revision" (num revision) (
            field "projected_node_count" (num (length rows))
              (field "ready_node_count" (num ready) (field "nodes" (proofs_of rows) end)))))))

abbrev state_revision : Option ReadyState → ℕ
state_revision none = 1
state_revision (some s) = s.revision + 1

abbrev rebuilds : Option ReadyState → ℕ
rebuilds none = 1
rebuilds (some s) = s.rebuild_count + 1

unfoldable pub count_ready : List ReadyNode → ℕ
unfolding keep
count_ready rows = length (keep (λ (r : ReadyNode). r.membership_ready) rows)

-- The head that a rebuild writes.
unfoldable pub rebuilt_state : Hashing → Graph → Option ReadyState → List ReadyNode → ℕ → ReadyState
unfolding count_ready rebuild_proof
rebuilt_state h g previous rows at =
    let revision = state_revision previous in
    record {
      revision = revision;
      event_seq = g.last_event_seq;
      content_digest = h.sha256_digest (rebuild_proof g revision rows (count_ready rows));
      membership_version = 1;
      projected_node_count = length rows;
      ready_node_count = count_ready rows;
      rebuild_count = rebuilds previous;
      rebuilt_at = at;
      updated_at = at;
    }

-- `_rebuild_effect_dag_ready_projection`
unfoldable pub rebuild : Hashing → EffectDag → Projection → ℕ → Result EffectError Projection
unfolding check_decisions rebuilt_row rebuilt_state
rebuild h d p at = do
  check_decisions h d.graph.graph_id d.nodes d.edges d.decisions
  rows ← traverse (rebuilt_row h d p.rows at) d.nodes
  ok (record { state = some (rebuilt_state h d.graph p.state rows at); rows = rows })
