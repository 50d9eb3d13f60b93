-- ===== src/Effects/Decisions.antt =====
-- backend/src/deskpilot/application/task_service.py: the decisions that select the branches of an
-- effect DAG, with the digests that bind them to their evidence.
use desk_pilot_agent.Base.{
  ℕ, ◌+◌, String, Bool, true, false, not, ◌&&◌, ◌||◌, ◌==◌, Option, none, some, List, [], ◌∷◌, ◌++◌,
  any_of, all_of, keep, length, leb, is_some, if◌then◌else◌,
}
use desk_pilot_agent.Base.Text.{str_eq, opt_eq, str_lt}
use desk_pilot_agent.Base.Json.{
  Json, Items, Hashing, nil, cons, end, field, str, num, arr, obj, opt_text, codes, is_digit,
  is_lower, is_sha256,
}
use desk_pilot_agent.Base.Result.{Result, ok, err, ◌>>◌, raise_if}
use desk_pilot_agent.Tasks.Events.{TaskEvent, Source, next_event}
use desk_pilot_agent.Effects.NodeStatus.{is_succeeded}
use desk_pilot_agent.Effects.GraphStatus.{is_active_graph}
use desk_pilot_agent.Effects.Leases.{holds_lease}
use desk_pilot_agent.Effects.Dag.{
  EffectNode, EffectEdge, EffectEdgeKind, conditional, BranchDecision, EffectDag, EffectError,
  invalid_transition, graph_fence_rejected, decision_rejected, decision_conflict, value_invalid,
  ensure_effect_dag, assert_graph_lease, find_node, dag_event,
}

abbrev pub is_conditional : EffectEdgeKind → Bool
is_conditional conditional = true
is_conditional _ = false

-- The conditional edges that a decision governs.
unfoldable pub governed_edges : String → String → List EffectEdge → List EffectEdge
unfolding opt_eq
governed_edges source_id key = keep (λ (e : EffectEdge).
    is_conditional e.kind && str_eq e.from_node_id source_id && opt_eq e.decision_key (some key))

-- `key=lambda item: (str(item["to_node_id"]), str(item["edge_id"]))`
edge_before : EffectEdge → EffectEdge → Bool
edge_before e f =
    str_lt e.to_node_id f.to_node_id
    || (str_eq e.to_node_id f.to_node_id && str_lt e.edge_id f.edge_id)

insert_edge : EffectEdge → List EffectEdge → List EffectEdge
insert_edge e [] = e ∷ []
insert_edge e (f ∷ fs) =
    let rest = insert_edge e fs in if edge_before f e then f ∷ rest else e ∷ f ∷ fs

unfoldable pub sorted_edges : List EffectEdge → List EffectEdge
unfolding insert_edge edge_before
sorted_edges [] = []
sorted_edges (e ∷ es) = insert_edge e (sorted_edges es)

unfoldable pub conditions_json : List EffectEdge → Items
conditions_json [] = nil
conditions_json (e ∷ es) =
    cons
      (obj (
        field "edge_id" (str e.edge_id) (
          field "to_node_id" (str e.to_node_id)
            (field "expected_outcome" (opt_text e.expected_outcome) end))))
      (conditions_json es)

-- What `_effect_branch_decision_proof_digest` digests.
unfoldable pub decision_proof :
    String → EffectNode → String → String → String → ℕ → ℕ → List EffectEdge → Json
unfolding governed_edges sorted_edges conditions_json
decision_proof graph_id source key outcome evidence revision event_seq edges = obj (
    field "schema_version" (str "deskpilot.effect-branch-decision.v1") (
      field "graph_id" (str graph_id) (
        field "source_node_id" (str source.node_id) (
          field "source_node_key" (str source.node_key) (
            field "source_status" (str "succeeded") (
              field "source_node_revision" (num revision) (
                field "source_event_seq" (num event_seq) (
                  field "decision_key" (str key) (
                    field "outcome" (str outcome) (
                      field "evidence_digest" (str evidence) (
                        field "conditions"
                          (arr (
                            conditions_json
                              (sorted_edges (governed_edges source.node_id key edges))))
                          end)))))))))))

module _ (h : Hashing) where
  -- `_to_effect_branch_decision`, whose result is the record.
  unfoldable pub check_decision :
      String → BranchDecision → EffectNode → List EffectEdge → Result EffectError (Unit {0})
  unfolding decision_proof
  check_decision graph_id r source edges =
      raise_if
        (not (
            str_eq r.proof_digest (
              h.sha256_digest (
                decision_proof graph_id source r.decision_key r.outcome r.evidence_digest
                  r.source_node_revision r.source_event_seq edges)))
          || not (str_eq r.decision_id r.proof_digest))
        decision_rejected

  -- The loop that fills `decisions_by_key` checks each decision.
  unfoldable pub check_decisions :
      String
      → List EffectNode
      → List EffectEdge
      → List BranchDecision
      → Result EffectError (Unit {0})
  unfolding check_decision
  check_decisions graph_id nodes edges [] = ok tt
  check_decisions graph_id nodes edges (r ∷ rs) =
      elim (find_node r.source_node_id nodes) [
        | none ↦ err decision_rejected
        | some source ↦ check_decision graph_id r source edges
      ]
      >> check_decisions graph_id nodes edges rs

-- `decisions_by_key.get((source, key))`: the outcome of the last decision of that key.
unfoldable pub decided : List BranchDecision → String → String → Option String
decided [] source_id key = none
decided (r ∷ rs) source_id key = elim (decided rs source_id key) [
  | none ↦
      if str_eq r.source_node_id source_id && str_eq r.decision_key key
      then some r.outcome
      else none
  | some outcome ↦ some outcome
]

-- `BRANCH_TOKEN_PATTERN`: `^[a-z][a-z0-9_-]{0,63}$`
token_char : ℕ → Bool
token_char c = is_lower c || is_digit c || c == b'_' || c == b'-'

token_codes : List ℕ → Bool
token_codes [] = false
token_codes (c ∷ cs) = is_lower c && all_of token_char cs && leb (length cs) 63

unfoldable pub is_branch_token : String → Bool
unfolding token_codes token_char codes is_lower is_digit all_of
is_branch_token s = token_codes (codes s)

-- The decision of that source and key, which the table keeps unique.
unfoldable pub find_decision : List BranchDecision → String → String → Option BranchDecision
find_decision [] source_id key = none
find_decision (r ∷ rs) source_id key =
    if str_eq r.source_node_id source_id && str_eq r.decision_key key
    then some r
    else find_decision rs source_id key

decided_payload : String → EffectNode → String → String → String → String → Json
decided_payload graph_id source key outcome evidence digest = obj (
    field "graph_id" (str graph_id) (
      field "decision_id" (str digest) (
        field "source_node_id" (str source.node_id) (
          field "source_node_key" (str source.node_key) (
            field "decision_key" (str key) (
              field "outcome" (str outcome) (
                field "evidence_digest" (str evidence)
                  (field "proof_digest" (str digest) end))))))))

-- The call's arguments but the lease.
pub record DecisionRequest : Type 0 where
  pub source_node_id : String
  pub decision_key : String
  pub outcome : String
  pub evidence_digest : String

-- A repeated decision: the same again, or a conflict.
unfoldable pub repeated_decision : DecisionRequest → BranchDecision → Bool
repeated_decision q r = str_eq r.outcome q.outcome && str_eq r.evidence_digest q.evidence_digest

module _ (h : Hashing) (source : Source) where
  -- The event and the row of a new decision.
  unfoldable pub decision_event : EffectDag → EffectNode → DecisionRequest → TaskEvent
  unfolding decision_proof decided_payload next_event
  decision_event d n q =
      let digest = h.sha256_digest (
        decision_proof d.graph.graph_id n q.decision_key q.outcome q.evidence_digest n.revision
          n.last_event_seq d.edges) in
      next_event source d.task "effect.branch.decided"
        (decided_payload d.graph.graph_id n q.decision_key q.outcome q.evidence_digest digest)

  unfoldable pub decision_row : EffectDag → EffectNode → DecisionRequest → BranchDecision
  unfolding decision_proof decision_event
  decision_row d n q =
      let digest = h.sha256_digest (
        decision_proof d.graph.graph_id n q.decision_key q.outcome q.evidence_digest n.revision
          n.last_event_seq d.edges) in
      record {
        decision_id = digest;
        source_node_id = n.node_id;
        decision_key = q.decision_key;
        outcome = q.outcome;
        evidence_digest = q.evidence_digest;
        source_node_revision = n.revision;
        source_event_seq = n.last_event_seq;
        proof_digest = digest;
        event_seq = (decision_event d n q).seq;
      }

  -- The rows that a new decision leaves.
  unfoldable pub decide : EffectDag → EffectNode → DecisionRequest → ℕ → EffectDag
  unfolding decision_event decision_row dag_event
  decide d n q at =
      let event = decision_event d n q in
      record (dag_event source d "effect.branch.decided" event.payload) {
        graph = record d.graph {
          revision = d.graph.revision + 1;
          last_event_seq = event.seq;
          updated_at = at;
        };
        decisions = d.decisions ++ decision_row d n q ∷ [];
      }

  -- A decision that is not there yet.
  unfoldable pub new_decision :
      EffectDag → EffectNode → DecisionRequest → String → ℕ → ℕ → Result EffectError EffectDag
  unfolding decide
  new_decision d n q owner token at = do
    raise_if
        (not (is_active_graph d.graph.status)
          || is_some d.graph.cancel_requested_at
          || not (is_succeeded n.status))
        invalid_transition
    raise_if (not (holds_lease d.graph owner token at)) graph_fence_rejected
    ok (decide d n q at)

  -- `record_effect_dag_branch_decision`, with the rows it leaves.
  unfoldable pub record_branch_decision :
      EffectDag → DecisionRequest → String → ℕ → ℕ → Result EffectError EffectDag
  unfolding is_branch_token ensure_effect_dag assert_graph_lease check_decision repeated_decision
  record_branch_decision d q owner token at = do
    raise_if (not (is_branch_token q.decision_key)) value_invalid
    raise_if (not (is_branch_token q.outcome)) value_invalid
    raise_if (not (is_sha256 q.evidence_digest)) value_invalid
    ensure_effect_dag d.graph
    assert_graph_lease d.graph owner token at
    elim (find_node q.source_node_id d.nodes) [
      | none ↦ err invalid_transition
      | some n ↦ do
        let governed = governed_edges q.source_node_id q.decision_key d.edges
        raise_if (not (any_of (λ (e : EffectEdge). true) governed)) invalid_transition
        raise_if
            (not (any_of (λ (e : EffectEdge). opt_eq e.expected_outcome (some q.outcome)) governed))
            invalid_transition
        elim (find_decision d.decisions q.source_node_id q.decision_key) [
          | none ↦ new_decision d n q owner token at
          | some r ↦ do
            raise_if (not (repeated_decision q r)) decision_conflict
            check_decision h d.graph.graph_id r n d.edges
            ok d
        ]
    ]
