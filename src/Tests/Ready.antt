-- ===== src/Tests/Ready.antt =====
-- Runs of the projection of the ready nodes, and the theorems about it applied to one.
use desk_pilot_agent.Base.{
  ℕ, String, ◌≡◌, refl, Bool, false, not, ◌&&◌, is_some, none, some, List, [], ◌∷◌, map, keep,
  any_of, all_of,
}
use desk_pilot_agent.Base.Text.{mem, opt_eq}
use desk_pilot_agent.Base.Text.Unique.{unique}
use desk_pilot_agent.Base.Json.{null}
use desk_pilot_agent.Base.Result.{ok, traverse}
use desk_pilot_agent.Effects.Leases.{no_lease}
use desk_pilot_agent.Effects.Reduce.{predecessor_edges, conditional_edges}
use desk_pilot_agent.Tasks.Events.{TaskEvent}
use desk_pilot_agent.Tests.Policy.{one_digest}
use desk_pilot_agent.Tests.Dags.{supply, blank, define, same_text, rows_of, node}
use desk_pilot_agent.Effects.Definitions.{
  NodeDefinition, node_keys, step_ids, unique_conditions, no_degrees, updated, add_dependencies,
  add_definition, add_definitions, release_successors, visit_all, visited_count,
  validate_effect_dag,
}
use desk_pilot_agent.Effects.NodeStatus.{pending, succeeded}
use desk_pilot_agent.Effects.GraphStatus.{EffectGraphStatus, is_active_graph}
use desk_pilot_agent.Effects.Dag.{
  EffectNode, EffectDag, find_node, change_node, dag_event, record_transition,
}
use desk_pilot_agent.Effects.Decisions.{
  check_decisions, decided, governed_edges, DecisionRequest, find_decision, decision_event,
  decision_row, decide,
}
use desk_pilot_agent.Effects.Create.{
  effect_graph_id, effect_node_id, plain_edge, condition_edge, created_dag, create_effect_dag,
}
use desk_pilot_agent.Effects.Ready.{
  Projection, membership, digested, find_row, remaining_of, branches_of, rebuilt_row, count_ready,
  rebuilt_state, rebuild,
}
use desk_pilot_agent.Effects.Ready.Transitions.{
  outgoing, moved_targets, counted_row, refreshed_row, is_refreshed, apply_transition,
}
use desk_pilot_agent.Effects.Ready.Branches.{settle, settled_row, decided_row, apply_decision}
use desk_pilot_agent.Effects.Ready.Upkeep.{
  is_stale, validate_state, all_known, changes, advance, next_state, refreshed,
}
use desk_pilot_agent.Effects.Ready.Reached.{
  Reached, built, moved, settled, counters, reached_rebuilt,
}
use desk_pilot_agent.Effects.Ready.Listed.{listed_ready}
use desk_pilot_agent.Effects.Ready.ReadySet.{is_ready}
use desk_pilot_agent.Effects.Ready.Total.{IsClosed}
use desk_pilot_agent.Effects.Ready.Kept.{Kept}
use desk_pilot_agent.Effects.Ready.Kept.Upkeep.{rebuild-Kept, upkeep-Kept}
use desk_pilot_agent.Effects.Create.Simple.{create_effect_dag-IsSimple}
use desk_pilot_agent.Effects.Ready.{ReadyNode}

-- `b` waits for `a` and for its decision `route` to be `left`; `c` waits for `a`.
abbrev gate : List NodeDefinition
gate =
    define "a" []
    ∷ record (define "b" []) {
      conditional_depends_on =
          record { predecessor_key = "a"; decision_key = "route"; expected_outcome = "left" } ∷ [];
    }
    ∷ define "c" ("a" ∷ [])
    ∷ []

abbrev gate_dag : EffectDag
gate_dag = created_dag same_text supply blank gate 7

gate_created : create_effect_dag same_text supply blank none gate 7 ≡ ok gate_dag
unfolding create_effect_dag validate_effect_dag add_definitions unique node_keys mem step_ids
    add_definition unique_conditions no_degrees add_dependencies updated visited_count visit_all
    release_successors keep any_of
gate_created = refl

abbrev unbuilt : Projection
unbuilt = record { state = none; rows = [] }

abbrev first : Projection
first = rows_of unbuilt (rebuild one_digest gate_dag unbuilt 8)

first_built : rebuild one_digest gate_dag unbuilt 8 ≡ ok first
unfolding rebuild check_decisions traverse rebuilt_row predecessor_edges conditional_edges
    remaining_of branches_of membership digested find_row no_lease find_node decided rebuilt_state
    count_ready keep created_dag condition_edge effect_node_id effect_graph_id plain_edge
first_built = refl

-- `a` succeeds.
abbrev node_a : EffectNode
node_a = elim gate_dag.nodes [ [] ↦ node "a" 0 pending | n ∷ ns ↦ n ]

abbrev event_a : TaskEvent
event_a = record {
  event_id = "e2";
  task_id = "t";
  seq = 2;
  event_type = "effect.node.succeeded";
  timestamp = 9;
  trace_id = "t";
  payload = null;
}

abbrev after_a : EffectDag
after_a =
    record_transition supply gate_dag node_a event_a "tool_succeeded" succeeded
      EffectGraphStatus.active

abbrev second : Projection
second = rows_of first (
    apply_transition one_digest after_a first node_a event_a 1 pending succeeded "tool_succeeded" 9)

second_made :
    apply_transition one_digest after_a first node_a event_a 1 pending succeeded "tool_succeeded" 9
    ≡ ok second
unfolding rebuild check_decisions traverse rebuilt_row predecessor_edges conditional_edges
    remaining_of branches_of membership digested find_row no_lease find_node decided rebuilt_state
    count_ready keep created_dag condition_edge effect_node_id effect_graph_id plain_edge
    apply_transition is_stale validate_state moved_targets outgoing all_known counted_row
    refreshed_row refreshed is_refreshed changes advance next_state all_of any_of mem
    record_transition change_node
second_made = refl

-- `a` decides for the left.
abbrev left : DecisionRequest
left = record {
  source_node_id = node_a.node_id;
  decision_key = "route";
  outcome = "left";
  evidence_digest = "d";
}

abbrev after_left : EffectDag
after_left = decide one_digest supply after_a node_a left 10

abbrev third : Projection
third = rows_of second (
    apply_decision one_digest after_left second (decision_row one_digest supply after_a node_a left)
      (decision_event one_digest supply after_a node_a left) 2 10)

third_made :
    apply_decision one_digest after_left second
      (decision_row one_digest supply after_a node_a left)
      (decision_event one_digest supply after_a node_a left)
      2
      10
    ≡ ok third
unfolding rebuild check_decisions traverse rebuilt_row predecessor_edges conditional_edges
    remaining_of branches_of membership digested find_row no_lease find_node decided rebuilt_state
    count_ready keep created_dag condition_edge effect_node_id effect_graph_id plain_edge
    apply_transition is_stale validate_state moved_targets outgoing all_known counted_row
    refreshed_row refreshed is_refreshed changes advance next_state all_of any_of mem
    record_transition change_node apply_decision settle settled_row decided_row governed_edges
    opt_eq decide decision_row decision_event dag_event
third_made = refl

third_counts : map (λ (x : String × ℕ × ℕ × Bool). x.1) (map counters third.rows) ≡ 0 ∷ 0 ∷ 0 ∷ []
unfolding rebuild check_decisions traverse rebuilt_row predecessor_edges conditional_edges
    remaining_of branches_of membership digested find_row no_lease find_node decided rebuilt_state
    count_ready keep created_dag condition_edge effect_node_id effect_graph_id plain_edge
    apply_transition is_stale validate_state moved_targets outgoing all_known counted_row
    refreshed_row refreshed is_refreshed changes advance next_state all_of any_of mem
    record_transition change_node apply_decision settle settled_row decided_row governed_edges
    opt_eq decide decision_row decision_event dag_event
third_counts = refl

a_found : find_node node_a.node_id gate_dag.nodes ≡ some node_a
unfolding find_node created_dag effect_node_id effect_graph_id
a_found = refl

undecided : find_decision after_a.decisions node_a.node_id "route" ≡ none
unfolding find_decision record_transition created_dag
undecided = refl

third_reached : Reached one_digest supply after_left third
unfolding record_transition decide dag_event created_dag
third_reached =
    settled node_a left 2 10
      (moved node_a node_a event_a "tool_succeeded" succeeded EffectGraphStatus.active 1 9
        (built unbuilt 8 first_built) a_found refl second_made)
      undecided third_made

abbrev again : Projection
again = rows_of third (rebuild one_digest after_left unbuilt 11)

again_built : rebuild one_digest after_left unbuilt 11 ≡ ok again
unfolding rebuild check_decisions traverse rebuilt_row predecessor_edges conditional_edges
    remaining_of branches_of membership digested find_row no_lease find_node decided rebuilt_state
    count_ready keep created_dag condition_edge effect_node_id effect_graph_id plain_edge
    apply_transition is_stale validate_state moved_targets outgoing all_known counted_row
    refreshed_row refreshed is_refreshed changes advance next_state all_of any_of mem
    record_transition change_node apply_decision settle settled_row decided_row governed_edges
    opt_eq decide decision_row decision_event dag_event
again_built = refl

same_edges : after_left.edges ≡ gate_dag.edges
unfolding record_transition decide dag_event
same_edges = refl

reached_rebuilt_example : map counters third.rows ≡ map counters again.rows
reached_rebuilt_example =
    reached_rebuilt one_digest supply same_text blank gate 7 gate_dag after_left third again unbuilt
      11 gate_created same_edges third_reached again_built

abbrev node_b : EffectNode
node_b = elim after_left.nodes [
  | [] ↦ node "b" 1 pending
  | n ∷ ns ↦ elim ns [ [] ↦ n | m ∷ ms ↦ m ]
]

abbrev no_row : ReadyNode
no_row = record {
  node_id = "";
  graph_id = "";
  ordinal = 0;
  remaining_predecessors = 0;
  unresolved_branches = 0;
  branch_rejected = false;
  membership_ready = false;
  revision = 0;
  proof_digest = "";
  updated_at = 0;
}

abbrev row_b : ReadyNode
row_b = elim third.rows [ [] ↦ no_row | n ∷ ns ↦ elim ns [ [] ↦ n | m ∷ ms ↦ m ] ]

b_row : find_row node_b.node_id third.rows ≡ some row_b
unfolding rebuild check_decisions traverse rebuilt_row predecessor_edges conditional_edges
    remaining_of branches_of membership digested find_row no_lease find_node decided rebuilt_state
    count_ready keep created_dag condition_edge effect_node_id effect_graph_id plain_edge
    apply_transition is_stale validate_state moved_targets outgoing all_known counted_row
    refreshed_row refreshed is_refreshed changes advance next_state all_of any_of mem
    record_transition change_node apply_decision settle settled_row decided_row governed_edges
    opt_eq decide decision_row decision_event dag_event
b_row = refl

listed_ready_example :
    is_ready after_left 11 node_b
    ≡ ok (
        is_active_graph after_left.graph.status
        && not (is_some after_left.graph.cancel_requested_at)
        && membership node_b row_b.remaining_predecessors row_b.unresolved_branches
            row_b.branch_rejected 11)
listed_ready_example =
    listed_ready one_digest supply same_text blank gate 7 gate_dag after_left third 11 node_b row_b
      gate_created same_edges third_reached b_row

first-Kept : Kept gate_dag first
first-Kept = rebuild-Kept one_digest gate_dag unbuilt first 8 first_built

gate-IsClosed : IsClosed gate_dag
unfolding IsClosed created_dag condition_edge plain_edge effect_node_id effect_graph_id mem
gate-IsClosed = (refl, (refl, (refl, (refl, tt))))

gate_undecided : find_decision gate_dag.decisions node_a.node_id "route" ≡ none
unfolding find_decision created_dag
gate_undecided = refl

upkeep-Kept_example :
    ((q : Projection) × (apply_transition one_digest
          (record_transition supply gate_dag node_a event_a "tool_succeeded" succeeded
            EffectGraphStatus.active)
          first
          node_a
          event_a
          gate_dag.graph.last_event_seq
          node_a.status
          succeeded
          "tool_succeeded"
          9
        ≡ ok q)
      × Kept
          (record_transition supply gate_dag node_a event_a "tool_succeeded" succeeded
            EffectGraphStatus.active)
          q)
    × ((q : Projection) × (apply_decision one_digest
            (decide one_digest supply gate_dag node_a left 9)
            first
            (decision_row one_digest supply gate_dag node_a left)
            (decision_event one_digest supply gate_dag node_a left)
            gate_dag.graph.last_event_seq
            9
          ≡ ok q)
        × Kept (decide one_digest supply gate_dag node_a left 9) q)
upkeep-Kept_example =
    upkeep-Kept one_digest supply gate_dag first node_a event_a "tool_succeeded" succeeded
      EffectGraphStatus.active left 9
      (create_effect_dag-IsSimple same_text supply blank gate 7 gate_dag gate_created) gate-IsClosed
      first-Kept a_found gate_undecided
