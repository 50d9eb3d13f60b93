-- ===== src/Tests/Dags.antt =====
-- Runs of the operations on effect DAGs.
use desk_pilot_agent.Base.{
  All, ℕ, ◌+◌, false, String, ◌≡◌, ◌↔◌, refl, true, false, none, some, List, [], ◌∷◌, any_of,
  all_of, keep, if◌then◌else◌,
}
use desk_pilot_agent.Base.Text.{mem, str_eq}
use desk_pilot_agent.Base.Text.Unique.{unique}
use desk_pilot_agent.Base.Result.{Result, ok, err}
use desk_pilot_agent.Tests.Policy.{one_digest}
use desk_pilot_agent.Tasks.Events.{Task, Source, next_event, append_event_record}
use desk_pilot_agent.Tasks.Status.{created}
use desk_pilot_agent.Effects.NodeStatus.{
  EffectNodeStatus, pending, active, running, succeeded, failed, skipped, compensated, node_value,
  status_in,
}
use desk_pilot_agent.Effects.GraphStatus.{EffectGraphStatus, forward_mode, graph_is, graph_value}
use desk_pilot_agent.Effects.Definitions.{
  NodeDefinition, receipt_bound_reverse, validate_effect_dag, cyclic, add_definitions, node_keys,
  step_ids, add_definition, unique_conditions, no_degrees, add_dependencies, updated, visited_count,
  visit_all, release_successors,
}
use desk_pilot_agent.Effects.Definitions.Ranking.{IsDag}
use desk_pilot_agent.Effects.Definitions.Valid.{validate_effect_dag_iff}
use desk_pilot_agent.Effects.Leases.{Graph, ttl_valid, holds_lease, owned_by, live_at}
use desk_pilot_agent.Effects.Decisions.{check_decisions, decided}
use desk_pilot_agent.Effects.Dag.{
  EffectNode, EffectEdge, success, EffectDag, CompensationPlan, invalid_transition, find_node,
  get_node, holds_claim, ensure_effect_dag, assert_graph_lease, fence_mutation, transition,
  dag_event, record_transition, change_node,
}
use desk_pilot_agent.Effects.Reduce.{
  check_edges, reduce_rounds, reduce_nodes, reduce_node, reduce_pending, branch_not_selected,
  conditional_edges, predecessor_edges, has_ended_predecessor, status_of, predecessors_succeeded,
  end_node, derived_state, any_status, move_graph, reduce_effect_dag, node_ids,
}
use desk_pilot_agent.Effects.Reduce.Closure.{state, final_state}
use desk_pilot_agent.Effects.Reduce.Verdict.{
  Justified, reduce_effect_dag-fixpoint, reduce_effect_dag-Justified,
}
use desk_pilot_agent.Effects.Compensation.{
  selected_nodes, follows, wave, is_empty, plan_waves, waves_of, find_plan,
}
use desk_pilot_agent.Effects.Compensation.Waves.{flatten, Undone, waves_of-order}
use desk_pilot_agent.Effects.Claims.{
  CompensationClaim, wave_at, prior_ids, nodes_in, barrier_open, check_claim, claim_node,
  claim_nodes, claim_compensation,
}
use desk_pilot_agent.Effects.Admissions.{fence_admission_proofs}
use desk_pilot_agent.Effects.Claims.Barrier.{claim_after_dependents}
use desk_pilot_agent.Effects.Create.{created_dag, create_effect_dag}
use desk_pilot_agent.Effects.Create.Compensable.{created_dag_plans}
use desk_pilot_agent.Effects.Nodes.{NodeTransition, released_claim, transition_claimed}
use desk_pilot_agent.Effects.Nodes.Fenced.{IsHeld, transition_claimed-fenced}

abbrev pub supply : Source
supply = record {
  clock = λ n. 100 + n;
  event_uuid = λ _. "e";
  trace_uuid = λ _. "t";
  message_uuid = λ _. "m";
}

abbrev pub blank : Task
blank = record {
  task_id = "t";
  status = created;
  last_event_seq = 0;
  updated_at = 0;
  events = [];
  outbox = [];
  checkpoint = none;
  approvals = [];
  calls = [];
}

-- A definition of a node with its dependencies.
abbrev pub define : String → List String → NodeDefinition
define key needs = record {
  node_key = key;
  step_id = key;
  tool_name = "file.move";
  tool_version = "1.0.0";
  contract_digest = "d";
  compensation_strategy = receipt_bound_reverse;
  depends_on = needs;
  conditional_depends_on = [];
}

-- `c` needs `b`, and `b` needs `a`.
abbrev chain : List NodeDefinition
chain = define "c" ("b" ∷ []) ∷ define "a" [] ∷ define "b" ("a" ∷ []) ∷ []

abbrev circle : List NodeDefinition
circle = define "a" ("b" ∷ []) ∷ define "b" ("a" ∷ []) ∷ []

chain_valid : (validate_effect_dag chain ≡ ok tt) × (validate_effect_dag circle ≡ err cyclic)
unfolding validate_effect_dag add_definitions unique node_keys mem step_ids add_definition
    unique_conditions no_degrees add_dependencies updated visited_count visit_all release_successors
    keep any_of
chain_valid = (refl, refl)

validate_effect_dag_iff_example : (validate_effect_dag chain ≡ ok tt) ↔ IsDag chain
validate_effect_dag_iff_example = validate_effect_dag_iff chain

-- A created DAG, with texts for their own digests.
abbrev pub same_text : String → String
same_text s = s

abbrev chain_dag : EffectDag
chain_dag = created_dag same_text supply blank chain 7

chain_created : create_effect_dag same_text supply blank none chain 7 ≡ ok chain_dag
unfolding create_effect_dag validate_effect_dag add_definitions unique node_keys mem step_ids
    add_definition unique_conditions no_degrees add_dependencies updated visited_count visit_all
    release_successors keep any_of
chain_created = refl

created_dag_plans_example : (waves : List (List String)) × (waves_of chain_dag ≡ ok waves)
created_dag_plans_example =
    created_dag_plans same_text supply blank chain 7 chain_dag chain_dag chain_created refl

-- A node and its edges by short IDs.
abbrev pub node : String → ℕ → EffectNodeStatus → EffectNode
node id ordinal status = record {
  node_id = id;
  node_key = id;
  ordinal = ordinal;
  step_id = id;
  tool_name = "file.move";
  tool_version = "1.0.0";
  contract_digest = "d";
  compensation_strategy = receipt_bound_reverse;
  status = status;
  revision = 1;
  last_event_seq = 1;
  updated_at = 1;
  claim_owner_id = some "worker";
  claim_acquired_at = some 1;
  claim_heartbeat_at = some 1;
  claim_expires_at = some 50;
  claim_fencing_token = 4;
}

abbrev edge : String → String → EffectEdge
edge from to = record {
  edge_id = from;
  from_node_id = from;
  to_node_id = to;
  kind = success;
  decision_key = none;
  expected_outcome = none;
}

abbrev held_graph : EffectGraphStatus → Graph
held_graph status = record {
  graph_id = "g";
  schema_version = "deskpilot.tool-effect-graph.v2";
  status = status;
  execution_mode = forward_mode;
  cancel_requested_at = none;
  last_event_seq = 1;
  revision = 1;
  lease_owner_id = some "owner";
  lease_acquired_at = some 1;
  lease_heartbeat_at = some 1;
  lease_expires_at = some 100;
  fencing_token = 1;
  updated_at = 1;
}

-- `c` depends on `b`, and `b` on `a`; the states of the three.
abbrev dag :
    EffectGraphStatus
    → EffectNodeStatus
    → EffectNodeStatus
    → EffectNodeStatus
    → List CompensationPlan
    → EffectDag
dag status a b c plans = record {
  task = blank;
  graph = held_graph status;
  nodes = node "a" 0 a ∷ node "b" 1 b ∷ node "c" 2 c ∷ [];
  edges = edge "a" "b" ∷ edge "b" "c" ∷ [];
  decisions = [];
  transitions = [];
  plans = plans;
  admissions = [];
}

-- The rows that a call leaves.
abbrev pub rows_of {ℓ κ} : {E : Type κ} {A : Type ℓ} → A → Result E A → A
rows_of a (ok b) = b
rows_of a (err e) = a

-- `b` failed: `c` is skipped, and `a` is to be compensated.
abbrev broken : EffectDag
broken = dag EffectGraphStatus.active succeeded failed pending []

abbrev broken_reduced : EffectDag
broken_reduced = rows_of broken (reduce_effect_dag one_digest supply broken "owner" 1 5)

broken_reduces : reduce_effect_dag one_digest supply broken "owner" 1 5 ≡ ok broken_reduced
unfolding reduce_effect_dag ensure_effect_dag assert_graph_lease holds_lease owned_by live_at
    check_edges find_node check_decisions reduce_rounds reduce_nodes reduce_node reduce_pending
    branch_not_selected decided conditional_edges predecessor_edges has_ended_predecessor status_of
    predecessors_succeeded end_node fence_mutation holds_claim transition dag_event
    record_transition change_node derived_state any_status move_graph graph_is graph_value any_of
    all_of keep next_event append_event_record
broken_reduces = refl

broken_waits : state broken.nodes "c" ≡ some pending
unfolding state find_node
broken_waits = refl

reduce_effect_dag-fixpoint_example :
    state broken_reduced.nodes "c"
    ≡ some (final_state broken.edges [] false broken_reduced.nodes "c")
reduce_effect_dag-fixpoint_example =
    reduce_effect_dag-fixpoint one_digest supply broken broken_reduced "owner" 1 5 broken_reduces
      "c" pending broken_waits

broken_skips : state broken_reduced.nodes "c" ≡ some skipped
unfolding state reduce_effect_dag ensure_effect_dag assert_graph_lease holds_lease owned_by live_at
    check_edges find_node check_decisions reduce_rounds reduce_nodes reduce_node reduce_pending
    branch_not_selected decided conditional_edges predecessor_edges has_ended_predecessor status_of
    predecessors_succeeded end_node fence_mutation holds_claim transition dag_event
    record_transition change_node derived_state any_status move_graph graph_is graph_value any_of
    all_of keep next_event append_event_record
broken_skips = refl

broken_moves : broken_reduced.graph.status ≡ EffectGraphStatus.compensating
unfolding reduce_effect_dag ensure_effect_dag assert_graph_lease holds_lease owned_by live_at
    check_edges find_node check_decisions reduce_rounds reduce_nodes reduce_node reduce_pending
    branch_not_selected decided conditional_edges predecessor_edges has_ended_predecessor status_of
    predecessors_succeeded end_node fence_mutation holds_claim transition dag_event
    record_transition change_node derived_state any_status move_graph graph_is graph_value any_of
    all_of keep next_event append_event_record
broken_moves = refl

reduce_effect_dag-Justified_example :
    Justified none broken_reduced.graph.status broken_reduced.nodes
reduce_effect_dag-Justified_example =
    reduce_effect_dag-Justified one_digest supply broken broken_reduced "owner" 1 5 broken_reduces
      (λ same. cc (same, broken_moves))

-- `a` and `b` succeeded and `c` failed: `b` is compensated before `a`.
abbrev undone : EffectDag
undone = dag EffectGraphStatus.compensating succeeded succeeded failed []

abbrev undone_waves : List (List String)
undone_waves = ("b" ∷ []) ∷ ("a" ∷ []) ∷ []

undone_planned : waves_of undone ≡ ok undone_waves
unfolding waves_of selected_nodes follows plan_waves wave mem any_of keep
undone_planned = refl

undone_distinct : unique (node_ids (selected_nodes undone.nodes)) ≡ true
unfolding unique selected_nodes mem keep
undone_distinct = refl

-- The edge from `a` to `b` holds between the selected nodes.
a_follows : follows undone.edges (node_ids (selected_nodes undone.nodes)) "a" "b" ≡ true
unfolding selected_nodes follows mem any_of keep
a_follows = refl

waves_of-order_example :
    ((id : String)
      → mem id (flatten undone_waves) ≡ mem id (node_ids (selected_nodes undone.nodes)))
    × (unique (flatten undone_waves) ≡ true)
    × All (Undone (node_ids (selected_nodes undone.nodes)) undone_waves) undone.edges
waves_of-order_example = waves_of-order undone undone_waves undone_planned undone_distinct

-- The plan, and the rows once `b` is compensated: now `a` can be claimed.
abbrev plan : CompensationPlan
plan = record {
  graph_revision = 1;
  event_seq = 1;
  waves = undone_waves;
  proof_digest = "p";
  created_at = 1;
}

abbrev half_undone : EffectDag
half_undone = dag EffectGraphStatus.compensating succeeded compensated failed (plan ∷ [])

abbrev claim_a : CompensationClaim
claim_a = record {
  node_ids = "a" ∷ [];
  plan_id = "p";
  wave_ordinal = 1;
  claim_owner_id = "worker";
  claim_ttl = 2000000;
  admission_proofs = none;
}

abbrev a_claimed : EffectDag
a_claimed = rows_of half_undone (claim_compensation supply "owner" 1 5 half_undone claim_a)

a_claims : claim_compensation supply "owner" 1 5 half_undone claim_a ≡ ok a_claimed
unfolding claim_compensation is_empty unique mem ttl_valid ensure_effect_dag assert_graph_lease
    holds_lease owned_by live_at find_plan check_claim wave_at prior_ids barrier_open nodes_in keep
    any_of all_of claim_nodes claim_node fence_mutation holds_claim transition dag_event
    record_transition change_node next_event append_event_record fence_admission_proofs
a_claims = refl

-- The claim of `a` while `b` is not compensated yet.
a_waits :
    claim_compensation supply "owner" 1 5
      (dag EffectGraphStatus.compensating succeeded succeeded failed (plan ∷ []))
      claim_a
    ≡ err invalid_transition
unfolding claim_compensation is_empty unique mem ttl_valid ensure_effect_dag assert_graph_lease
    holds_lease owned_by live_at find_plan check_claim wave_at prior_ids barrier_open nodes_in keep
    any_of all_of claim_nodes claim_node fence_mutation holds_claim transition dag_event
    record_transition change_node next_event append_event_record fence_admission_proofs
a_waits = refl

a_found :
    (find_plan "p" half_undone.plans ≡ some plan)
    × (mem "a" claim_a.node_ids ≡ true)
    × (find_node "b" half_undone.nodes ≡ some (node "b" 1 compensated))
unfolding find_plan mem find_node
a_found = (refl, refl, refl)

claim_after_dependents_example : EffectNode.status (node "b" 1 compensated) ≡ compensated
claim_after_dependents_example =
    claim_after_dependents supply "owner" 1 5 undone half_undone a_claimed claim_a plan "a" "b"
      (node "b" 1 compensated) undone_planned a_found.0 a_claims a_found.1 a_follows a_found.2

-- `b` runs under its claim, and succeeds.
abbrev working : EffectDag
working = dag EffectGraphStatus.active succeeded running pending []

abbrev b_done : NodeTransition
b_done = record {
  node_id = "b";
  expected_statuses = active ∷ running ∷ [];
  target_status = succeeded;
  transition_kind = "tool_succeeded";
  event_type = "effect.node.succeeded";
  claim_owner_id = "worker";
  node_fencing_token = 4;
  graph_status = none;
}

abbrev worked : EffectDag
worked = rows_of working (transition_claimed supply working b_done "owner" 1 5)

b_works : transition_claimed supply working b_done "owner" 1 5 ≡ ok worked
unfolding transition_claimed get_node find_node ensure_effect_dag fence_mutation holds_lease
    owned_by live_at holds_claim status_in any_of released_claim transition dag_event
    record_transition change_node next_event append_event_record node_value
b_works = refl

transition_claimed-fenced_example :
    (n : EffectNode) × (find_node "b" working.nodes ≡ some n)
    × IsHeld working.graph.lease_owner_id 1 working.graph.lease_expires_at "owner" 1 5
    × IsHeld n.claim_owner_id n.claim_fencing_token n.claim_expires_at "worker" 4 5
    × (status_in n.status b_done.expected_statuses ≡ true)
    × ((j : String)
        → state worked.nodes j ≡ (if str_eq "b" j then some succeeded else state working.nodes j))
transition_claimed-fenced_example =
    transition_claimed-fenced supply working worked b_done "owner" 1 5 b_works
