-- ===== src/Effects/Reduce/Turns.antt =====
-- What the turn of one node in a round of `reduce_effect_dag` does.
use desk_pilot_agent.Base.{
  ℕ, ◌+◌, String, ◌≡◌, refl, subst, ◌∙◌, Bool, true, false, not, ◌&&◌, ◌||◌, none, some, List, [],
  ◌∷◌, is_some, if◌then◌else◌, arith, Bool-cases, Option-cases, inl, inr,
}
use desk_pilot_agent.Base.Text.{str_eq, eq_iff, eq_refl}
use desk_pilot_agent.Base.Result.{ok, bind_ok, raise_if_ok, ok_injective, map_result_ok}
use desk_pilot_agent.Tasks.Events.{Source, next_event}
use desk_pilot_agent.Base.Json.{Json}
use desk_pilot_agent.Effects.GraphStatus.{EffectGraphStatus}
use desk_pilot_agent.Effects.Leases.{holds_lease}
use desk_pilot_agent.Effects.NodeStatus.{EffectNodeStatus, pending, skipped, cancelled, is_pending}
use desk_pilot_agent.Effects.Dag.{
  EffectNode, EffectDag, find_node, change_node, fence_mutation, dag_event, record_transition,
  transition, NodeClaim, holds_claim, graph_fence_rejected, node_fence_rejected,
}
use desk_pilot_agent.Effects.Reduce.{
  conditional_edges, has_ended_predecessor, branch_not_selected, predecessors_succeeded, end_node,
  reduce_pending, reduce_node,
}
use desk_pilot_agent.Effects.Reduce.Closure.{
  state, unselected_any, Stays, is_blocked, is_stopped, final_state, Reduces, final_state-Stays,
}

-- A change of a node that leaves its state, and one that sets it.
pub state-change_other :
    (f : EffectNode → EffectNode) (id j : String) (ns : List EffectNode)
    → ((n : EffectNode) → (f n).node_id ≡ n.node_id)
    → ((n : EffectNode) → (f n).status ≡ n.status)
    → state (change_node f id ns) j ≡ state ns j
unfolding state find_node change_node
state-change_other f id j [] same keeps = refl
state-change_other f id j (n ∷ ns) same keeps =
    ground (arith, state-change_other f id j ns same keeps, same n, keeps n)

pub state-change_status :
    (f : EffectNode → EffectNode) (s : EffectNodeStatus) (id j : String) (ns : List EffectNode)
    → ((n : EffectNode) → (f n).node_id ≡ n.node_id)
    → ((n : EffectNode) → (f n).status ≡ s)
    → state (change_node f id ns) j
      ≡ (if str_eq id j then (if is_some (state ns j) then some s else none) else state ns j)
unfolding state find_node change_node
state-change_status f s id j [] same sets = ground arith
state-change_status f s id j (n ∷ ns) same sets = ground (
  arith,
  state-change_status f s id j ns same sets,
  same n,
  sets n,
  eq_iff n.node_id id,
  eq_iff n.node_id j,
  eq_iff id j,
)

-- The parts of a DAG that the rounds leave.
pub record SameFrame (d e : EffectDag) : Type 0 where
  pub edges : e.edges ≡ d.edges
  pub decisions : e.decisions ≡ d.decisions
  pub cancel : e.graph.cancel_requested_at ≡ d.graph.cancel_requested_at
  pub status : e.graph.status ≡ d.graph.status
  pub mode : e.graph.execution_mode ≡ d.graph.execution_mode

pub SameFrame-refl : (d : EffectDag) → SameFrame d d
SameFrame-refl d = record {
  edges = refl;
  decisions = refl;
  cancel = refl;
  status = refl;
  mode = refl;
}

pub SameFrame-trans : {d e f : EffectDag} → SameFrame d e → SameFrame e f → SameFrame d f
SameFrame-trans p q = record {
  edges = q.edges ∙ p.edges;
  decisions = q.decisions ∙ p.decisions;
  cancel = q.cancel ∙ p.cancel;
  status = q.status ∙ p.status;
  mode = q.mode ∙ p.mode;
}

pub fence_mutation-state :
    (d e : EffectDag) (n : EffectNode) (owner : String) (token : ℕ) (claim : NodeClaim) (at : ℕ)
    → fence_mutation d n owner token claim at ≡ ok e
    → ((j : String) → state e.nodes j ≡ state d.nodes j) × SameFrame d e
unfolding fence_mutation
fence_mutation-state d e n owner token claim at h =
    let (_, h1) = raise_if_ok (not (holds_lease d.graph owner token at)) graph_fence_rejected _ h in
    let (_, h2) = raise_if_ok (not (holds_claim n claim at)) node_fence_rejected _ h1 in
    (
      λ j.
          subst (λ (x : EffectDag). state x.nodes j ≡ state d.nodes j) (ok_injective h2)
            (state-change_other
              (λ (m : EffectNode). record m { revision = m.revision + 1; updated_at = at })
              n.node_id j d.nodes (λ m. refl) (λ m. refl)),
      subst (SameFrame d) (ok_injective h2)
          (record { edges = refl; decisions = refl; cancel = refl; status = refl; mode = refl }),
    )

-- A node takes a state, and no other does.
pub record Ends (d : EffectDag) (id : String) (target : EffectNodeStatus) (e : EffectDag)
    : Type 0 where
  pub states :
      (j : String) → state e.nodes j ≡ (if str_eq id j then some target else state d.nodes j)
  pub frame : SameFrame d e

-- A transition sets the state of its node.
pub transition-states :
    (source : Source) (m : EffectDag) (n : EffectNode) (event_type : String) (payload : Json)
    (kind : String) (target : EffectNodeStatus) (target_graph : EffectGraphStatus) (j : String)
    → state (transition source m n event_type payload kind target target_graph).nodes j ≡ (
        if str_eq n.node_id j
        then (if is_some (state m.nodes j) then some target else none)
        else state m.nodes j)
unfolding transition record_transition dag_event
transition-states source m n event_type payload kind target target_graph j =
    let event = next_event source m.task event_type payload in
    state-change_status
      (λ (r : EffectNode). record r {
        status = target;
        last_event_seq = event.seq;
        updated_at = source.clock event.seq;
      })
      target n.node_id j m.nodes (λ r. refl) (λ r. refl)

-- From the rows that claimed the revisions.
Ends-transition :
    (source : Source) (d m : EffectDag) (n : EffectNode) (event_type : String) (payload : Json)
    (kind : String) (target : EffectNodeStatus)
    → is_some (state d.nodes n.node_id) ≡ true
    → ((j : String) → state m.nodes j ≡ state d.nodes j)
    → SameFrame d m
    → Ends d n.node_id target (transition source m n event_type payload kind target m.graph.status)
unfolding transition record_transition dag_event
Ends-transition source d m n event_type payload kind target known states frame = record {
  states = λ j.
      transition-states source m n event_type payload kind target m.graph.status j
      ∙ ground (arith, eq_iff n.node_id j, states j);
  frame =
      SameFrame-trans frame
        (record { edges = refl; decisions = refl; cancel = refl; status = refl; mode = refl });
}

-- The parameters of the rule, for the DAG.
abbrev pub rule_state : EffectDag → List EffectNode → String → EffectNodeStatus
rule_state d = final_state d.edges d.decisions (is_some d.graph.cancel_requested_at)

abbrev pub ReducesIn : EffectDag → EffectDag → Type 0
ReducesIn d e = Reduces d.edges d.decisions (is_some d.graph.cancel_requested_at) d.nodes e.nodes

Ends-Stays :
    (d e : EffectDag) (id : String) (target : EffectNodeStatus)
    → state d.nodes id ≡ some pending
    → Ends d id target e
    → Stays d.nodes e.nodes
Ends-Stays d e id target was h j s at np = ground (arith, h.states j, eq_iff id j, np)

-- A pending node that takes the state that the rule gives it.
pub Ends-Reduces :
    (d e : EffectDag) (id : String)
    → state d.nodes id ≡ some pending
    → is_pending (rule_state d d.nodes id) ≡ false
    → Ends d id (rule_state d d.nodes id) e
    → ReducesIn d e
Ends-Reduces d e id was np h j = elim (Bool-cases (str_eq id j)) [
  | inr other ↦ inl (h.states j ∙ rw other refl)
  | inl here ↦
      let same : id ≡ j = (eq_iff id j).0 here in
      let fixed =
        final_state-Stays d.edges d.decisions (is_some d.graph.cancel_requested_at) d.nodes e.nodes
          id (Ends-Stays d e id (rule_state d d.nodes id) was h) np in
      inr (
        subst
          (λ (i : String).
            (state d.nodes i ≡ some pending)
            × (state e.nodes i ≡ some (rule_state d e.nodes i))
            × (is_pending (rule_state d e.nodes i) ≡ false))
          same (was, h.states id ∙ ground (arith, eq_refl id, fixed), ground (arith, fixed)))
]

-- What one node's turn does: it rests, or it was pending and ends.
pub data Turn (d : EffectDag) (id : String) : EffectDag → Bool → Type 0 where
  rests : (state d.nodes id ≡ some pending → rule_state d d.nodes id ≡ pending) → Turn d id d false
  ends :
      {e : EffectDag} (s : EffectNodeStatus)
      → state d.nodes id ≡ some pending
      → rule_state d d.nodes id ≡ s
      → is_pending s ≡ false
      → Ends d id s e
      → Turn d id e true

pub find_node-id :
    (id : String) (ns : List EffectNode) (n : EffectNode)
    → find_node id ns ≡ some n
    → n.node_id ≡ id
unfolding find_node
find_node-id id [] n h = cc
find_node-id id (m ∷ ms) n h = ground (arith, find_node-id id ms n, eq_iff m.node_id id)

pub pending_of : (s : EffectNodeStatus) → is_pending s ≡ true → s ≡ pending
pending_of s h = ground arith

module _ (source : Source) (owner : String) (token at : ℕ) where
  pub end_node-Ends :
      (d e : EffectDag) (n : EffectNode) (blocked not_selected : Bool)
      → is_some (state d.nodes n.node_id) ≡ true
      → end_node source owner token at d n blocked not_selected ≡ ok e
      → Ends d n.node_id (if blocked then skipped else cancelled) e
  unfolding end_node
  end_node-Ends d e n blocked not_selected known h =
      let (m, fenced, rest) = bind_ok (fence_mutation d n owner token none at) _ h in
      let (states, frame) = fence_mutation-state d m n owner token none at fenced in
      subst (Ends d n.node_id (if blocked then skipped else cancelled)) (ok_injective rest)
        (Ends-transition source d m n _ _ _ _ known states frame)

  -- The rule, as the body of the loop computes it.
  rule_of :
      (d : EffectDag) (id : String) (b : Bool)
      → branch_not_selected d.decisions (conditional_edges d.edges id) ≡ ok b
      → rule_state d d.nodes id ≡ (
          if has_ended_predecessor d.nodes d.edges id || b
          then skipped
          else if is_some d.graph.cancel_requested_at && predecessors_succeeded d.nodes d.edges id
          then cancelled
          else pending)
  unfolding final_state is_blocked is_stopped
  rule_of d id b h = ground (arith, unselected_any d.decisions (conditional_edges d.edges id) b h)

  reduce_pending-Turn :
      (d e : EffectDag) (n : EffectNode) (changed : Bool)
      → state d.nodes n.node_id ≡ some pending
      → reduce_pending source owner token at d n ≡ ok (e, changed)
      → Turn d n.node_id e changed
  unfolding reduce_pending
  reduce_pending-Turn d e n changed was h =
      let (b, selected, rest) =
        bind_ok (branch_not_selected d.decisions (conditional_edges d.edges n.node_id)) _ h in
      let rule = rule_of d n.node_id b selected in
      let blocked : Bool = has_ended_predecessor d.nodes d.edges n.node_id || b in
      let stays : Bool =
        not blocked
        && (not (is_some d.graph.cancel_requested_at)
            || not (predecessors_succeeded d.nodes d.edges n.node_id)) in
      elim (Bool-cases stays) [
        | inl quiet ↦
            let kept : (d, false) ≡ (e, changed) = ok_injective (rw quiet at rest) in
            subst (λ (r : EffectDag × Bool). Turn d n.node_id r.0 r.1) kept
              (rests (λ _. rule ∙ ground arith))
        | inr moves ↦
            let (e', ended, made) =
              map_result_ok (λ (x : EffectDag). (x, true))
                (end_node source owner token at d n blocked b) (rw moves at rest) in
            subst (λ (r : EffectDag × Bool). Turn d n.node_id r.0 r.1) made
              (ends (if blocked then skipped else cancelled) was (ground arith) (ground arith)
                (end_node-Ends d e' n blocked b (ground arith) ended))
      ]

  pub reduce_node-Turn :
      (d e : EffectDag) (id : String) (changed : Bool)
      → reduce_node source owner token at d id ≡ ok (e, changed)
      → Turn d id e changed
  unfolding reduce_node state
  reduce_node-Turn d e id changed h = elim (Option-cases (find_node id d.nodes)) [
    | inl missing ↦ absurd (ground arith)
    | inr (n, found) ↦
        let same : n.node_id ≡ id = find_node-id id d.nodes n found in
        let at_id : state d.nodes id ≡ some n.status = ground arith in
        let taken = rw (found, reduce_node) at h in
        elim (Bool-cases (is_pending n.status)) [
          | inl waits ↦
              let was : state d.nodes n.node_id ≡ some pending =
                ground (arith, pending_of n.status waits) in
              subst (λ (i : String). Turn d i e changed) same
                (reduce_pending-Turn d e n changed was (rw waits at taken))
          | inr other ↦
              let kept : (d, false) ≡ (e, changed) = ok_injective (rw other at taken) in
              subst (λ (r : EffectDag × Bool). Turn d id r.0 r.1) kept (rests (λ was. ground arith))
        ]
  ]
