-- ===== src/Effects/Reduce/Closure.antt =====
-- The rounds of `reduce_effect_dag` end at the closure of the rule by which it ends nodes.
use desk_pilot_agent.Base.{
  String, ◌≡◌, refl, sym, ◌∙◌, Bool, true, false, ◌&&◌, ◌||◌, Option, none, some, List, [], ◌∷◌,
  any_of, all_of, if◌then◌else◌, arith, Option-cases, ◌⊎◌, inl, inr,
}
use desk_pilot_agent.Base.Result.{ok}
use desk_pilot_agent.Effects.NodeStatus.{
  EffectNodeStatus, pending, skipped, cancelled, is_pending, is_succeeded, propagates,
}
use desk_pilot_agent.Effects.Dag.{EffectNode, EffectEdge, BranchDecision, find_node}
use desk_pilot_agent.Effects.Decisions.{decided}
use desk_pilot_agent.Effects.Reduce.{
  predecessor_edges, conditional_edges, status_of, has_ended_predecessor, predecessors_succeeded,
  decided_otherwise, branch_not_selected,
}

-- The state of a node.
unfoldable pub state : List EffectNode → String → Option EffectNodeStatus
unfolding find_node
state nodes id = elim (find_node id nodes) [ none ↦ none | some n ↦ some n.status ]

-- The decision on an edge was made otherwise.
unfoldable pub is_unselected : List BranchDecision → EffectEdge → Bool
unfolding decided decided_otherwise
is_unselected decisions e = elim e.decision_key [
  | none ↦ false
  | some key ↦ decided_otherwise (decided decisions e.from_node_id key) e.expected_outcome
]

pub unselected_any :
    (decisions : List BranchDecision) (es : List EffectEdge) (b : Bool)
    → branch_not_selected decisions es ≡ ok b
    → any_of (is_unselected decisions) es ≡ b
unfolding branch_not_selected is_unselected any_of
unselected_any decisions [] b h = cc
unselected_any decisions (e ∷ es) b h = ground (arith, unselected_any decisions es b)

-- States that are not pending stay.
abbrev pub Stays : List EffectNode → List EffectNode → Type 0
Stays ns ms =
    (id : String) (s : EffectNodeStatus)
    → state ns id ≡ some s
    → is_pending s ≡ false
    → state ms id ≡ some s

state_with :
    (ns : List EffectNode) (id : String) (p : EffectNodeStatus → Bool)
    → status_of ns id p ≡ true
    → (s : EffectNodeStatus) × (state ns id ≡ some s) × (p s ≡ true)
unfolding status_of state
state_with ns id p h = elim (Option-cases (find_node id ns)) [
  | inl missing ↦ absurd (ground arith)
  | inr (n, found) ↦ (n.status, ground arith, ground arith)
]

with_state :
    (ns : List EffectNode) (id : String) (p : EffectNodeStatus → Bool) (s : EffectNodeStatus)
    → state ns id ≡ some s
    → status_of ns id p ≡ p s
unfolding status_of state
with_state ns id p s h = elim (Option-cases (find_node id ns)) [
  | inl missing ↦ absurd (ground arith)
  | inr (n, found) ↦ ground arith
]

-- A test that pending states fail stays true.
test-Stays :
    (ns ms : List EffectNode) (id : String) (p : EffectNodeStatus → Bool)
    → ((s : EffectNodeStatus) → p s ≡ true → is_pending s ≡ false)
    → Stays ns ms
    → status_of ns id p ≡ true
    → status_of ms id p ≡ true
test-Stays ns ms id p ends stays h =
    let (s, at, holds) = state_with ns id p h in
    with_state ms id p s (stays id s at (ends s holds)) ∙ holds

ended_not_pending : (s : EffectNodeStatus) → propagates s ≡ true → is_pending s ≡ false
ended_not_pending s h = ground arith

succeeded_not_pending : (s : EffectNodeStatus) → is_succeeded s ≡ true → is_pending s ≡ false
succeeded_not_pending s h = ground arith

succeeded_not_ended : (s : EffectNodeStatus) → is_succeeded s ≡ true → propagates s ≡ false
succeeded_not_ended s h = ground arith

module _ (edges : List EffectEdge) (decisions : List BranchDecision) (cancel : Bool) where
  -- A node does not run: a predecessor ended without success, or a branch was not selected.
  unfoldable pub is_blocked : List EffectNode → String → Bool
  is_blocked ns id =
      has_ended_predecessor ns edges id
      || any_of (is_unselected decisions) (conditional_edges edges id)

  -- A node is cancelled with the graph, after its predecessors.
  unfoldable pub is_stopped : List EffectNode → String → Bool
  is_stopped ns id = cancel && predecessors_succeeded ns edges id

  any_ended :
      (ns ms : List EffectNode) (es : List EffectEdge)
      → Stays ns ms
      → any_of (λ (e : EffectEdge). status_of ns e.from_node_id propagates) es ≡ true
      → any_of (λ (e : EffectEdge). status_of ms e.from_node_id propagates) es ≡ true
  unfolding any_of
  any_ended ns ms [] stays h = h
  any_ended ns ms (e ∷ es) stays h = ground (
    arith,
    any_ended ns ms es stays,
    test-Stays ns ms e.from_node_id propagates ended_not_pending stays,
  )

  all_succeeded :
      (ns ms : List EffectNode) (es : List EffectEdge)
      → Stays ns ms
      → all_of (λ (e : EffectEdge). status_of ns e.from_node_id is_succeeded) es ≡ true
      → (all_of (λ (e : EffectEdge). status_of ms e.from_node_id is_succeeded) es ≡ true)
        × (any_of (λ (e : EffectEdge). status_of ms e.from_node_id propagates) es ≡ false)
  unfolding any_of all_of
  all_succeeded ns ms [] stays h = (refl, refl)
  all_succeeded ns ms (e ∷ es) stays h =
      let now : status_of ms e.from_node_id is_succeeded ≡ true =
        test-Stays ns ms e.from_node_id is_succeeded succeeded_not_pending stays (ground arith) in
      let (s, at, holds) = state_with ms e.from_node_id is_succeeded now in
      let rest = all_succeeded ns ms es stays (ground arith) in
      ground (
        arith,
        rest,
        now,
        with_state ms e.from_node_id propagates s at,
        succeeded_not_ended s holds,
      )

  -- A node that does not run because of its predecessors and decisions will never run.
  pub blocked-Stays :
      (ns ms : List EffectNode) (id : String)
      → Stays ns ms
      → is_blocked ns id ≡ true
      → is_blocked ms id ≡ true
  unfolding is_blocked has_ended_predecessor
  blocked-Stays ns ms id stays h =
      ground (arith, any_ended ns ms (predecessor_edges edges id) stays)

  pub stopped-Stays :
      (ns ms : List EffectNode) (id : String)
      → Stays ns ms
      → is_blocked ns id ≡ false
      → is_stopped ns id ≡ true
      → (is_blocked ms id ≡ false) × (is_stopped ms id ≡ true)
  unfolding is_blocked is_stopped has_ended_predecessor predecessors_succeeded
  stopped-Stays ns ms id stays h st =
      ground (arith, all_succeeded ns ms (predecessor_edges edges id) stays)

  -- The state that the rule gives a pending node, among nodes whose states are final.
  unfoldable pub final_state : List EffectNode → String → EffectNodeStatus
  final_state ns id =
      if is_blocked ns id then skipped else if is_stopped ns id then cancelled else pending

  -- What some rounds may do to the states: a pending node takes the state that the rule gives it.
  abbrev pub Reduces : List EffectNode → List EffectNode → Type 0
  Reduces ns ms =
      (id : String)
      → (state ms id ≡ state ns id)
        ⊎ (state ns id ≡ some pending)
          × (state ms id ≡ some (final_state ms id))
          × (is_pending (final_state ms id) ≡ false)

  Reduces-Stays : (ns ms : List EffectNode) → Reduces ns ms → Stays ns ms
  Reduces-Stays ns ms r id s at np = elim (r id) [
    | inl same ↦ same ∙ at
    | inr (p, q, np') ↦ absurd (ground arith)
  ]

  pub final_state-Stays :
      (ns ms : List EffectNode) (id : String)
      → Stays ns ms
      → is_pending (final_state ns id) ≡ false
      → final_state ms id ≡ final_state ns id
  unfolding final_state
  final_state-Stays ns ms id stays h =
      ground (arith, blocked-Stays ns ms id stays, stopped-Stays ns ms id stays)

  pub Reduces-trans : (ns ms ls : List EffectNode) → Reduces ns ms → Reduces ms ls → Reduces ns ls
  Reduces-trans ns ms ls r q id = elim (r id) [
    | inl same ↦ elim (q id) [
      | inl same' ↦ inl (same' ∙ same)
      | inr (p, e, np) ↦ inr (sym same ∙ p, e, np)
    ]
    | inr (p, e, np) ↦
        let stays : Stays ms ls = Reduces-Stays ms ls q in
        let fixed : final_state ls id ≡ final_state ms id = final_state-Stays ms ls id stays np in
        inr (p, ground (arith, stays id (final_state ms id) e np), ground arith)
  ]
