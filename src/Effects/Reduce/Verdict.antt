-- ===== src/Effects/Reduce/Verdict.antt =====
-- What `reduce_effect_dag` leaves.
use desk_pilot_agent.Base.{
  ℕ, suc, String, ◌≡◌, ◌≢◌, refl, sym, subst, ap, ◌∙◌, Bool, true, false, ◌||◌, Option, none, some,
  List, [], ◌∷◌, length, any_of, all_of, is_some, if◌then◌else◌, arith, Bool-cases, inl, inr,
}
use desk_pilot_agent.Base.Text.{eq_iff, mem}
use desk_pilot_agent.Base.Json.{Hashing}
use desk_pilot_agent.Base.Result.{ok, bind_ok, ok_injective}
use desk_pilot_agent.Tasks.Events.{Source}
use desk_pilot_agent.Effects.NodeStatus.{
  EffectNodeStatus, pending, is_pending, is_cancelled, is_done, is_failed, is_succeeded, in_flight,
  is_unknown,
}
use desk_pilot_agent.Effects.GraphStatus.{
  EffectGraphStatus, EffectExecutionMode, graph_is, eq_of_graph_is,
}
use desk_pilot_agent.Effects.Leases.{Graph}
use desk_pilot_agent.Effects.Dag.{
  EffectNode, EffectDag, find_node, ensure_effect_dag, assert_graph_lease, dag_event,
}
use desk_pilot_agent.Effects.Decisions.{check_decisions}
use desk_pilot_agent.Effects.Reduce.{
  check_edges, any_status, not_compensable, reduce_rounds, node_ids, derived_state, move_graph,
  reduce_effect_dag,
}
use desk_pilot_agent.Effects.Reduce.Closure.{state, final_state}
use desk_pilot_agent.Effects.Reduce.Turns.{SameFrame, rule_state, ReducesIn, pending_of}
use desk_pilot_agent.Effects.Reduce.Rounds.{Quiet, enough_rounds, rule-SameFrame}

-- The parts of a reduction that succeeds.
reduction :
    (h : Hashing) (source : Source) (d e : EffectDag) (owner : String) (token at : ℕ)
    → reduce_effect_dag h source d owner token at ≡ ok e
    → (m : EffectDag) × (reduce_rounds source owner token at
          (suc (length d.nodes))
          (node_ids d.nodes)
          d
        ≡ ok m)
      × (move_graph source m (derived_state m.graph m.nodes) owner token at ≡ ok e)
unfolding reduce_effect_dag
reduction h source d e owner token at r =
    let (_, _, r1) = bind_ok (ensure_effect_dag d.graph) _ r in
    let (_, _, r2) = bind_ok (assert_graph_lease d.graph owner token at) _ r1 in
    let (_, _, r3) = bind_ok (check_edges d.nodes d.edges) _ r2 in
    let (_, _, r4) =
      bind_ok (check_decisions h d.graph.graph_id d.nodes d.edges d.decisions) _ r3 in
    let (m, rounds, moved) =
      bind_ok (reduce_rounds source owner token at (suc (length d.nodes)) (node_ids d.nodes) d) _
        r4 in
    (m, rounds, moved)

moved_nodes :
    (source : Source) (d e : EffectDag) (s : EffectGraphStatus × EffectExecutionMode)
    (owner : String) (token at : ℕ)
    → move_graph source d s owner token at ≡ ok e
    → e.nodes ≡ d.nodes
unfolding move_graph dag_event
moved_nodes source d e (target, mode) owner token at h =
    elim (Bool-cases (graph_is target d.graph.status)) [
      | inl same ↦ ap (λ (x : EffectDag). x.nodes) (sym (ok_injective (rw same at h)))
      | inr other ↦ ground arith
    ]

known_id :
    (id : String) (ns : List EffectNode)
    → is_some (state ns id) ≡ true
    → mem id (node_ids ns) ≡ true
unfolding state find_node mem
known_id id [] h = cc
known_id id (n ∷ ns) h = ground (arith, known_id id ns, eq_iff n.node_id id, eq_iff id n.node_id)

settled :
    (d m : EffectDag) (id : String) (s : EffectNodeStatus)
    → state d.nodes id ≡ some s
    → SameFrame d m
    → ReducesIn d m
    → Quiet m (node_ids d.nodes)
    → state m.nodes id ≡ some (if is_pending s then rule_state d m.nodes id else s)
settled d m id s was frame reduces quiet = elim (Bool-cases (is_pending s)) [
  | inr over ↦ elim (reduces id) [
    | inl same ↦ same ∙ was ∙ rw over refl
    | inr (waited, _, _) ↦ absurd (ground arith)
  ]
  | inl waited ↦
      let is : s ≡ pending = pending_of s waited in
      elim (reduces id) [
        | inl same ↦
            let still : state m.nodes id ≡ some pending = ground arith in
            let rule = quiet id (known_id id d.nodes (ground arith)) still in
            ground (arith, rule-SameFrame d m m.nodes id frame)
        | inr (_, now, _) ↦ ground arith
      ]
]

-- A reduction that succeeds ends exactly the pending nodes that will not run, and gives each its
-- state: after it, a node that was pending is skipped where a predecessor ended without success or
-- a branch was decided otherwise, is cancelled where cancellation is requested and all its
-- predecessors succeeded, and is pending in all other cases, as the states after the reduction
-- say. A node that was not pending keeps its state.
pub reduce_effect_dag-fixpoint :
    (h : Hashing) (source : Source) (d e : EffectDag) (owner : String) (token at : ℕ)
    → reduce_effect_dag h source d owner token at ≡ ok e
    → (id : String) (s : EffectNodeStatus) → state d.nodes id ≡ some s
    → state e.nodes id
      ≡ some (
          if is_pending s
          then final_state d.edges d.decisions (is_some d.graph.cancel_requested_at) e.nodes id
          else s)
reduce_effect_dag-fixpoint h source d e owner token at r id s was =
    let (m, rounds, moved) = reduction h source d e owner token at r in
    let (frame, reduces, quiet) = enough_rounds source owner token at d m rounds in
    rw (moved_nodes source m e (derived_state m.graph m.nodes) owner token at moved)
      (settled d m id s was frame reduces quiet)

moved_status :
    (source : Source) (d e : EffectDag) (s : EffectGraphStatus × EffectExecutionMode)
    (owner : String) (token at : ℕ)
    → move_graph source d s owner token at ≡ ok e
    → (e.graph.status ≡ s.0) × (e.graph.execution_mode ≡ s.1)
unfolding move_graph dag_event
moved_status source d e (target, mode) owner token at h =
    elim (Bool-cases (graph_is target d.graph.status)) [
      | inl same ↦
          let kept = ok_injective (rw same at h) in
          (
            ap (λ (x : EffectDag). x.graph.status) (sym kept)
                ∙ sym (eq_of_graph_is target d.graph.status same),
            ap (λ (x : EffectDag). x.graph.execution_mode) (sym kept),
          )
      | inr other ↦ (ground arith, ground arith)
    ]

-- No node is in flight.
abbrev Settled : List EffectNode → Type 0
Settled ns = any_status in_flight ns ≡ false

-- And none is unknown or cancelled, nor the cancellation of the graph requested.
abbrev Ended : Option ℕ → List EffectNode → Type 0
Ended cancel ns =
    Settled ns
    × (any_status is_unknown ns ≡ false)
    × (any_status is_cancelled ns ≡ false)
    × (cancel ≡ none)

-- What a state says of the nodes, where a reduction gave it.
abbrev pub Justified : Option ℕ → EffectGraphStatus → List EffectNode → Type 0
Justified cancel EffectGraphStatus.blocked_unknown ns =
    Settled ns × (any_status is_unknown ns ≡ true)
Justified cancel EffectGraphStatus.cancelled ns =
    Settled ns
    × (any_status is_unknown ns ≡ false)
    × ((is_some cancel || any_status is_cancelled ns) ≡ true)
Justified cancel EffectGraphStatus.blocked_non_compensable ns =
    Ended cancel ns × (any_status is_failed ns ≡ true) × (any_of not_compensable ns ≡ true)
Justified cancel EffectGraphStatus.compensating ns =
    Ended cancel ns
    × (any_status is_failed ns ≡ true)
    × (any_of not_compensable ns ≡ false)
    × (any_status is_succeeded ns ≡ true)
Justified cancel EffectGraphStatus.failed ns =
    Ended cancel ns × (any_status is_failed ns ≡ true) × (any_status is_succeeded ns ≡ false)
Justified cancel EffectGraphStatus.succeeded ns =
    Ended cancel ns × (all_of (λ (n : EffectNode). is_done n.status) ns ≡ true)
Justified cancel _ ns = ⊥

not_cancelled : (cancel : Option ℕ) (b : Bool) → (is_some cancel || b) ≡ false → cancel ≡ none
not_cancelled none b h = refl
not_cancelled (some t) b h = cc

ended_verdict :
    (g : Graph) (ns : List EffectNode)
    → Ended g.cancel_requested_at ns
    → (is_some g.cancel_requested_at || any_status is_cancelled ns) ≡ false
    → (derived_state g ns).0 ≢ g.status
    → Justified g.cancel_requested_at (derived_state g ns).0 ns
unfolding derived_state
ended_verdict g ns ended going moved = elim (Bool-cases (any_status is_failed ns)) [
  | inl bad ↦ elim (Bool-cases (any_of not_compensable ns)) [
    | inl stuck ↦ rw (ended.0, ended.1, going, bad, stuck) (ended, bad, stuck)
    | inr free ↦ elim (Bool-cases (any_status is_succeeded ns)) [
      | inl done ↦ rw (ended.0, ended.1, going, bad, free, done) (ended, bad, free, done)
      | inr nothing ↦ rw (ended.0, ended.1, going, bad, free, nothing) (ended, bad, nothing)
    ]
  ]
  | inr good ↦ elim (Bool-cases (all_of (λ (n : EffectNode). is_done n.status) ns)) [
    | inl done ↦ rw (ended.0, ended.1, going, good, done) (ended, done)
    | inr other ↦ absurd (moved (rw (ended.0, ended.1, going, good, other) refl))
  ]
]

verdict :
    (g : Graph) (ns : List EffectNode)
    → (derived_state g ns).0 ≢ g.status
    → Justified g.cancel_requested_at (derived_state g ns).0 ns
unfolding derived_state
verdict g ns moved = elim (Bool-cases (any_status in_flight ns)) [
  | inl busy ↦ absurd (moved (rw busy refl))
  | inr settled ↦ elim (Bool-cases (any_status is_unknown ns)) [
    | inl unknown ↦ rw (settled, unknown) (settled, unknown)
    | inr known ↦ elim (Bool-cases (is_some g.cancel_requested_at || any_status is_cancelled ns)) [
      | inl stopped ↦ rw (settled, known, stopped) (settled, known, stopped)
      | inr going ↦
          let ended : Ended g.cancel_requested_at ns =
            (settled, known, ground arith, not_cancelled g.cancel_requested_at _ going) in
          ended_verdict g ns ended going moved
    ]
  ]
]

-- A reduction that succeeds and changes the state of the graph gives it one that its nodes justify:
-- no node is in flight, and the graph is blocked as unknown if a node is, else cancelled if this was
-- requested or a node is cancelled, else, where a node failed, blocked if one that succeeded cannot
-- be compensated, compensating if one succeeded and failed if none did, and succeeded only if every
-- node succeeded or was skipped. It gives no other state.
pub reduce_effect_dag-Justified :
    (h : Hashing) (source : Source) (d e : EffectDag) (owner : String) (token at : ℕ)
    → reduce_effect_dag h source d owner token at ≡ ok e
    → e.graph.status ≢ d.graph.status
    → Justified d.graph.cancel_requested_at e.graph.status e.nodes
reduce_effect_dag-Justified h source d e owner token at r moves =
    let (m, rounds, moved) = reduction h source d e owner token at r in
    let (frame, _, _) = enough_rounds source owner token at d m rounds in
    let s = derived_state m.graph m.nodes in
    let (status, _) = moved_status source m e s owner token at moved in
    let changes : s.0 ≢ m.graph.status = λ p. moves (status ∙ p ∙ frame.status) in
    subst (λ (c : Option ℕ). Justified c e.graph.status e.nodes) frame.cancel
      (subst (λ (x : EffectGraphStatus). Justified m.graph.cancel_requested_at x e.nodes)
        (sym status)
        (subst (Justified m.graph.cancel_requested_at s.0)
          (sym (moved_nodes source m e s owner token at moved)) (verdict m.graph m.nodes changes)))
