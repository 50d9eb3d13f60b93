-- ===== src/Effects/Ready/Kept/Upkeep.antt =====
-- The upkeep of the projection of the ready nodes as a whole.
use desk_pilot_agent.Base.{
  ℕ, String, ◌≡◌, refl, sym, ap, subst, ◌∙◌, true, none, some, List, [], ◌∷◌, map, All, length,
  arith,
}
use desk_pilot_agent.Base.Text.{mem}
use desk_pilot_agent.Base.Json.{Hashing}
use desk_pilot_agent.Base.Result.{ok, bind_ok, ok_injective, traverse, traverse-All}
use desk_pilot_agent.Tasks.Events.{TaskEvent, Source}
use desk_pilot_agent.Effects.NodeStatus.{EffectNodeStatus}
use desk_pilot_agent.Effects.GraphStatus.{EffectGraphStatus}
use desk_pilot_agent.Effects.Dag.{EffectNode, EffectDag, find_node, dag_event, record_transition}
use desk_pilot_agent.Effects.Decisions.{
  DecisionRequest, find_decision, check_decisions, decision_event, decision_row, decide,
}
use desk_pilot_agent.Effects.Reduce.{predecessor_edges, conditional_edges}
use desk_pilot_agent.Effects.Ready.{
  ReadyNode, Projection, digested, remaining_of, branches_of, rebuilt_row, rebuilt_state, rebuild,
}
use desk_pilot_agent.Effects.Ready.Transitions.{apply_transition}
use desk_pilot_agent.Effects.Ready.Branches.{apply_decision}
use desk_pilot_agent.Effects.Ready.Counters.{row_id, rebuild-IsExact, trivial}
use desk_pilot_agent.Effects.Ready.Recount.{IsSimple}
use desk_pilot_agent.Effects.Ready.Total.{IsClosed, found_node}
use desk_pilot_agent.Effects.Ready.Kept.{Kept, transition-Kept}
use desk_pilot_agent.Effects.Ready.Kept.Decided.{decision-Kept}
use desk_pilot_agent.Effects.Ready.Reached.{undecided, transition-Moves}

length-row_id : (rows : List ReadyNode) → length rows ≡ length (map row_id rows)
length-row_id [] = refl
length-row_id (r ∷ rs) = omega (arith, length-row_id rs)

rebuilt_graph :
    (h : Hashing) (d : EffectDag) (existing : List ReadyNode) (at : ℕ) (n : EffectNode)
    (r : ReadyNode)
    → rebuilt_row h d existing at n ≡ ok r
    → r.graph_id ≡ d.graph.graph_id
unfolding rebuilt_row digested
rebuilt_graph h d existing at n r made =
    let (_, _, h1) = bind_ok (remaining_of d.nodes (predecessor_edges d.edges n.node_id)) _ made in
    let (_, _, h2) = bind_ok (branches_of d.decisions (conditional_edges d.edges n.node_id)) _ h1 in
    subst (λ (s : ReadyNode). s.graph_id ≡ d.graph.graph_id) (ok_injective h2) refl

-- A rebuild makes a projection that is kept.
pub rebuild-Kept :
    (h : Hashing) (d : EffectDag) (p q : Projection) (at : ℕ) → rebuild h d p at ≡ ok q → Kept d q
unfolding rebuild rebuilt_state
rebuild-Kept h d p q at made =
    let exact = rebuild-IsExact h d p q at made in
    let (_, _, h1) =
      bind_ok (check_decisions h d.graph.graph_id d.nodes d.edges d.decisions) _ made in
    let (rows, looped, h2) = bind_ok (traverse (rebuilt_row h d p.rows at) d.nodes) _ h1 in
    let same = ok_injective h2 in
    let rows_same : rows ≡ q.rows = ap (λ (x : Projection). x.rows) same in
    record {
      exact = exact;
      graphs = subst (All (λ (r : ReadyNode). r.graph_id ≡ d.graph.graph_id)) rows_same (
          traverse-All (λ (n : EffectNode). Unit {0})
            (λ (r : ReadyNode). r.graph_id ≡ d.graph.graph_id) (rebuilt_row h d p.rows at)
            (λ n r _ one. rebuilt_graph h d p.rows at n r one) d.nodes rows (trivial d d.nodes)
            looped);
      head = rebuilt_state h d.graph p.state rows at;
      there = ap (λ (x : Projection). x.state) (sym same);
      heads =
          rw (← rows_same)
            (record { event = refl; version = refl; projected = length-row_id rows; ready = refl });
    }

-- The upkeep is never refused: let no two forward edges lead from one node to the same other, and
-- every edge lead to a node, and let a projection be kept (a row for each node, with the counts that
-- its edges and the decisions give, and a head of the last event that counts the ready rows). Then
-- the upkeep at every transition of a node, and that at every decision that is new, return a
-- projection, which is again kept for the rows that the call leaves.
pub upkeep-Kept :
    (h : Hashing) (source : Source) (d : EffectDag) (p : Projection) (n : EffectNode)
    (event : TaskEvent) (kind : String) (target : EffectNodeStatus) (graph : EffectGraphStatus)
    (r : DecisionRequest) (at : ℕ)
    → IsSimple d.edges
    → IsClosed d
    → Kept d p
    → find_node n.node_id d.nodes ≡ some n
    → find_decision d.decisions n.node_id r.decision_key ≡ none
    → ((q : Projection) × (apply_transition h
            (record_transition source d n event kind target graph)
            p
            n
            event
            d.graph.last_event_seq
            n.status
            target
            kind
            at
          ≡ ok q)
        × Kept (record_transition source d n event kind target graph) q)
      × ((q : Projection) × (apply_decision h
              (decide h source d n r at)
              p
              (decision_row h source d n r)
              (decision_event h source d n r)
              d.graph.last_event_seq
              at
            ≡ ok q)
          × Kept (decide h source d n r at) q)
unfolding record_transition decide dag_event decision_row IsClosed
upkeep-Kept h source d p n event kind target graph r at simple closed kept found fresh =
    let e = record_transition source d n event kind target graph in
    let moves = transition-Moves source d n event kind target graph found in
    (
      transition-Kept h d e p n event n.status target kind at simple
          (subst (λ (ids : List String). All (λ x. mem x.to_node_id ids ≡ true) d.edges)
            (sym moves.ids) closed)
          moves refl refl (sym (found_node n.node_id d.nodes) ∙ rw found refl) kept,
      decision-Kept h d (decide h source d n r at) p (decision_row h source d n r)
          (decision_event h source d n r) at closed
          (record {
            fresh = undecided d.decisions n.node_id r.decision_key fresh;
            decisions = refl;
            nodes = refl;
            edges = refl;
          })
          refl refl kept,
    )
