-- ===== src/Effects/Ready/Reached.antt =====
-- The projection of the ready nodes, kept from event to event, is what a rebuild would make of the
-- rows of the graph.
use desk_pilot_agent.Base.{
  ℕ, String, ◌≡◌, refl, sym, ap, subst, ◌∙◌, Bool, true, Option, none, some, List, [], ◌∷◌, map,
  All, is_some, if◌then◌else◌, arith, Bool-cases, inl, inr,
}
use desk_pilot_agent.Base.Text.{str_eq, eq_iff}
use desk_pilot_agent.Base.Json.{Json, Hashing}
use desk_pilot_agent.Base.Result.{ok, ok_injective}
use desk_pilot_agent.Tasks.Events.{Task, TaskEvent, Source}
use desk_pilot_agent.Effects.Definitions.{NodeDefinition}
use desk_pilot_agent.Effects.Create.{create_effect_dag}
use desk_pilot_agent.Effects.Create.Simple.{create_effect_dag-IsSimple}
use desk_pilot_agent.Effects.NodeStatus.{EffectNodeStatus}
use desk_pilot_agent.Effects.GraphStatus.{EffectGraphStatus}
use desk_pilot_agent.Effects.Dag.{
  EffectNode, EffectEdge, BranchDecision, EffectDag, find_node, change_node, dag_event,
  record_transition,
}
use desk_pilot_agent.Effects.Decisions.{
  DecisionRequest, decided, find_decision, decision_event, decision_row, decide,
}
use desk_pilot_agent.Effects.Reduce.{predecessor_edges, conditional_edges, node_ids}
use desk_pilot_agent.Effects.Reduce.Closure.{state}
use desk_pilot_agent.Effects.Reduce.Turns.{state-change_status}
use desk_pilot_agent.Effects.Ready.Expiry.{reconcile_expired, reconcile_expired-IsExact}
use desk_pilot_agent.Effects.Ready.{
  ReadyState, ReadyNode, Projection, remaining_of, branches_of, rebuild,
}
use desk_pilot_agent.Effects.Ready.Upkeep.{no_changes, advance}
use desk_pilot_agent.Effects.Ready.Transitions.{apply_transition}
use desk_pilot_agent.Effects.Ready.Branches.{apply_decision}
use desk_pilot_agent.Effects.Ready.Counters.{
  Counts, row_id, IsExact, rebuild-IsExact, advance-IsExact,
}
use desk_pilot_agent.Effects.Ready.Recount.{IsSimple}
use desk_pilot_agent.Effects.Ready.Moved.{Moves, apply_transition-IsExact}
use desk_pilot_agent.Effects.Ready.Settled.{apply_decision-IsExact}

-- What changes neither the states of nodes, nor edges, nor decisions: leases, claims, revisions,
-- events, and the state of the graph.
pub record Frame (d e : EffectDag) : Type 0 where
  pub states : (j : String) → state e.nodes j ≡ state d.nodes j
  pub ids : node_ids e.nodes ≡ node_ids d.nodes
  pub edges : e.edges ≡ d.edges
  pub decisions : e.decisions ≡ d.decisions

-- The projections that the calls on a graph keep.
pub data Reached (h : Hashing) (source : Source) : EffectDag → Projection → Type 0 where
  built :
      {d : EffectDag} {q : Projection} (p : Projection) (at : ℕ)
      → rebuild h d p at ≡ ok q
      → Reached h source d q
  framed :
      {d e : EffectDag} {p : Projection} → Reached h source d p → Frame d e → Reached h source e p
  moved :
      {d : EffectDag} {p q : Projection} (n m : EffectNode) (event : TaskEvent) (kind : String)
      (target : EffectNodeStatus) (graph : EffectGraphStatus) (expected at : ℕ)
      → Reached h source d p
      → find_node n.node_id d.nodes ≡ some n
      → m.node_id ≡ n.node_id
      → apply_transition h
          (record_transition source d n event kind target graph)
          p
          m
          event
          expected
          n.status
          target
          kind
          at
        ≡ ok q
      → Reached h source (record_transition source d n event kind target graph) q
  settled :
      {d : EffectDag} {p q : Projection} (n : EffectNode) (r : DecisionRequest) (expected at : ℕ)
      → Reached h source d p
      → find_decision d.decisions n.node_id r.decision_key ≡ none
      → apply_decision h
          (decide h source d n r at)
          p
          (decision_row h source d n r)
          (decision_event h source d n r)
          expected
          at
        ≡ ok q
      → Reached h source (decide h source d n r at) q
  advanced :
      {d : EffectDag} {p q : Projection} (event : TaskEvent) (expected : ℕ) (mutation : Json)
      (at : ℕ)
      → Reached h source d p
      → advance h d p event expected mutation no_changes at ≡ ok q
      → Reached h source d q
  expired :
      {d : EffectDag} {p q : Projection} (seen : ReadyState) (time at : ℕ)
      → Reached h source d p
      → reconcile_expired h d p seen time at ≡ ok q
      → Reached h source d q

pub undecided :
    (ds : List BranchDecision) (id key : String)
    → find_decision ds id key ≡ none
    → decided ds id key ≡ none
unfolding find_decision decided
undecided [] id key h = refl
undecided (d ∷ ds) id key h = ground (arith, undecided ds id key)

-- The counts go by the states of the nodes.
same_count :
    (ns ms : List EffectNode)
    → ((j : String) → state ms j ≡ state ns j)
    → (es : List EffectEdge) → remaining_of ms es ≡ remaining_of ns es
unfolding remaining_of state
same_count ns ms same [] = refl
same_count ns ms same (e ∷ es) = ground (arith, same e.from_node_id, same_count ns ms same es)

frame_counts :
    (d e : EffectDag) (rows : List ReadyNode)
    → Frame d e
    → All (Counts d) rows
    → All (Counts e) rows
frame_counts d e [] frame c = tt
frame_counts d e (r ∷ rs) frame c = (
  record {
    remaining =
        same_count d.nodes e.nodes frame.states (predecessor_edges e.edges r.node_id)
        ∙ rw frame.edges c.0.remaining;
    branches = rw (frame.decisions, frame.edges) c.0.branches;
  },
  frame_counts d e rs frame c.1,
)

Frame-IsExact :
    (d e : EffectDag) (rows : List ReadyNode) → Frame d e → IsExact d rows → IsExact e rows
Frame-IsExact d e rows frame exact = record {
  ids = exact.ids ∙ sym frame.ids;
  counts = frame_counts d e rows frame exact.counts;
}

changed_ids :
    (f : EffectNode → EffectNode) (id : String)
    → ((n : EffectNode) → (f n).node_id ≡ n.node_id)
    → (ns : List EffectNode) → node_ids (change_node f id ns) ≡ node_ids ns
unfolding change_node
changed_ids f id same [] = refl
changed_ids f id same (n ∷ ns) = ground (arith, same n, changed_ids f id same ns)

row_there :
    (states : String → Option EffectNodeStatus) (id j : String) (s target : EffectNodeStatus)
    → states id ≡ some s
    → (if str_eq id j then (if is_some (states j) then some target else none) else states j)
      ≡ (if str_eq id j then some target else states j)
row_there states id j s target before = elim (Bool-cases (str_eq id j)) [
  | inl same ↦
      let there : is_some (states j) ≡ true =
        subst (λ x. is_some (states x) ≡ true) ((eq_iff id j).0 same) (rw before refl) in
      rw (same, there) refl
  | inr other ↦ rw other refl
]

-- A transition of a node that is there.
pub transition-Moves :
    (source : Source) (d : EffectDag) (n : EffectNode) (event : TaskEvent) (kind : String)
    (target : EffectNodeStatus) (graph : EffectGraphStatus)
    → find_node n.node_id d.nodes ≡ some n
    → Moves d (record_transition source d n event kind target graph) n.node_id n.status target
unfolding record_transition state
transition-Moves source d n event kind target graph found =
    let f = λ (m : EffectNode). record m {
      status = target;
      last_event_seq = event.seq;
      updated_at = source.clock event.seq;
    } in
    let before : state d.nodes n.node_id ≡ some n.status = rw (state, found) refl in
    record {
      before = before;
      states = λ j.
          state-change_status f target n.node_id j d.nodes (λ m. refl) (λ m. refl)
          ∙ row_there (state d.nodes) n.node_id j n.status target before;
      ids = changed_ids f n.node_id (λ m. refl) d.nodes;
      edges = refl;
      decisions = refl;
    }

-- Each call leaves an exact projection, over the same edges.
pub reached :
    (h : Hashing) (source : Source) (d : EffectDag) (p : Projection)
    → Reached h source d p
    → IsSimple d.edges
    → IsExact d p.rows
unfolding record_transition decide dag_event decision_row
reached h source d p (built p' at made) simple = rebuild-IsExact h d p' p at made
reached h source e p (framed {d = d} r frame) simple =
    Frame-IsExact d e p.rows frame (reached h source d p r (subst IsSimple frame.edges simple))
reached h source e q
      (moved {d = d} {p = p} n m event kind target graph expected at r found same made) simple =
    apply_transition-IsExact h d e p q m event expected n.status target kind at simple
      (rw same (transition-Moves source d n event kind target graph found))
      (reached h source d p r simple) made
reached h source e q (settled {d = d} {p = p} n r expected at before fresh made) simple =
    apply_decision-IsExact h d e p q (decision_row h source d n r) (decision_event h source d n r)
      expected at
      (record {
        fresh = undecided d.decisions n.node_id r.decision_key fresh;
        decisions = refl;
        nodes = refl;
        edges = refl;
      })
      (reached h source d p before simple) made
reached h source d q (advanced {p = p} event expected mutation at r made) simple =
    advance-IsExact h d p q event expected mutation no_changes at (reached h source d p r simple)
      made
reached h source d q (expired {p = p} seen time at r made) simple =
    reconcile_expired-IsExact h d p q seen time at (reached h source d p r simple) made

-- What a row counts of its node.
abbrev pub counters : ReadyNode → String × ℕ × ℕ × Bool
counters r = (r.node_id, r.remaining_predecessors, r.unresolved_branches, r.branch_rejected)

same_counters :
    (d : EffectDag) (r s : ReadyNode)
    → r.node_id ≡ s.node_id
    → Counts d r
    → Counts d s
    → counters r ≡ counters s
same_counters d r s same c c' =
    let remaining : r.remaining_predecessors ≡ s.remaining_predecessors = ok_injective (
      sym c.remaining
      ∙ ap (λ id. remaining_of d.nodes (predecessor_edges d.edges id)) same
      ∙ c'.remaining) in
    let branches : (r.unresolved_branches, r.branch_rejected)
        ≡ (s.unresolved_branches, s.branch_rejected) =
      ok_injective (
        sym c.branches
        ∙ ap (λ id. branches_of d.decisions (conditional_edges d.edges id)) same
        ∙ c'.branches) in
    cc

exact_unique :
    (d : EffectDag) (rows rows' : List ReadyNode)
    → map row_id rows ≡ map row_id rows'
    → All (Counts d) rows
    → All (Counts d) rows'
    → map counters rows ≡ map counters rows'
exact_unique d [] [] same c c' = refl
exact_unique d [] (r ∷ rs) same c c' = cc
exact_unique d (r ∷ rs) [] same c c' = cc
exact_unique d (r ∷ rs) (s ∷ ss) same c c' =
    let heads : r.node_id ≡ s.node_id = cc in
    let tails : map row_id rs ≡ map row_id ss = cc in
    let first = same_counters d r s heads c.0 c'.0 in
    let rest = exact_unique d rs ss tails c.1 c'.1 in cc

-- However the calls on a graph that was created went, the counters of the projection that was kept
-- along are those that a rebuild from the rows of the graph gives.
pub reached_rebuilt :
    (h : Hashing) (source : Source) (sha256 : String → String) (task : Task)
    (ds : List NodeDefinition) (now : ℕ) (c d : EffectDag) (p q r : Projection) (at : ℕ)
    → create_effect_dag sha256 source task none ds now ≡ ok c
    → d.edges ≡ c.edges
    → Reached h source d p
    → rebuild h d r at ≡ ok q
    → map counters p.rows ≡ map counters q.rows
reached_rebuilt h source sha256 task ds now c d p q r at made same kept again =
    let simple =
      subst IsSimple (sym same) (create_effect_dag-IsSimple sha256 source task ds now c made) in
    let exact = reached h source d p kept simple in
    let rebuilt = rebuild-IsExact h d r q at again in
    exact_unique d p.rows q.rows (exact.ids ∙ sym rebuilt.ids) exact.counts rebuilt.counts
