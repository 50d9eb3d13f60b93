-- ===== src/Effects/Ready/Kept/Decided.antt =====
-- A decision keeps a projection, and so do the other events of a graph; a rebuild makes one.
use desk_pilot_agent.Base.{
  ℕ, String, ◌≡◌, refl, sym, ap, subst, ◌∙◌, Bool, true, Option, some, List, map, All, length,
}
use desk_pilot_agent.Base.Text.{mem}
use desk_pilot_agent.Base.Json.{Hashing}
use desk_pilot_agent.Base.Result.{ok}
use desk_pilot_agent.Tasks.Events.{TaskEvent}
use desk_pilot_agent.Effects.Dag.{EffectDag}
use desk_pilot_agent.Effects.Reduce.{node_ids}
use desk_pilot_agent.Effects.Ready.{ReadyNode, ReadyState, Projection, count_ready}
use desk_pilot_agent.Effects.Ready.Upkeep.{targets_of, all_known}
use desk_pilot_agent.Effects.Ready.Counters.{row_id, IsExact}
use desk_pilot_agent.Effects.Ready.Heads.{Heads, current, valid, advanced}
use desk_pilot_agent.Effects.Ready.Total.{IsClosed, known_targets, trues, count_trues}
use desk_pilot_agent.Effects.Dag.{BranchDecision}
use desk_pilot_agent.Effects.Decisions.{governed_edges}
use desk_pilot_agent.Effects.Ready.Branches.{decided_row, decision_mutation, apply_decision}
use desk_pilot_agent.Effects.Ready.Settled.{Decides, decided_row-Same, decided_rows}
use desk_pilot_agent.Effects.Ready.Settled.Open.{settle_total, settle_kept}
use desk_pilot_agent.Effects.Ready.Kept.{Kept, Same-ids, Same-graphs}

governed_known :
    (e : EffectDag) (rows : List ReadyNode) (id key : String)
    → map row_id rows ≡ node_ids e.nodes
    → IsClosed e
    → all_known e rows (targets_of (governed_edges id key e.edges)) ≡ true
unfolding governed_edges IsClosed
governed_known e rows id key ids closed = known_targets e rows _ e.edges ids closed

Kept-decision :
    (h : Hashing) (d e : EffectDag) (head : ReadyState) (before : List ReadyNode)
    (r : BranchDecision) (event : TaskEvent) (at : ℕ)
    → IsClosed e
    → Decides d e r
    → e.graph.graph_id ≡ d.graph.graph_id
    → e.graph.last_event_seq ≡ event.seq
    → IsExact d before
    → All (λ (r : ReadyNode). r.graph_id ≡ d.graph.graph_id) before
    → Heads d.graph.last_event_seq before head
    → (let p : Projection = record { state = some head; rows = before } in
        (q : Projection) × (apply_decision h e p r event d.graph.last_event_seq at ≡ ok q)
        × Kept e q)
unfolding apply_decision
Kept-decision h d e head before r event at closed decides graph seq exact graphs counted =
    let p : Projection = record { state = some head; rows = before } in
    let edges = governed_edges r.source_node_id r.decision_key e.edges in
    let targets = targets_of edges in
    let f = decided_row h e at targets in
    let same = decided_row-Same h e at targets in
    let t : ReadyNode → Bool = λ row. mem row.node_id targets in
    let (rows, looped) = settle_total d e r before decides exact in
    let (ids, members, of_graph) =
      settle_kept d.graph.graph_id r.outcome edges before rows graphs looped in
    let ready : count_ready rows ≡ count_ready before =
      count_trues rows ∙ ap trues members ∙ sym (count_trues before) in
    let heads : Heads d.graph.last_event_seq rows head = record {
      event = counted.event;
      version = counted.version;
      projected = counted.projected ∙ ap length (sym ids);
      ready = counted.ready ∙ sym ready;
    } in
    let stale = current d.graph.last_event_seq before p head refl counted in
    let fine = valid d.graph.last_event_seq before head counted in
    let known =
      governed_known e before r.source_node_id r.decision_key
        (exact.ids ∙ ap node_ids (sym decides.nodes)) closed in
    let (q, made, next, there, q_rows, q_heads) =
      advanced h e p head event (decision_mutation r) t f rows at d.graph.last_event_seq refl
        (Same-ids f same rows) heads in
    (
      q,
      rw (stale, fine, known, looped) made,
      record {
        exact = rw q_rows (decided_rows h d e r at before rows decides exact looped targets);
        graphs = rw (q_rows, graph) (Same-graphs d.graph.graph_id f same rows of_graph);
        head = next;
        there = there;
        heads =
            subst (λ last. Heads last q.rows next) (sym seq)
              (subst (λ rs. Heads event.seq rs next) (sym q_rows) q_heads);
      },
    )

-- A decision is never refused, and leaves the projection kept.
pub decision-Kept :
    (h : Hashing) (d e : EffectDag) (p : Projection) (r : BranchDecision) (event : TaskEvent)
    (at : ℕ)
    → IsClosed e
    → Decides d e r
    → e.graph.graph_id ≡ d.graph.graph_id
    → e.graph.last_event_seq ≡ event.seq
    → Kept d p
    → (q : Projection) × (apply_decision h e p r event d.graph.last_event_seq at ≡ ok q) × Kept e q
decision-Kept h d e p r event at closed decides graph seq kept =
    subst
      (λ (x : Projection).
        (q : Projection) × (apply_decision h e x r event d.graph.last_event_seq at ≡ ok q)
        × Kept e q)
      (ap (λ (st : Option ReadyState). record { state = st; rows = p.rows }) (sym kept.there))
      (Kept-decision h d e kept.head p.rows r event at closed decides graph seq kept.exact
        kept.graphs kept.heads)
