-- ===== src/Effects/Ready/Kept.antt =====
-- A projection that is kept: its rows count, its head is that of the last event. A transition keeps it.
pub mod Decided
pub mod Upkeep
use desk_pilot_agent.Base.{
  ℕ, zero, suc, ◌+◌, ◌≤◌, ◌==◌, String, ◌≡◌, refl, sym, ap, subst, ◌∙◌, Bool, true, false, not,
  ◌&&◌, ◌||◌, Option, none, some, List, [], ◌∷◌, map, All, all_of, keep, length, is_some,
  if◌then◌else◌, arith, Option-cases, Bool-cases, inl, inr,
}
use desk_pilot_agent.Base.Text.{str_eq, eq_iff, eq_refl, mem}
use desk_pilot_agent.Base.Json.{Json, Hashing}
use desk_pilot_agent.Base.Result.{
  Result, ok, err, traverse, traverse-All, traverse-map, traverse_total,
}
use desk_pilot_agent.Tasks.Events.{TaskEvent}
use desk_pilot_agent.Effects.NodeStatus.{EffectNodeStatus, is_succeeded}
use desk_pilot_agent.Effects.Dag.{
  EffectNode, EffectEdge, EffectDag, EffectError, ready_set_rejected, find_node,
}
use desk_pilot_agent.Effects.Reduce.{is_forward, predecessor_edges, node_ids}
use desk_pilot_agent.Effects.Ready.{ReadyNode, ReadyState, Projection, find_row, count_ready}
use desk_pilot_agent.Effects.Ready.Upkeep.{
  is_stale, validate_state, differs, changes, targets_of, all_known, advance, refreshed,
}
use desk_pilot_agent.Effects.Ready.Transitions.{
  outgoing, moved_targets, counted_row, transition_mutation, refreshed_row, is_refreshed,
  apply_transition,
}
use desk_pilot_agent.Effects.Ready.Counters.{Counts, row_id, IsExact, Same}
use desk_pilot_agent.Effects.Ready.Heads.{Heads, current, valid, advanced}
use desk_pilot_agent.Effects.Ready.Recount.{
  from_node, left_out, moved_count, IsSimple, counted_row_lem,
}
use desk_pilot_agent.Effects.Ready.Moved.{Moves, moved_target, refreshed_row-Same, moved_rows}
use desk_pilot_agent.Effects.Ready.Total.{
  IsClosed, row_with, known_targets, counted_ok, counted_kept, target_above, trues, count_trues,
}

pub record Kept (d : EffectDag) (p : Projection) : Type 0 where
  pub exact : IsExact d p.rows
  pub graphs : All (λ (r : ReadyNode). r.graph_id ≡ d.graph.graph_id) p.rows
  pub head : ReadyState
  pub there : p.state ≡ some head
  pub heads : Heads d.graph.last_event_seq p.rows head

-- What the refreshing of the rows leaves.
pub Same-ids :
    (f : ReadyNode → ReadyNode)
    → ((r : ReadyNode) → Same r (f r))
    → (rows : List ReadyNode) → map row_id (map f rows) ≡ map row_id rows
Same-ids f same [] = refl
Same-ids f same (r ∷ rs) = rw ((same r).id, Same-ids f same rs) refl

pub Same-graphs :
    (g : String) (f : ReadyNode → ReadyNode)
    → ((r : ReadyNode) → Same r (f r))
    → (rows : List ReadyNode) → All (λ (r : ReadyNode). r.graph_id ≡ g) rows
    → All (λ (r : ReadyNode). r.graph_id ≡ g) (map f rows)
Same-graphs g f same [] all = tt
Same-graphs g f same (r ∷ rs) (one, all) = ((same r).graph ∙ one, Same-graphs g f same rs all)

all_ok :
    {P Q : ReadyNode → Type 0}
    → ((r : ReadyNode) → P r → Q r)
    → (rows : List ReadyNode) → All P rows
    → All Q rows
all_ok f [] all = tt
all_ok f (r ∷ rs) (one, all) = (f r one, all_ok f rs all)

moved_known :
    (e : EffectDag) (rows : List ReadyNode) (id : String) (previous target : EffectNodeStatus)
    → map row_id rows ≡ node_ids e.nodes
    → IsClosed e
    → all_known e rows (moved_targets e id previous target) ≡ true
unfolding moved_targets outgoing all_known all_of IsClosed
moved_known e rows id previous target ids closed =
    elim (Bool-cases (differs (is_succeeded previous) (is_succeeded target))) [
      | inl changed ↦ rw changed (
          known_targets e rows (λ (x : EffectEdge). is_forward x.kind && str_eq x.from_node_id id)
            e.edges ids closed)
      | inr same ↦ rw same refl
    ]

Kept-transition :
    (h : Hashing) (d e : EffectDag) (head : ReadyState) (before : List ReadyNode) (n : EffectNode)
    (event : TaskEvent) (previous target : EffectNodeStatus) (kind : String) (at : ℕ)
    → IsSimple d.edges
    → IsClosed e
    → Moves d e n.node_id previous target
    → e.graph.graph_id ≡ d.graph.graph_id
    → e.graph.last_event_seq ≡ event.seq
    → mem n.node_id (node_ids d.nodes) ≡ true
    → IsExact d before
    → All (λ (r : ReadyNode). r.graph_id ≡ d.graph.graph_id) before
    → Heads d.graph.last_event_seq before head
    → (let p : Projection = record { state = some head; rows = before } in
        (q : Projection) × (apply_transition h e p n event d.graph.last_event_seq previous target
            kind at
          ≡ ok q)
        × Kept e q)
unfolding apply_transition
Kept-transition h d e head before n event previous target kind at simple closed moves graph seq
      known exact graphs counted =
    let p : Projection = record { state = some head; rows = before } in
    let targets = moved_targets e n.node_id previous target in
    let success = is_succeeded target in
    let f = refreshed_row h e at n.node_id targets in
    let same = refreshed_row-Same h e at n.node_id targets in
    let t = is_refreshed h e at n.node_id targets in
    let (rows, looped) = traverse_total (counted_row targets success) before (
      all_ok
        (λ r c.
          counted_ok targets success r
            (target_above d e n.node_id previous target simple moves r c))
        before exact.counts) in
    let (own, found, of_graph) =
      row_with (λ (r : ReadyNode). r.graph_id ≡ d.graph.graph_id) n.node_id before graphs
        (rw exact.ids known) in
    let ids =
      traverse-map row_id row_id (counted_row targets success)
        (λ r s one. (counted_row_lem targets success r s one).0) before rows looped in
    let ready : count_ready rows ≡ count_ready before =
      count_trues rows
      ∙ ap trues (
          traverse-map (λ (r : ReadyNode). r.membership_ready)
            (λ (r : ReadyNode). r.membership_ready) (counted_row targets success)
            (λ r s one. (counted_kept targets success r s one).0) before rows looped)
      ∙ sym (count_trues before) in
    let heads : Heads d.graph.last_event_seq rows head = record {
      event = counted.event;
      version = counted.version;
      projected = counted.projected ∙ ap length (sym ids);
      ready = counted.ready ∙ sym ready;
    } in
    let stale = current d.graph.last_event_seq before p head refl counted in
    let fine = valid d.graph.last_event_seq before head counted in
    let open_targets =
      moved_known e before n.node_id previous target (exact.ids ∙ sym moves.ids) closed in
    let here : str_eq own.graph_id e.graph.graph_id ≡ true =
      (eq_iff own.graph_id e.graph.graph_id).1 (of_graph ∙ sym graph) in
    let (q, made, next, there, q_rows, q_heads) =
      advanced h e p head event (transition_mutation kind n previous target) t f rows at
        d.graph.last_event_seq refl (Same-ids f same rows) heads in
    (
      q,
      rw (stale, fine, found, here, open_targets, looped) made,
      record {
        exact =
            rw q_rows
              (moved_rows h d e n.node_id previous target at before rows simple moves exact looped);
        graphs =
            rw (q_rows, graph)
              (Same-graphs d.graph.graph_id f same rows (
                traverse-All (λ (r : ReadyNode). r.graph_id ≡ d.graph.graph_id)
                  (λ (r : ReadyNode). r.graph_id ≡ d.graph.graph_id) (counted_row targets success)
                  (λ r s of one. (counted_kept targets success r s one).1 ∙ of) before rows graphs
                  looped));
        head = next;
        there = there;
        heads =
            subst (λ last. Heads last q.rows next) (sym seq)
              (subst (λ rs. Heads event.seq rs next) (sym q_rows) q_heads);
      },
    )

-- A transition is never refused, and leaves the projection kept.
pub transition-Kept :
    (h : Hashing) (d e : EffectDag) (p : Projection) (n : EffectNode) (event : TaskEvent)
    (previous target : EffectNodeStatus) (kind : String) (at : ℕ)
    → IsSimple d.edges
    → IsClosed e
    → Moves d e n.node_id previous target
    → e.graph.graph_id ≡ d.graph.graph_id
    → e.graph.last_event_seq ≡ event.seq
    → mem n.node_id (node_ids d.nodes) ≡ true
    → Kept d p
    → (q : Projection) × (apply_transition h e p n event d.graph.last_event_seq previous target kind
          at
        ≡ ok q)
      × Kept e q
transition-Kept h d e p n event previous target kind at simple closed moves graph seq known kept =
    subst
      (λ (x : Projection).
        (q : Projection) × (apply_transition h e x n event d.graph.last_event_seq previous target
            kind at
          ≡ ok q)
        × Kept e q)
      (ap (λ (st : Option ReadyState). record { state = st; rows = p.rows }) (sym kept.there))
      (Kept-transition h d e kept.head p.rows n event previous target kind at simple closed moves
        graph seq known kept.exact kept.graphs kept.heads)
