-- ===== src/Effects/Ready/Moved.antt =====
-- A transition of a node, in the projection of the ready nodes.
use desk_pilot_agent.Base.{
  ℕ, ◌==◌, String, ◌≡◌, refl, sym, ◌∙◌, true, false, not, ◌||◌, some, List, map, if◌then◌else◌,
  Bool-cases, if_lem, option_cases, if_cases, inl, inr,
}
use desk_pilot_agent.Base.Text.{str_eq, mem}
use desk_pilot_agent.Base.Json.{Hashing}
use desk_pilot_agent.Base.Result.{ok, bind_ok, traverse, traverse-All, traverse-map}
use desk_pilot_agent.Effects.NodeStatus.{EffectNodeStatus, is_succeeded}
use desk_pilot_agent.Effects.Dag.{EffectNode, EffectDag}
use desk_pilot_agent.Effects.Reduce.{predecessor_edges, node_ids}
use desk_pilot_agent.Effects.Reduce.Closure.{state}
use desk_pilot_agent.Tasks.Events.{TaskEvent}
use desk_pilot_agent.Effects.Ready.{ReadyNode, Projection, find_row, rebuild}
use desk_pilot_agent.Effects.Ready.Upkeep.{differs, is_stale, validate_state, all_known, changes}
use desk_pilot_agent.Effects.Ready.Transitions.{
  counted_row, moved_targets, refreshed_row, is_refreshed, transition_mutation, apply_transition,
}
use desk_pilot_agent.Effects.Ready.Counters.{
  Counts, row_id, IsExact, Same, Same-refl, refreshed-Same, map-IsExact, rebuild-IsExact,
  advance-IsExact,
}
use desk_pilot_agent.Effects.Ready.Recount.{
  from_node, moved_count, IsSimple, targets_count, counted_row_lem, right_again,
}

-- A node of a DAG takes a state.
pub record Moves (d e : EffectDag) (id : String) (previous target : EffectNodeStatus) : Type 0 where
  pub before : state d.nodes id ≡ some previous
  pub states :
      (j : String) → state e.nodes j ≡ (if str_eq id j then some target else state d.nodes j)
  pub ids : node_ids e.nodes ≡ node_ids d.nodes
  pub edges : e.edges ≡ d.edges
  pub decisions : e.decisions ≡ d.decisions

pub moved_target :
    (d e : EffectDag) (id : String) (previous target : EffectNodeStatus)
    → e.edges ≡ d.edges
    → (t : String)
    → mem t (moved_targets e id previous target) ≡ (
        if differs (is_succeeded previous) (is_succeeded target)
        then (if from_node id (predecessor_edges d.edges t) == 0 then false else true)
        else false)
unfolding moved_targets mem
moved_target d e id previous target same t =
    elim (Bool-cases (differs (is_succeeded previous) (is_succeeded target))) [
      | inl moved ↦ rw (moved, same) (targets_count id t d.edges)
      | inr kept ↦ rw kept refl
    ]

counted_row-Counts :
    (d e : EffectDag) (id : String) (previous target : EffectNodeStatus)
    → IsSimple d.edges
    → Moves d e id previous target
    → (r s : ReadyNode) → Counts d r
    → counted_row (moved_targets e id previous target) (is_succeeded target) r ≡ ok s
    → Counts e s
unfolding moved_targets IsSimple
counted_row-Counts d e id previous target simple moves r s c h =
    let (same_id, same_open, same_rejected, counted) =
      counted_row_lem (moved_targets e id previous target) (is_succeeded target) r s h in
    let edges = predecessor_edges d.edges r.node_id in
    let is_target = moved_target d e id previous target moves.edges in
    let (k, count, balance) =
      moved_count d.nodes e.nodes id previous target moves.before moves.states edges
        r.remaining_predecessors c.remaining in
    let right : k ≡ s.remaining_predecessors =
      right_again previous target (from_node id edges) r.remaining_predecessors
        s.remaining_predecessors k (mem r.node_id (moved_targets e id previous target))
        (simple id r.node_id) (is_target r.node_id) balance counted in
    record {
      remaining = rw (same_id, moves.edges, ← right) count;
      branches = rw (same_id, moves.edges, moves.decisions, same_open, same_rejected) c.branches;
    }

pub refreshed_row-Same :
    (h : Hashing) (d : EffectDag) (at : ℕ) (id : String) (targets : List String) (r : ReadyNode)
    → Same r (refreshed_row h d at id targets r)
unfolding refreshed_row
refreshed_row-Same h d at id targets r =
    if_lem (Same r) _ _ r (refreshed-Same h d at (mem r.node_id targets) r) (Same-refl r)

-- The rows after the loops.
pub moved_rows :
    (h : Hashing) (d e : EffectDag) (id : String) (previous target : EffectNodeStatus) (at : ℕ)
    (rows rows' : List ReadyNode)
    → IsSimple d.edges
    → Moves d e id previous target
    → IsExact d rows
    → traverse (counted_row (moved_targets e id previous target) (is_succeeded target)) rows
      ≡ ok rows'
    → IsExact e (map (refreshed_row h e at id (moved_targets e id previous target)) rows')
moved_rows h d e id previous target at rows rows' simple moves exact looped =
    let targets = moved_targets e id previous target in
    let f = counted_row targets (is_succeeded target) in
    map-IsExact e (refreshed_row h e at id targets) (refreshed_row-Same h e at id targets) rows'
      (record {
        ids =
            traverse-map row_id row_id f
              (λ r s one. (counted_row_lem targets (is_succeeded target) r s one).0) rows rows'
              looped
            ∙ exact.ids
            ∙ sym moves.ids;
        counts =
            traverse-All (Counts d) (Counts e) f
              (counted_row-Counts d e id previous target simple moves) rows rows' exact.counts
              looped;
      })

-- A transition of a node leaves an exact projection.
pub apply_transition-IsExact :
    (h : Hashing) (d e : EffectDag) (p q : Projection) (n : EffectNode) (event : TaskEvent)
    (expected : ℕ) (previous target : EffectNodeStatus) (kind : String) (at : ℕ)
    → IsSimple d.edges
    → Moves d e n.node_id previous target
    → IsExact d p.rows
    → apply_transition h e p n event expected previous target kind at ≡ ok q
    → IsExact e q.rows
unfolding apply_transition
apply_transition-IsExact h d e p q n event expected previous target kind at simple moves exact
      made =
    let targets = moved_targets e n.node_id previous target in
    elim (option_cases p.state (rebuild h e p at) _ made) [
      | inl rebuilt ↦ rebuild-IsExact h e p q at rebuilt
      | inr (s, h1) ↦ elim (if_cases (is_stale p.state expected) (rebuild h e p at) _ h1) [
        | inl rebuilt ↦ rebuild-IsExact h e p q at rebuilt
        | inr current ↦
            let (_, _, h2) = bind_ok (validate_state s) _ current in
            elim (option_cases (find_row n.node_id p.rows) (rebuild h e p at) _ h2) [
              | inl rebuilt ↦ rebuild-IsExact h e p q at rebuilt
              | inr (own, h3) ↦
                  elim (if_cases
                    (not (str_eq own.graph_id e.graph.graph_id) || not (all_known e p.rows targets))
                    (rebuild h e p at) _ h3) [
                      | inl rebuilt ↦ rebuild-IsExact h e p q at rebuilt
                      | inr kept ↦
                          let (rows, looped, h4) =
                            bind_ok (traverse (counted_row targets (is_succeeded target)) p.rows) _
                              kept in
                          advance-IsExact h e
                            (record p { rows = map (refreshed_row h e at n.node_id targets) rows })
                            q event expected (transition_mutation kind n previous target)
                            (changes (is_refreshed h e at n.node_id targets)
                              (refreshed_row h e at n.node_id targets) rows)
                            at
                            (moved_rows h d e n.node_id previous target at p.rows rows simple moves
                              exact looped)
                            h4
                    ]
            ]
      ]
    ]
