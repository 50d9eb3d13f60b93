-- ===== src/Effects/Ready/Counters.antt =====
-- The counters of the rows of a projection, against those that the rows of the graph give.
use desk_pilot_agent.Base.{
  ℕ, String, ◌≡◌, refl, subst, ◌∙◌, Bool, List, [], ◌∷◌, map, All, option_lem, if_lem, option_cases,
  if_cases, inl, inr,
}
use desk_pilot_agent.Base.Json.{Json, Hashing}
use desk_pilot_agent.Base.Result.{ok, bind_ok, ok_injective, traverse, traverse-All, traverse-map}
use desk_pilot_agent.Tasks.Events.{TaskEvent}
use desk_pilot_agent.Effects.Dag.{EffectNode, EffectDag, find_node}
use desk_pilot_agent.Effects.Decisions.{check_decisions}
use desk_pilot_agent.Effects.Reduce.{predecessor_edges, conditional_edges, node_ids}
use desk_pilot_agent.Effects.Ready.{
  ReadyNode, Projection, digested, remaining_of, branches_of, rebuilt_row, rebuild,
}
use desk_pilot_agent.Effects.Ready.Upkeep.{Changes, is_stale, next_state, advance, refreshed}

-- The counters of a row are those of its node.
pub record Counts (d : EffectDag) (r : ReadyNode) : Type 0 where
  pub remaining :
      remaining_of d.nodes (predecessor_edges d.edges r.node_id) ≡ ok r.remaining_predecessors
  pub branches :
      branches_of d.decisions (conditional_edges d.edges r.node_id)
      ≡ ok (r.unresolved_branches, r.branch_rejected)

abbrev pub row_id : ReadyNode → String
row_id r = r.node_id

-- A row for each node, in their order, with its counters.
pub record IsExact (d : EffectDag) (rows : List ReadyNode) : Type 0 where
  pub ids : map row_id rows ≡ node_ids d.nodes
  pub counts : All (Counts d) rows

-- Rows of one node with the same counters.
pub record Same (r s : ReadyNode) : Type 0 where
  pub id : s.node_id ≡ r.node_id
  pub graph : s.graph_id ≡ r.graph_id
  pub remaining : s.remaining_predecessors ≡ r.remaining_predecessors
  pub unresolved : s.unresolved_branches ≡ r.unresolved_branches
  pub rejected : s.branch_rejected ≡ r.branch_rejected

pub Same-refl : (r : ReadyNode) → Same r r
Same-refl r = record {
  id = refl;
  graph = refl;
  remaining = refl;
  unresolved = refl;
  rejected = refl;
}

pub Counts-Same : (d : EffectDag) (r s : ReadyNode) → Same r s → Counts d r → Counts d s
Counts-Same d r s same c = record {
  remaining = rw (same.id, same.remaining) c.remaining;
  branches = rw (same.id, same.unresolved, same.rejected) c.branches;
}

pub refreshed-Same :
    (h : Hashing) (d : EffectDag) (at : ℕ) (counted : Bool) (r : ReadyNode)
    → Same r (refreshed h d at counted r)
unfolding refreshed digested
refreshed-Same h d at counted r =
    option_lem (Same r) (find_node r.node_id d.nodes) r _ (Same-refl r) (λ n.
      if_lem (Same r) _ _ r
        (record { id = refl; graph = refl; remaining = refl; unresolved = refl; rejected = refl })
        (Same-refl r))

-- Rows that keep their counters.
pub map-IsExact :
    (d : EffectDag) (f : ReadyNode → ReadyNode)
    → ((r : ReadyNode) → Same r (f r))
    → (rows : List ReadyNode) → IsExact d rows
    → IsExact d (map f rows)
map-IsExact d f same rows e = record {
  ids = map-ids rows ∙ e.ids;
  counts = map-counts rows e.counts;
}
  where
    map-ids : (rs : List ReadyNode) → map row_id (map f rs) ≡ map row_id rs
    map-ids [] = refl
    map-ids (r ∷ rs) = rw ((same r).id, map-ids rs) refl

    map-counts : (rs : List ReadyNode) → All (Counts d) rs → All (Counts d) (map f rs)
    map-counts [] c = tt
    map-counts (r ∷ rs) c = (Counts-Same d r (f r) (same r) c.0, map-counts rs c.1)

rebuilt_row-Counts :
    (h : Hashing) (d : EffectDag) (existing : List ReadyNode) (at : ℕ) (n : EffectNode)
    (r : ReadyNode)
    → rebuilt_row h d existing at n ≡ ok r
    → (r.node_id ≡ n.node_id) × Counts d r
unfolding rebuilt_row digested
rebuilt_row-Counts h d existing at n r made =
    let (remaining, counted, h1) =
      bind_ok (remaining_of d.nodes (predecessor_edges d.edges n.node_id)) _ made in
    let (branches, resolved, h2) =
      bind_ok (branches_of d.decisions (conditional_edges d.edges n.node_id)) _ h1 in
    subst (λ (s : ReadyNode). (s.node_id ≡ n.node_id) × Counts d s) (ok_injective h2)
      (refl, record { remaining = counted; branches = resolved })

pub trivial : (d : EffectDag) (ns : List EffectNode) → All (λ (n : EffectNode). Unit {0}) ns
trivial d [] = tt
trivial d (n ∷ ns) = (tt, trivial d ns)

-- A rebuild counts.
pub rebuild-IsExact :
    (h : Hashing) (d : EffectDag) (p q : Projection) (at : ℕ)
    → rebuild h d p at ≡ ok q
    → IsExact d q.rows
unfolding rebuild
rebuild-IsExact h d p q at made =
    let (_, _, h1) =
      bind_ok (check_decisions h d.graph.graph_id d.nodes d.edges d.decisions) _ made in
    let (rows, looped, h2) = bind_ok (traverse (rebuilt_row h d p.rows at) d.nodes) _ h1 in
    subst (λ (x : Projection). IsExact d x.rows) (ok_injective h2)
      (record {
        ids =
            traverse-map (λ (n : EffectNode). n.node_id) row_id (rebuilt_row h d p.rows at)
              (λ n r one. (rebuilt_row-Counts h d p.rows at n r one).0) d.nodes rows looped;
        counts =
            traverse-All (λ (n : EffectNode). Unit {0}) (Counts d) (rebuilt_row h d p.rows at)
              (λ n r _ one. (rebuilt_row-Counts h d p.rows at n r one).1) d.nodes rows
              (trivial d d.nodes) looped;
      })

-- The head moves on over exact rows.
pub advance-IsExact :
    (h : Hashing) (d : EffectDag) (p q : Projection) (event : TaskEvent) (expected : ℕ)
    (mutation : Json) (c : Changes) (at : ℕ)
    → IsExact d p.rows
    → advance h d p event expected mutation c at ≡ ok q
    → IsExact d q.rows
unfolding advance
advance-IsExact h d p q event expected mutation c at exact made =
    elim (option_cases p.state (rebuild h d p at) _ made) [
      | inl rebuilt ↦ rebuild-IsExact h d p q at rebuilt
      | inr (s, h1) ↦ elim (if_cases (is_stale p.state expected) (rebuild h d p at) _ h1) [
        | inl rebuilt ↦ rebuild-IsExact h d p q at rebuilt
        | inr moved ↦
            let (next, _, h2) = bind_ok (next_state h d.graph s event mutation c at) _ moved in
            subst (λ (x : Projection). IsExact d x.rows) (ok_injective h2) exact
      ]
    ]
