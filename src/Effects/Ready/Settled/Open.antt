-- ===== src/Effects/Ready/Settled/Open.antt =====
-- A decision on branches finds the branches open that it settles, so that no count falls below 0.
use desk_pilot_agent.Base.{
  ℕ, true, zero, suc, ◌≤◌, String, ◌≡◌, refl, subst, ◌∙◌, not, ◌||◌, some, List, [], ◌∷◌, map, All,
  length, arith, Bool-cases, inl, inr,
}
use desk_pilot_agent.Base.Text.{str_eq, opt_eq}
use desk_pilot_agent.Base.Result.{
  Result, ok, err, bind_ok, ok_injective, traverse, traverse-All, traverse-map, traverse_total,
}
use desk_pilot_agent.Effects.Dag.{
  EffectEdge, BranchDecision, EffectDag, EffectError, ready_set_rejected,
}
use desk_pilot_agent.Effects.Decisions.{governed_edges}
use desk_pilot_agent.Effects.Ready.{ReadyNode}
use desk_pilot_agent.Effects.Ready.Branches.{settled_row, settle}
use desk_pilot_agent.Effects.Ready.Counters.{row_id, IsExact}
use desk_pilot_agent.Effects.Ready.Settled.{
  to_node, Awaits, Decides, Awaits-first, settled_row_lem, to_node_step, Awaits-step, all_map,
}

-- A row that waits for an edge has an open branch.
open_branch :
    (r : ReadyNode) (x : EffectEdge) (outcome : String) (count : ℕ)
    → 1 ≤ count
    → (s : ReadyNode) × ((let settled : Result EffectError ReadyNode = elim count [
      | zero ↦ err ready_set_rejected
      | suc k ↦ ok (record r {
        unresolved_branches = k;
        branch_rejected = not (opt_eq x.expected_outcome (some outcome)) || r.branch_rejected;
      })
    ] in
          settled)
        ≡ ok s)
open_branch r x outcome zero h = absurd (omega arith)
open_branch r x outcome (suc k) h = (
  record r {
    unresolved_branches = k;
    branch_rejected = not (opt_eq x.expected_outcome (some outcome)) || r.branch_rejected;
  },
  refl,
)

has_open :
    (e : EffectDag) (o : BranchDecision) (x : EffectEdge) (es : List EffectEdge) (r : ReadyNode)
    → Awaits e o (x ∷ es) r
    → str_eq r.node_id x.to_node_id ≡ true
    → 1 ≤ r.unresolved_branches
has_open e o x es r w here =
    let (count, _) = to_node_step o r.node_id x es in
    let grown : length (to_node r.node_id (x ∷ es)) ≡ suc (length (to_node r.node_id es)) =
      count ∙ rw here refl in
    omega (arith, w.balance, grown)

settled_ok :
    (e : EffectDag) (o : BranchDecision) (x : EffectEdge) (es : List EffectEdge) (r : ReadyNode)
    → Awaits e o (x ∷ es) r
    → (s : ReadyNode) × (settled_row o.outcome x r ≡ ok s)
unfolding settled_row
settled_ok e o x es r w = elim (Bool-cases (str_eq r.node_id x.to_node_id)) [
  | inr elsewhere ↦ (r, rw elsewhere refl)
  | inl here ↦
      let (s, settled) =
        open_branch r x o.outcome r.unresolved_branches (has_open e o x es r w here) in
      (s, rw here settled)
]

settle_ok :
    (e : EffectDag) (o : BranchDecision) (es : List EffectEdge) (rows : List ReadyNode)
    → All (Awaits e o es) rows
    → (rows' : List ReadyNode) × (settle o.outcome es rows ≡ ok rows')
unfolding settle
settle_ok e o [] rows all = (rows, refl)
settle_ok e o (x ∷ es) rows all =
    let (mid, looped) =
      traverse_total (settled_row o.outcome x) rows (all_map (settled_ok e o x es) rows all) in
    let (rows', rest) = settle_ok e o es mid (
      traverse-All (Awaits e o (x ∷ es)) (Awaits e o es) (settled_row o.outcome x)
        (Awaits-step e o x es) rows mid all looped) in
    (rows', rw looped rest)

-- The loop over the edges is not refused.
pub settle_total :
    (d e : EffectDag) (o : BranchDecision) (rows : List ReadyNode)
    → Decides d e o
    → IsExact d rows
    → (rows' : List ReadyNode) × (settle o.outcome
          (governed_edges o.source_node_id o.decision_key e.edges)
          rows
        ≡ ok rows')
settle_total d e o rows decides exact =
    settle_ok e o (governed_edges o.source_node_id o.decision_key e.edges) rows
      (all_map (λ r. Awaits-first d e o r decides) rows exact.counts)

settled_kept :
    (outcome : String) (x : EffectEdge) (r s : ReadyNode)
    → settled_row outcome x r ≡ ok s
    → (s.membership_ready ≡ r.membership_ready) × (s.graph_id ≡ r.graph_id)
unfolding settled_row
settled_kept outcome x r s h = elim (Bool-cases (str_eq r.node_id x.to_node_id)) [
  | inl here ↦ (ground arith, ground arith)
  | inr elsewhere ↦ (ground arith, ground arith)
]

-- And leaves what the head counts.
pub settle_kept :
    (g outcome : String) (es : List EffectEdge) (rows rows' : List ReadyNode)
    → All (λ (r : ReadyNode). r.graph_id ≡ g) rows
    → settle outcome es rows ≡ ok rows'
    → (map row_id rows' ≡ map row_id rows)
      × (map (λ (r : ReadyNode). r.membership_ready) rows'
          ≡ map (λ (r : ReadyNode). r.membership_ready) rows)
      × All (λ (r : ReadyNode). r.graph_id ≡ g) rows'
unfolding settle
settle_kept g outcome [] rows rows' all h =
    subst
      (λ rs.
        (map row_id rs ≡ map row_id rows)
        × (map (λ (r : ReadyNode). r.membership_ready) rs
            ≡ map (λ (r : ReadyNode). r.membership_ready) rows)
        × All (λ (r : ReadyNode). r.graph_id ≡ g) rs)
      (ok_injective h) (refl, refl, all)
settle_kept g outcome (x ∷ es) rows rows' all h =
    let f = settled_row outcome x in
    let (mid, looped, h1) = bind_ok (traverse f rows) _ h in
    let (ids, ready, graphs) =
      settle_kept g outcome es mid rows'
        (traverse-All (λ (r : ReadyNode). r.graph_id ≡ g) (λ (r : ReadyNode). r.graph_id ≡ g) f
          (λ r s of one. (settled_kept outcome x r s one).1 ∙ of) rows mid all looped)
        h1 in
    (
      ids
          ∙ traverse-map row_id row_id f (λ r s one. (settled_row_lem outcome x r s one).0) rows mid
              looped,
      ready
          ∙ traverse-map (λ (r : ReadyNode). r.membership_ready)
              (λ (r : ReadyNode). r.membership_ready) f
              (λ r s one. (settled_kept outcome x r s one).0) rows mid looped,
      graphs,
    )
