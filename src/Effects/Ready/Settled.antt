-- ===== src/Effects/Ready/Settled.antt =====
-- A decision on branches, in the projection of the ready nodes.
pub mod Open
use desk_pilot_agent.Base.{
  ℕ, suc, ◌+◌, String, ◌≡◌, refl, sym, ap, subst, ◌∙◌, Bool, true, not, ◌||◌, none, some, List, [],
  ◌∷◌, ◌++◌, map, All, keep, any_of, length, if◌then◌else◌, arith, Bool-cases, if_lem, option_cases,
  if_cases, inl, inr,
}
use desk_pilot_agent.Base.Text.{str_eq, eq_iff, opt_eq, mem}
use desk_pilot_agent.Base.Json.{Hashing}
use desk_pilot_agent.Base.Result.{ok, bind_ok, ok_injective, traverse, traverse-All, traverse-map}
use desk_pilot_agent.Tasks.Events.{TaskEvent}
use desk_pilot_agent.Effects.Dag.{
  EffectEdge, BranchDecision, EffectDag, EffectError, ready_set_rejected,
}
use desk_pilot_agent.Effects.Decisions.{governed_edges, decided}
use desk_pilot_agent.Effects.Reduce.{predecessor_edges, conditional_edges, node_ids}
use desk_pilot_agent.Effects.Ready.{ReadyNode, Projection, remaining_of, branches_of, rebuild}
use desk_pilot_agent.Effects.Ready.Upkeep.{is_stale, validate_state, targets_of, all_known, changes}
use desk_pilot_agent.Effects.Ready.Branches.{
  settled_row, settle, decided_row, decision_mutation, apply_decision,
}
use desk_pilot_agent.Effects.Ready.Counters.{
  Counts, row_id, IsExact, Same, Same-refl, refreshed-Same, map-IsExact, rebuild-IsExact,
  advance-IsExact,
}
use desk_pilot_agent.Effects.Ready.Resolved.{
  governs, turns_down, governed_count, turned_down, settled_count,
}

-- The edges to a node.
to_node : String → List EffectEdge → List EffectEdge
to_node t = keep (λ (e : EffectEdge). str_eq t e.to_node_id)

governed_swap :
    (r : BranchDecision) (t : String) (edges : List EffectEdge)
    → keep (governs r) (conditional_edges edges t)
      ≡ to_node t (governed_edges r.source_node_id r.decision_key edges)
unfolding keep conditional_edges to_node governed_edges governs
governed_swap r t [] = refl
governed_swap r t (e ∷ es) =
    ground (arith, governed_swap r t es, eq_iff t e.to_node_id, eq_iff e.to_node_id t)

-- A row whose edges in `es` are still to be settled.
record Awaits (e : EffectDag) (o : BranchDecision) (es : List EffectEdge) (r : ReadyNode)
    : Type 0 where
  remaining :
      remaining_of e.nodes (predecessor_edges e.edges r.node_id) ≡ ok r.remaining_predecessors
  left : ℕ
  rejected : Bool
  branches : branches_of e.decisions (conditional_edges e.edges r.node_id) ≡ ok (left, rejected)
  balance : left + length (to_node r.node_id es) ≡ r.unresolved_branches
  verdict : rejected ≡ (any_of (turns_down o) (to_node r.node_id es) || r.branch_rejected)

-- A decision is added to those of a DAG.
pub record Decides (d e : EffectDag) (r : BranchDecision) : Type 0 where
  pub fresh : decided d.decisions r.source_node_id r.decision_key ≡ none
  pub decisions : e.decisions ≡ d.decisions ++ r ∷ []
  pub nodes : e.nodes ≡ d.nodes
  pub edges : e.edges ≡ d.edges

Awaits-first :
    (d e : EffectDag) (o : BranchDecision) (r : ReadyNode)
    → Decides d e o
    → Counts d r
    → Awaits e o (governed_edges o.source_node_id o.decision_key e.edges) r
unfolding governed_count turned_down
Awaits-first d e o r decides c =
    let edges = conditional_edges d.edges r.node_id in
    let (left, counted, balance) =
      settled_count d.decisions o decides.fresh edges r.unresolved_branches r.branch_rejected
        c.branches in
    let swap = governed_swap o r.node_id d.edges in
    record {
      remaining = rw (decides.nodes, decides.edges) c.remaining;
      left = left;
      rejected = turned_down o edges || r.branch_rejected;
      branches = rw (decides.decisions, decides.edges) counted;
      balance = rw (decides.edges, ← swap) balance;
      verdict = rw (decides.edges, ← swap) refl;
    }

Awaits-last : (e : EffectDag) (o : BranchDecision) (r : ReadyNode) → Awaits e o [] r → Counts e r
unfolding to_node keep any_of
Awaits-last e o r w = record {
  remaining = w.remaining;
  branches =
      w.branches
      ∙ ap (λ (x : ℕ). ok (x, w.rejected)) (ground arith)
      ∙ ap (λ (x : Bool). ok (r.unresolved_branches, x)) w.verdict;
}

settled_row_lem :
    (outcome : String) (x : EffectEdge) (r s : ReadyNode)
    → settled_row outcome x r ≡ ok s
    → (s.node_id ≡ r.node_id)
      × (s.remaining_predecessors ≡ r.remaining_predecessors)
      × (s.unresolved_branches + (if str_eq r.node_id x.to_node_id then 1 else 0)
          ≡ r.unresolved_branches)
      × (s.branch_rejected ≡ (
          if str_eq r.node_id x.to_node_id
          then not (opt_eq x.expected_outcome (some outcome)) || r.branch_rejected
          else r.branch_rejected))
unfolding settled_row
settled_row_lem outcome x r s h = elim (Bool-cases (str_eq r.node_id x.to_node_id)) [
  | inl here ↦ (ground arith, ground arith, ground arith, ground arith)
  | inr elsewhere ↦ (ground arith, ground arith, ground arith, ground arith)
]

to_node_step :
    (o : BranchDecision) (t : String) (x : EffectEdge) (es : List EffectEdge)
    → (length (to_node t (x ∷ es))
        ≡ (if str_eq t x.to_node_id then suc (length (to_node t es)) else length (to_node t es)))
      × (any_of (turns_down o) (to_node t (x ∷ es)) ≡ (
          if str_eq t x.to_node_id
          then turns_down o x || any_of (turns_down o) (to_node t es)
          else any_of (turns_down o) (to_node t es)))
unfolding to_node keep any_of
to_node_step o t x es = elim (Bool-cases (str_eq t x.to_node_id)) [
  | inl here ↦ (rw here refl, rw here refl)
  | inr elsewhere ↦ (rw elsewhere refl, rw elsewhere refl)
]

still_balanced :
    (here : Bool) (left n m old new : ℕ)
    → left + m ≡ old
    → m ≡ (if here then suc n else n)
    → new + (if here then 1 else 0) ≡ old
    → left + n ≡ new
still_balanced here left n m old new balance step settled = ground arith

still_judged :
    (here verdict down any any' old new : Bool)
    → verdict ≡ (any' || old)
    → any' ≡ (if here then down || any else any)
    → new ≡ (if here then down || old else old)
    → verdict ≡ (any || new)
still_judged here verdict down any any' old new judged step settled = ground arith

Awaits-step :
    (e : EffectDag) (o : BranchDecision) (x : EffectEdge) (es : List EffectEdge) (r s : ReadyNode)
    → Awaits e o (x ∷ es) r
    → settled_row o.outcome x r ≡ ok s
    → Awaits e o es s
unfolding turns_down
Awaits-step e o x es r s w h =
    let (id, remaining, unresolved, rejected) = settled_row_lem o.outcome x r s h in
    let (count, down) = to_node_step o r.node_id x es in
    record {
      remaining = rw (id, remaining) w.remaining;
      left = w.left;
      rejected = w.rejected;
      branches = rw id w.branches;
      balance = rw id (
          still_balanced (str_eq r.node_id x.to_node_id) w.left (length (to_node r.node_id es))
            (length (to_node r.node_id (x ∷ es))) r.unresolved_branches s.unresolved_branches
            w.balance count unresolved);
      verdict = rw id (
          still_judged (str_eq r.node_id x.to_node_id) w.rejected (turns_down o x)
            (any_of (turns_down o) (to_node r.node_id es))
            (any_of (turns_down o) (to_node r.node_id (x ∷ es))) r.branch_rejected s.branch_rejected
            w.verdict down rejected);
    }

-- The loop over the edges.
settle-Awaits :
    (e : EffectDag) (o : BranchDecision) (es : List EffectEdge) (rows rows' : List ReadyNode)
    → All (Awaits e o es) rows
    → settle o.outcome es rows ≡ ok rows'
    → All (Awaits e o []) rows' × (map row_id rows' ≡ map row_id rows)
unfolding settle
settle-Awaits e o [] rows rows' all h =
    subst (λ rs. All (Awaits e o []) rs × (map row_id rs ≡ map row_id rows)) (ok_injective h)
      (all, refl)
settle-Awaits e o (x ∷ es) rows rows' all h =
    let (mid, looped, h1) = bind_ok (traverse (settled_row o.outcome x) rows) _ h in
    let (rest, ids) =
      settle-Awaits e o es mid rows'
        (traverse-All (Awaits e o (x ∷ es)) (Awaits e o es) (settled_row o.outcome x)
          (Awaits-step e o x es) rows mid all looped)
        h1 in
    (
      rest,
      ids
          ∙ traverse-map row_id row_id (settled_row o.outcome x)
              (λ r s one. (settled_row_lem o.outcome x r s one).0) rows mid looped,
    )

pub all_map :
    {P Q : ReadyNode → Type 0}
    → ((r : ReadyNode) → P r → Q r)
    → (rows : List ReadyNode) → All P rows
    → All Q rows
all_map f [] all = tt
all_map f (r ∷ rs) all = (f r all.0, all_map f rs all.1)

pub decided_row-Same :
    (h : Hashing) (d : EffectDag) (at : ℕ) (targets : List String) (r : ReadyNode)
    → Same r (decided_row h d at targets r)
unfolding decided_row
decided_row-Same h d at targets r =
    if_lem (Same r) _ _ r (refreshed-Same h d at true r) (Same-refl r)

-- The rows after the loops.
pub decided_rows :
    (h : Hashing) (d e : EffectDag) (o : BranchDecision) (at : ℕ) (rows rows' : List ReadyNode)
    → Decides d e o
    → IsExact d rows
    → settle o.outcome (governed_edges o.source_node_id o.decision_key e.edges) rows ≡ ok rows'
    → (targets : List String) → IsExact e (map (decided_row h e at targets) rows')
decided_rows h d e o at rows rows' decides exact looped targets =
    let edges = governed_edges o.source_node_id o.decision_key e.edges in
    let (settled, ids) =
      settle-Awaits e o edges rows rows'
        (all_map (λ r. Awaits-first d e o r decides) rows exact.counts) looped in
    map-IsExact e (decided_row h e at targets) (decided_row-Same h e at targets) rows' (record {
      ids = ids ∙ exact.ids ∙ ap node_ids (sym decides.nodes);
      counts = all_map (Awaits-last e o) rows' settled;
    })

-- A decision leaves an exact projection.
pub apply_decision-IsExact :
    (h : Hashing) (d e : EffectDag) (p q : Projection) (r : BranchDecision) (event : TaskEvent)
    (expected at : ℕ)
    → Decides d e r
    → IsExact d p.rows
    → apply_decision h e p r event expected at ≡ ok q
    → IsExact e q.rows
unfolding apply_decision
apply_decision-IsExact h d e p q r event expected at decides exact made =
    let edges = governed_edges r.source_node_id r.decision_key e.edges in
    let targets = targets_of edges in
    elim (option_cases p.state (rebuild h e p at) _ made) [
      | inl rebuilt ↦ rebuild-IsExact h e p q at rebuilt
      | inr (s, h1) ↦ elim (if_cases (is_stale p.state expected) (rebuild h e p at) _ h1) [
        | inl rebuilt ↦ rebuild-IsExact h e p q at rebuilt
        | inr current ↦
            let (_, _, h2) = bind_ok (validate_state s) _ current in
            elim (if_cases (not (all_known e p.rows targets)) (rebuild h e p at) _ h2) [
              | inl rebuilt ↦ rebuild-IsExact h e p q at rebuilt
              | inr kept ↦
                  let (rows, looped, h3) = bind_ok (settle r.outcome edges p.rows) _ kept in
                  advance-IsExact h e (record p { rows = map (decided_row h e at targets) rows }) q
                    event expected (decision_mutation r)
                    (changes (λ (row : ReadyNode). mem row.node_id targets)
                      (decided_row h e at targets) rows)
                    at (decided_rows h d e r at p.rows rows decides exact looped targets) h3
            ]
      ]
    ]
