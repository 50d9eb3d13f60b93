-- ===== src/Effects/Ready/Total.antt =====
-- A transition of a node is never refused by the upkeep of the projection.
use desk_pilot_agent.Base.{
  ℕ, zero, suc, ◌+◌, ◌≤◌, ◌==◌, String, ◌≡◌, refl, sym, ◌∙◌, Bool, true, false, some, List, [], ◌∷◌,
  map, All, all_of, keep, length, is_some, if◌then◌else◌, arith, Bool-cases, inl, inr,
}
use desk_pilot_agent.Base.Text.{str_eq, eq_iff, mem}
use desk_pilot_agent.Base.Result.{Result, ok, err}
use desk_pilot_agent.Effects.NodeStatus.{EffectNodeStatus, is_succeeded}
use desk_pilot_agent.Effects.Dag.{
  EffectNode, EffectEdge, EffectDag, EffectError, ready_set_rejected, find_node,
}
use desk_pilot_agent.Effects.Reduce.{predecessor_edges, node_ids}
use desk_pilot_agent.Effects.Ready.{ReadyNode, find_row, count_ready}
use desk_pilot_agent.Effects.Ready.Upkeep.{differs, targets_of, all_known}
use desk_pilot_agent.Effects.Ready.Transitions.{moved_targets, counted_row}
use desk_pilot_agent.Effects.Ready.Counters.{Counts, row_id}
use desk_pilot_agent.Effects.Ready.Recount.{from_node, left_out, moved_count, IsSimple}
use desk_pilot_agent.Effects.Ready.Moved.{Moves, moved_target}

-- What an ID finds.
found_row :
    (id : String) (rows : List ReadyNode) → is_some (find_row id rows) ≡ mem id (map row_id rows)
unfolding find_row mem
found_row id [] = refl
found_row id (r ∷ rs) = ground (arith, found_row id rs, eq_iff r.node_id id, eq_iff id r.node_id)

pub found_node :
    (id : String) (ns : List EffectNode) → is_some (find_node id ns) ≡ mem id (node_ids ns)
unfolding find_node mem
found_node id [] = refl
found_node id (n ∷ ns) = ground (arith, found_node id ns, eq_iff n.node_id id, eq_iff id n.node_id)

pub row_with :
    (P : ReadyNode → Type 0) (id : String) (rows : List ReadyNode)
    → All P rows
    → mem id (map row_id rows) ≡ true
    → (r : ReadyNode) × (find_row id rows ≡ some r) × P r
unfolding find_row mem
row_with P id [] all m = cc
row_with P id (r ∷ rs) (p, all) m = elim (Bool-cases (str_eq r.node_id id)) [
  | inl here ↦ (r, rw here refl, p)
  | inr later ↦
      let (s, found, q) =
        row_with P id rs all (ground (arith, eq_iff r.node_id id, eq_iff id r.node_id)) in
      (s, rw (later, found) refl, q)
]

-- The edges lead to nodes of the graph.
unfoldable pub IsClosed : EffectDag → Type 0
IsClosed d = All (λ (e : EffectEdge). mem e.to_node_id (node_ids d.nodes) ≡ true) d.edges

pub known_targets :
    (d : EffectDag) (rows : List ReadyNode) (t : EffectEdge → Bool) (edges : List EffectEdge)
    → map row_id rows ≡ node_ids d.nodes
    → All (λ (e : EffectEdge). mem e.to_node_id (node_ids d.nodes) ≡ true) edges
    → all_known d rows (targets_of (keep t edges)) ≡ true
unfolding all_known all_of keep
known_targets d rows t [] ids closed = refl
known_targets d rows t (e ∷ es) ids (to, closed) =
    let rest = known_targets d rows t es ids closed in
    let row : is_some (find_row e.to_node_id rows) ≡ true =
      found_row e.to_node_id rows ∙ rw ids to in
    let node : is_some (find_node e.to_node_id d.nodes) ≡ true =
      found_node e.to_node_id d.nodes ∙ to in
    elim (Bool-cases (t e)) [ inl own ↦ rw (own, row, node) rest | inr other ↦ rw other rest ]

lower :
    (r : ReadyNode) (count : ℕ)
    → 1 ≤ count
    → (s : ReadyNode) × ((let lowered : Result EffectError ReadyNode = elim count [
      | zero ↦ err ready_set_rejected
      | suc k ↦ ok (record r { remaining_predecessors = k })
    ] in
          lowered)
        ≡ ok s)
lower r zero h = absurd (omega arith)
lower r (suc k) h = (record r { remaining_predecessors = k }, refl)

-- The count of a target is above 0 before its predecessor succeeds.
pub counted_ok :
    (targets : List String) (success : Bool) (r : ReadyNode)
    → (mem r.node_id targets ≡ true → success ≡ true → 1 ≤ r.remaining_predecessors)
    → (s : ReadyNode) × (counted_row targets success r ≡ ok s)
unfolding counted_row
counted_ok targets success r above = elim (Bool-cases (mem r.node_id targets)) [
  | inr other ↦ (r, rw other refl)
  | inl target ↦ elim (Bool-cases success) [
    | inr lost ↦
        (record r { remaining_predecessors = r.remaining_predecessors + 1 }, rw (target, lost) refl)
    | inl won ↦
        let (s, lowered) = lower r r.remaining_predecessors (above target won) in
        (s, rw (target, won) lowered)
  ]
]

pub counted_kept :
    (targets : List String) (success : Bool) (r s : ReadyNode)
    → counted_row targets success r ≡ ok s
    → (s.membership_ready ≡ r.membership_ready) × (s.graph_id ≡ r.graph_id)
unfolding counted_row
counted_kept targets success r s h = elim (Bool-cases (mem r.node_id targets)) [
  | inl target ↦ (ground arith, ground arith)
  | inr other ↦ (ground arith, ground arith)
]

above :
    (before after : Bool) (c k old : ℕ)
    → after ≡ true
    → (if differs before after then (if c == 0 then false else true) else false) ≡ true
    → k + (if after then c else 0) ≡ old + (if before then c else 0)
    → 1 ≤ old
above before after c k old won target balance = ground arith

-- A target of a node that succeeds waits for it.
pub target_above :
    (d e : EffectDag) (id : String) (previous target : EffectNodeStatus)
    → IsSimple d.edges
    → Moves d e id previous target
    → (r : ReadyNode) → Counts d r
    → mem r.node_id (moved_targets e id previous target) ≡ true
    → is_succeeded target ≡ true
    → 1 ≤ r.remaining_predecessors
unfolding left_out
target_above d e id previous target simple moves r c m won =
    let edges = predecessor_edges d.edges r.node_id in
    let (k, count, balance) =
      moved_count d.nodes e.nodes id previous target moves.before moves.states edges
        r.remaining_predecessors c.remaining in
    let is_target = sym (moved_target d e id previous target moves.edges r.node_id) ∙ m in
    above (is_succeeded previous) (is_succeeded target) (from_node id edges) k
      r.remaining_predecessors won is_target balance

-- The number of rows that are ready, from their memberships.
pub trues : List Bool → ℕ
trues bs = length (keep (λ b. b) bs)

pub count_trues :
    (rows : List ReadyNode)
    → count_ready rows ≡ trues (map (λ (r : ReadyNode). r.membership_ready) rows)
unfolding count_ready trues keep
count_trues [] = refl
count_trues (r ∷ rs) = ground (arith, count_trues rs)
