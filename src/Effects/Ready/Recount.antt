-- ===== src/Effects/Ready/Recount.antt =====
-- How the predecessors that a node waits for are counted, before and after a transition.
use desk_pilot_agent.Base.{
  ℕ, suc, ◌+◌, ◌≤◌, ◌==◌, String, ◌≡◌, refl, sym, ap, subst, ◌∙◌, Bool, true, false, not, ◌&&◌,
  some, List, [], ◌∷◌, keep, length, if◌then◌else◌, arith, Option-cases, Bool-cases, inl, inr,
}
use desk_pilot_agent.Base.Text.{str_eq, eq_iff, mem}
use desk_pilot_agent.Base.Result.{ok, map_result_ok}
use desk_pilot_agent.Effects.NodeStatus.{EffectNodeStatus, is_succeeded}
use desk_pilot_agent.Effects.Dag.{EffectNode, EffectEdge, find_node}
use desk_pilot_agent.Effects.Reduce.{predecessor_edges}
use desk_pilot_agent.Effects.Reduce.Closure.{state}
use desk_pilot_agent.Effects.Ready.{ReadyNode, remaining_of}
use desk_pilot_agent.Effects.Ready.Upkeep.{differs, targets_of}
use desk_pilot_agent.Effects.Ready.Transitions.{outgoing, counted_row}

pub some_injective : {A : Type 0} {a b : A} → some a ≡ some b → a ≡ b
some_injective h = cc

-- The count by the states of the nodes.
counted_step :
    (ns : List EffectNode) (e : EffectEdge) (es : List EffectEdge) (k : ℕ)
    → remaining_of ns (e ∷ es) ≡ ok k
    → (s : EffectNodeStatus) × (rest : ℕ) × (state ns e.from_node_id ≡ some s)
      × (remaining_of ns es ≡ ok rest)
      × ((if is_succeeded s then rest else suc rest) ≡ k)
unfolding remaining_of state
counted_step ns e es k h = elim (Option-cases (find_node e.from_node_id ns)) [
  | inl missing ↦ absurd (ground arith)
  | inr (n, found) ↦
      let (rest, counted, same) =
        map_result_ok (λ (m : ℕ). if is_succeeded n.status then m else suc m) (remaining_of ns es)
          (rw (remaining_of, found) at h) in
      (n.status, rest, ground arith, counted, same)
]

step_counted :
    (ns : List EffectNode) (e : EffectEdge) (es : List EffectEdge) (s : EffectNodeStatus) (rest : ℕ)
    → state ns e.from_node_id ≡ some s
    → remaining_of ns es ≡ ok rest
    → remaining_of ns (e ∷ es) ≡ ok (if is_succeeded s then rest else suc rest)
unfolding remaining_of state
step_counted ns e es s rest at counted = elim (Option-cases (find_node e.from_node_id ns)) [
  | inl missing ↦ absurd (ground arith)
  | inr (n, found) ↦ ground arith
]

-- The edges that lead on from a node.
unfoldable pub from_node : String → List EffectEdge → ℕ
from_node id es = length (keep (λ (e : EffectEdge). str_eq e.from_node_id id) es)

-- What a count leaves out, where the state is success.
unfoldable pub left_out : EffectNodeStatus → ℕ → ℕ
left_out s c = if is_succeeded s then c else 0

from_step :
    (id : String) (e : EffectEdge) (es : List EffectEdge)
    → from_node id (e ∷ es)
      ≡ (if str_eq id e.from_node_id then suc (from_node id es) else from_node id es)
unfolding from_node keep
from_step id e es = ground (arith, eq_iff id e.from_node_id, eq_iff e.from_node_id id)

own_balance :
    (previous target : EffectNodeStatus) (rest rest' c k : ℕ)
    → rest' + left_out target c ≡ rest + left_out previous c
    → (if is_succeeded previous then rest else suc rest) ≡ k
    → (if is_succeeded target then rest' else suc rest') + left_out target (suc c)
      ≡ k + left_out previous (suc c)
unfolding left_out
own_balance previous target rest rest' c k balance same = ground arith

other_balance :
    (s previous target : EffectNodeStatus) (rest rest' c k : ℕ)
    → rest' + left_out target c ≡ rest + left_out previous c
    → (if is_succeeded s then rest else suc rest) ≡ k
    → (if is_succeeded s then rest' else suc rest') + left_out target c ≡ k + left_out previous c
unfolding left_out
other_balance s previous target rest rest' c k balance same = ground arith

-- The node moves: its edges are counted by its new state.
pub moved_count :
    (ns ms : List EffectNode) (id : String) (previous target : EffectNodeStatus)
    → state ns id ≡ some previous
    → ((j : String) → state ms j ≡ (if str_eq id j then some target else state ns j))
    → (es : List EffectEdge) (k : ℕ) → remaining_of ns es ≡ ok k
    → (k' : ℕ) × (remaining_of ms es ≡ ok k')
      × (k' + left_out target (from_node id es) ≡ k + left_out previous (from_node id es))
unfolding from_node left_out keep remaining_of state
moved_count ns ms id previous target at moves [] k h = (k, h, ground arith)
moved_count ns ms id previous target at moves (e ∷ es) k h =
    let (s, rest, source, counted, same) = counted_step ns e es k h in
    let (rest', counted', balance) =
      moved_count ns ms id previous target at moves es rest counted in
    elim (Bool-cases (str_eq id e.from_node_id)) [
      | inl own ↦ (
        if is_succeeded target then rest' else suc rest',
        step_counted ms e es target rest' (moves e.from_node_id ∙ ground arith) counted',
        rw (from_step id e es, own)
            (own_balance previous target rest rest' (from_node id es) k balance (
              subst (λ x. (if is_succeeded x then rest else suc rest) ≡ k)
                (some_injective
                  (sym source ∙ ap (state ns) (sym ((eq_iff id e.from_node_id).0 own)) ∙ at))
                same)),
      )
      | inr other ↦ (
        if is_succeeded s then rest' else suc rest',
        step_counted ms e es s rest' (moves e.from_node_id ∙ ground arith) counted',
        rw (from_step id e es, other)
            (other_balance s previous target rest rest' (from_node id es) k balance same),
      )
    ]

-- No two edges of the forward order lead from one node to another.
unfoldable pub IsSimple : List EffectEdge → Type 0
IsSimple edges = (a b : String) → from_node a (predecessor_edges edges b) ≤ 1

-- The targets are the nodes that have such an edge.
pub targets_count :
    (id t : String) (edges : List EffectEdge)
    → mem t (targets_of (outgoing id edges))
      ≡ (if from_node id (predecessor_edges edges t) == 0 then false else true)
unfolding mem outgoing from_node keep predecessor_edges
targets_count id t [] = refl
targets_count id t (e ∷ es) =
    ground (arith, targets_count id t es, eq_iff e.to_node_id t, eq_iff t e.to_node_id)

-- What the loop over the targets does to a row.
pub counted_row_lem :
    (targets : List String) (success : Bool) (r s : ReadyNode)
    → counted_row targets success r ≡ ok s
    → (s.node_id ≡ r.node_id)
      × (s.unresolved_branches ≡ r.unresolved_branches)
      × (s.branch_rejected ≡ r.branch_rejected)
      × (s.remaining_predecessors + (if mem r.node_id targets && success then 1 else 0)
          ≡ r.remaining_predecessors + (if mem r.node_id targets && not success then 1 else 0))
unfolding counted_row
counted_row_lem targets success r s h = elim (Bool-cases (mem r.node_id targets)) [
  | inl target ↦ (ground arith, ground arith, ground arith, ground arith)
  | inr other ↦ (ground arith, ground arith, ground arith, ground arith)
]

-- The count of a row is right again.
pub right_again :
    (previous target : EffectNodeStatus) (c old new k : ℕ) (is_target : Bool)
    → c ≤ 1
    → is_target ≡ (
        if differs (is_succeeded previous) (is_succeeded target)
        then (if c == 0 then false else true)
        else false)
    → k + left_out target c ≡ old + left_out previous c
    → new + (if is_target && is_succeeded target then 1 else 0)
      ≡ old + (if is_target && not (is_succeeded target) then 1 else 0)
    → k ≡ new
unfolding left_out
right_again previous target c old new k is_target simple targets balance counted = ground arith
