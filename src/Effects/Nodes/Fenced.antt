-- ===== src/Effects/Nodes/Fenced.antt =====
-- Work on a node is done under its live claim only.
use desk_pilot_agent.Base.{
  ℕ, String, ◌≡◌, subst, ◌∙◌, ap, true, not, Option, none, some, List, is_some, if◌then◌else◌,
  arith, Option-cases, inl, inr,
}
use desk_pilot_agent.Base.Text.{str_eq, eq_iff}
use desk_pilot_agent.Base.Result.{ok, bind_ok, raise_if_ok, ok_injective}
use desk_pilot_agent.Tasks.Events.{Source}
use desk_pilot_agent.Effects.NodeStatus.{EffectNodeStatus, status_in}
use desk_pilot_agent.Effects.Leases.{holds_lease, owned_by, live_at}
use desk_pilot_agent.Effects.Dag.{
  EffectNode, EffectDag, invalid_transition, graph_fence_rejected, node_fence_rejected, find_node,
  get_node, ensure_effect_dag, NodeClaim, holds_claim, fence_mutation, change_node,
}
use desk_pilot_agent.Effects.Nodes.{
  NodeTransition, status_or, transition_payload, released_claim, transition_claimed,
}
use desk_pilot_agent.Effects.Reduce.Closure.{state}
use desk_pilot_agent.Effects.Reduce.Turns.{
  fence_mutation-state, find_node-id, state-change_other, transition-states,
}

-- A lease or claim with this owner and fence, that has not expired.
pub IsHeld : Option String → ℕ → Option ℕ → String → ℕ → ℕ → Type 0
IsHeld holder fence expires owner token at =
    (holder ≡ some owner) × (fence ≡ token) × (live_at expires at ≡ true)

got_node :
    (id : String) (ns : List EffectNode) (n : EffectNode)
    → get_node id ns ≡ ok n
    → find_node id ns ≡ some n
unfolding get_node
got_node id ns n h = elim (Option-cases (find_node id ns)) [
  | inl missing ↦ absurd (ground arith)
  | inr (m, found) ↦ found ∙ ground arith
]

owner_found : (o : Option String) (owner : String) → owned_by o owner ≡ true → o ≡ some owner
unfolding owned_by
owner_found none owner h = absurd (ground arith)
owner_found (some o) owner h = ap some ((eq_iff o owner).0 h)

-- The revisions are claimed only under both live leases.
fence_passed :
    (d e : EffectDag) (n : EffectNode) (owner claimer : String) (token fence at : ℕ)
    → fence_mutation d n owner token (some (claimer, fence)) at ≡ ok e
    → IsHeld d.graph.lease_owner_id d.graph.fencing_token d.graph.lease_expires_at owner token at
      × IsHeld n.claim_owner_id n.claim_fencing_token n.claim_expires_at claimer fence at
unfolding fence_mutation holds_lease holds_claim IsHeld
fence_passed d e n owner claimer token fence at h =
    let claim : NodeClaim = some (claimer, fence) in
    let (lease, h1) =
      raise_if_ok (not (holds_lease d.graph owner token at)) graph_fence_rejected _ h in
    let (held, _) = raise_if_ok (not (holds_claim n claim at)) node_fence_rejected _ h1 in
    (
      (owner_found d.graph.lease_owner_id owner (ground arith), ground arith, ground arith),
      (owner_found n.claim_owner_id claimer (ground arith), ground arith, ground arith),
    )

released_status :
    (q : NodeTransition) (n : EffectNode) → (released_claim q.target_status n).status ≡ n.status
unfolding released_claim
released_status q n = ground arith

released_id :
    (q : NodeTransition) (n : EffectNode) → (released_claim q.target_status n).node_id ≡ n.node_id
unfolding released_claim
released_id q n = ground arith

row_found :
    (id : String) (n : EffectNode) (j : String) (d : EffectDag) (now : Option EffectNodeStatus)
    (target : EffectNodeStatus)
    → find_node id d.nodes ≡ some n
    → n.node_id ≡ id
    → now ≡ state d.nodes j
    → (if str_eq n.node_id j then (if is_some now then some target else none) else now)
      ≡ (if str_eq id j then some target else state d.nodes j)
unfolding state
row_found id n j d now target found same kept = ground (arith, eq_iff id j, eq_iff n.node_id j)

-- A node is moved only while the caller holds the live lease of the graph and, with its own owner
-- and fence, the live claim of the node, and only from a state that it expects. The node then has
-- the target state, and no other node changes its own.
pub transition_claimed-fenced :
    (source : Source) (d e : EffectDag) (q : NodeTransition) (owner : String) (token at : ℕ)
    → transition_claimed source d q owner token at ≡ ok e
    → (n : EffectNode) × (find_node q.node_id d.nodes ≡ some n)
      × IsHeld d.graph.lease_owner_id d.graph.fencing_token d.graph.lease_expires_at owner token at
      × IsHeld n.claim_owner_id n.claim_fencing_token n.claim_expires_at q.claim_owner_id
          q.node_fencing_token at
      × (status_in n.status q.expected_statuses ≡ true)
      × ((j : String)
          → state e.nodes j
            ≡ (if str_eq q.node_id j then some q.target_status else state d.nodes j))
unfolding transition_claimed
transition_claimed-fenced source d e q owner token at h =
    let claim : String × ℕ = (q.claim_owner_id, q.node_fencing_token) in
    let (n, got, h1) = bind_ok (get_node q.node_id d.nodes) _ h in
    let (_, _, h2) = bind_ok (ensure_effect_dag d.graph) _ h1 in
    let (m, fenced, h3) = bind_ok (fence_mutation d n owner token (some claim) at) _ h2 in
    let (expected, h4) =
      raise_if_ok (not (status_in n.status q.expected_statuses)) invalid_transition _ h3 in
    let found = got_node q.node_id d.nodes n got in
    let (lease, held) =
      fence_passed d m n owner q.claim_owner_id token q.node_fencing_token at fenced in
    let (states, _) = fence_mutation-state d m n owner token (some claim) at fenced in
    let freed : EffectDag = record m {
      nodes = change_node (released_claim q.target_status) n.node_id m.nodes;
    } in
    let kept = λ (j : String).
      state-change_other (released_claim q.target_status) n.node_id j m.nodes (released_id q)
        (released_status q)
      ∙ states j in
    let id = find_node-id q.node_id d.nodes n found in
    (
      n,
      found,
      lease,
      held,
      ground arith,
      λ j.
          subst
            (λ (x : EffectDag).
              state x.nodes j
              ≡ (if str_eq q.node_id j then some q.target_status else state d.nodes j))
            (ok_injective h4)
            (transition-states source freed n q.event_type
                (transition_payload d.graph n q (status_or q.graph_status d.graph.status))
                q.transition_kind q.target_status (status_or q.graph_status d.graph.status) j
              ∙ row_found q.node_id n j d (state freed.nodes j) q.target_status found id (kept j)),
    )
