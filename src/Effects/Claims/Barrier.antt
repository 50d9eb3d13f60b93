-- ===== src/Effects/Claims/Barrier.antt =====
-- Nodes are compensated in the reverse of the order in which they depend on one another.
use desk_pilot_agent.Base.{
  ℕ, zero, suc, ◌≤◌, ◌<◌, String, ◌≡◌, ◌∙◌, true, false, not, ◌&&◌, ◌||◌, some, List, [], ◌∷◌,
  length, keep, any_of, all_of, arith, Bool-cases, Option-cases, inl, inr,
}
use desk_pilot_agent.Base.Text.{str_eq, eq_iff, mem}
use desk_pilot_agent.Base.Text.Unique.{unique, mem-append}
use desk_pilot_agent.Base.Result.{ok, bind_ok, raise_if_ok}
use desk_pilot_agent.Tasks.Events.{Source}
use desk_pilot_agent.Effects.NodeStatus.{EffectNodeStatus, compensated, is_compensated}
use desk_pilot_agent.Effects.Leases.{ttl_valid}
use desk_pilot_agent.Effects.GraphStatus.{is_compensating_graph}
use desk_pilot_agent.Effects.Dag.{
  EffectNode, EffectDag, CompensationPlan, invalid_transition, value_invalid, find_node,
  ensure_effect_dag, assert_graph_lease,
}
use desk_pilot_agent.Effects.Reduce.{node_ids}
use desk_pilot_agent.Effects.Compensation.{is_empty, selected_nodes, follows, waves_of, find_plan}
use desk_pilot_agent.Effects.Compensation.Waves.{wave_number, flatten, plan_waves-Planned, nonempty}
use desk_pilot_agent.Effects.Claims.{
  CompensationClaim, wave_at, prior_ids, nodes_in, barrier_open, check_claim, claim_compensation,
}

number-le :
    (a : String) (ws : List (List String)) (k : ℕ) (w : List String)
    → wave_at ws k ≡ some w
    → mem a w ≡ true
    → wave_number a ws ≤ k
unfolding wave_at wave_number
number-le a [] k w h m = absurd (ground arith)
number-le a (v ∷ vs) zero w h m = ground arith
number-le a (v ∷ vs) (suc k) w h m = ground (arith, number-le a vs k w)

-- A planned node of an earlier wave is among those that are to be compensated before.
prior_of_number :
    (b : String) (ws : List (List String)) (k : ℕ)
    → mem b (flatten ws) ≡ true
    → wave_number b ws < k
    → mem b (prior_ids ws k) ≡ true
unfolding flatten wave_number prior_ids mem
prior_of_number b [] k m lt = absurd (ground arith)
prior_of_number b (w ∷ ws) zero m lt = elim lt [ ]
prior_of_number b (w ∷ ws) (suc k) m lt =
    ground
      (arith, prior_of_number b ws k, mem-append b w (flatten ws), mem-append b w (prior_ids ws k))

compensated_of : (s : EffectNodeStatus) → is_compensated s ≡ true → s ≡ compensated
compensated_of s h = ground arith

all_inside :
    (a : String) (ids w : List String)
    → mem a ids ≡ true
    → any_of (λ id. not (mem id w)) ids ≡ false
    → mem a w ≡ true
unfolding any_of mem
all_inside a [] w m h = cc
all_inside a (x ∷ xs) w m h = elim (Bool-cases (str_eq a x)) [
  | inl here ↦ let same : a ≡ x = (eq_iff a x).0 here in rw same (ground arith)
  | inr other ↦ all_inside a xs w (ground arith) (ground arith)
]

compensated_row :
    (b : String) (ids : List String) (ns : List EffectNode) (n : EffectNode)
    → mem b ids ≡ true
    → all_of (λ (m : EffectNode). is_compensated m.status) (nodes_in ids ns) ≡ true
    → find_node b ns ≡ some n
    → n.status ≡ compensated
unfolding nodes_in find_node keep all_of
compensated_row b ids [] n m all found = absurd (ground arith)
compensated_row b ids (x ∷ xs) n m all found = elim (Bool-cases (str_eq x.node_id b)) [
  | inl here ↦
      let same : x.node_id ≡ b = (eq_iff x.node_id b).0 here in
      let planned : mem x.node_id ids ≡ true = rw same m in ground (arith, compensated_of x.status)
  | inr other ↦ ground (arith, compensated_row b ids xs n m)
]

-- What a claim that succeeds has checked.
checked :
    (source : Source) (owner : String) (token at : ℕ) (d e : EffectDag) (c : CompensationClaim)
    (p : CompensationPlan)
    → claim_compensation source owner token at d c ≡ ok e
    → find_plan c.plan_id d.plans ≡ some p
    → check_claim c d p ≡ ok tt
unfolding claim_compensation
checked source owner token at d e c p h found =
    let (_, h1) = raise_if_ok (is_empty c.node_ids || not (unique c.node_ids)) value_invalid _ h in
    let (_, h2) = raise_if_ok (not (ttl_valid c.claim_ttl)) value_invalid _ h1 in
    let (_, _, h3) = bind_ok (ensure_effect_dag d.graph) _ h2 in
    let (_, h4) =
      raise_if_ok (not (is_compensating_graph d.graph.status)) invalid_transition _ h3 in
    let (_, _, h5) = bind_ok (assert_graph_lease d.graph owner token at) _ h4 in
    let (_, done, _) = bind_ok (check_claim c d p) _ (rw found at h5) in done

barrier_passed :
    (c : CompensationClaim) (d : EffectDag) (p : CompensationPlan) (a : String)
    → check_claim c d p ≡ ok tt
    → mem a c.node_ids ≡ true
    → (w : List String) × (wave_at p.waves c.wave_ordinal ≡ some w)
      × (mem a w ≡ true)
      × (is_empty (prior_ids p.waves c.wave_ordinal)
            || barrier_open (prior_ids p.waves c.wave_ordinal) d.nodes
          ≡ true)
unfolding check_claim
barrier_passed c d p a h m = elim (Option-cases (wave_at p.waves c.wave_ordinal)) [
  | inl missing ↦ absurd (ground arith)
  | inr (w, found) ↦
      let inside = rw (found, check_claim) at h in
      let prior : List String = prior_ids p.waves c.wave_ordinal in
      let (escaped, h1) =
        raise_if_ok (any_of (λ id. not (mem id w)) c.node_ids) invalid_transition _ inside in
      let (passed, _) =
        raise_if_ok (not (is_empty prior) && not (barrier_open prior d.nodes)) invalid_transition _
          h1 in
      (w, found, all_inside a c.node_ids w m escaped, ground arith)
]

-- A node is claimed for its compensation only after every node that depends on it has been
-- compensated: let the waves of a plan be those of the graph when it was planned, and let a claim
-- under this plan succeed later. Then of each claimed node, the row of every node of the plan that
-- an edge leads to from it is compensated when the claim is made.
pub claim_after_dependents :
    (source : Source) (owner : String) (token at : ℕ) (planned d e : EffectDag)
    (c : CompensationClaim) (p : CompensationPlan) (a b : String) (n : EffectNode)
    → waves_of planned ≡ ok p.waves
    → find_plan c.plan_id d.plans ≡ some p
    → claim_compensation source owner token at d c ≡ ok e
    → mem a c.node_ids ≡ true
    → follows planned.edges (node_ids (selected_nodes planned.nodes)) a b ≡ true
    → find_node b d.nodes ≡ some n
    → n.status ≡ compensated
unfolding waves_of follows barrier_open
claim_after_dependents source owner token at planned d e c p a b n made found h m f row =
    let ids = node_ids (selected_nodes planned.nodes) in
    let (members, _, order) =
      plan_waves-Planned (follows planned.edges ids) (length ids) ids p.waves made in
    let (w, here, inside, passed) =
      barrier_passed c d p a (checked source owner token at d e c p h found) m in
    let earlier = order a b (ground arith) (ground arith) f in
    let limit = number-le a p.waves c.wave_ordinal w here inside in
    let prior =
      prior_of_number b p.waves c.wave_ordinal (members b ∙ ground arith)
        (omega (arith, earlier, limit)) in
    compensated_row b (prior_ids p.waves c.wave_ordinal) d.nodes n prior
      (ground (arith, nonempty b (prior_ids p.waves c.wave_ordinal) prior)) row
