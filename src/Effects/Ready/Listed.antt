-- ===== src/Effects/Ready/Listed.antt =====
-- The projection of the ready nodes against `_build_effect_ready_set`, which lists them from the rows
-- of the graph.
use desk_pilot_agent.Base.{
  ℕ, suc, ◌==◌, String, ◌≡◌, sym, subst, ap, Bool, true, false, not, ◌&&◌, ◌||◌, Option, none, some,
  List, [], ◌∷◌, All, is_some, if◌then◌else◌, arith, Option-cases, Bool-cases, inl, inr,
}
use desk_pilot_agent.Base.Text.{str_eq, eq_iff, opt_eq}
use desk_pilot_agent.Base.Json.{Hashing}
use desk_pilot_agent.Base.Result.{Result, ok, map_result_ok}
use desk_pilot_agent.Tasks.Events.{Task, Source}
use desk_pilot_agent.Effects.Definitions.{NodeDefinition}
use desk_pilot_agent.Effects.Create.{create_effect_dag}
use desk_pilot_agent.Effects.Create.Simple.{create_effect_dag-IsSimple}
use desk_pilot_agent.Effects.NodeStatus.{is_pending, is_active, is_succeeded}
use desk_pilot_agent.Effects.GraphStatus.{is_active_graph}
use desk_pilot_agent.Effects.Leases.{no_lease}
use desk_pilot_agent.Effects.Dag.{
  EffectNode, EffectEdge, BranchDecision, EffectDag, EffectError, find_node,
}
use desk_pilot_agent.Effects.Decisions.{decided}
use desk_pilot_agent.Effects.Reduce.{predecessor_edges, conditional_edges}
use desk_pilot_agent.Effects.Ready.{
  find_row, ReadyNode, Projection, membership, count_branch, remaining_of, branches_of,
}
use desk_pilot_agent.Effects.Ready.ReadySet.{branch_selected, has_unfinished, is_ready}
use desk_pilot_agent.Effects.Ready.Counters.{Counts}
use desk_pilot_agent.Effects.Ready.Recount.{some_injective, IsSimple}
use desk_pilot_agent.Effects.Ready.Resolved.{branch_step}
use desk_pilot_agent.Effects.Ready.Reached.{Reached, reached}

-- The counters answer the questions that the list of ready nodes asks.
counted_unfinished :
    (ns : List EffectNode) (es : List EffectEdge) (k : ℕ)
    → remaining_of ns es ≡ ok k
    → has_unfinished ns es ≡ ok (not (k == 0))
unfolding remaining_of has_unfinished
counted_unfinished ns [] k h = ground arith
counted_unfinished ns (e ∷ es) k h = elim (Option-cases (find_node e.from_node_id ns)) [
  | inl missing ↦ absurd (ground arith)
  | inr (n, found) ↦
      let (rest, counted, same) =
        map_result_ok (λ (m : ℕ). if is_succeeded n.status then m else suc m) (remaining_of ns es)
          (rw (remaining_of, found) at h) in
      rw (has_unfinished, found, counted_unfinished ns es rest counted) (ap ok (ground arith))
]

selected_branch :
    (o expected : Option String) (v u : ℕ) (c b : Bool)
    → is_some expected ≡ true
    → count_branch o expected (v, c) ≡ (u, b)
    → (let r : Result EffectError Bool =
          if opt_eq o expected then ok (v == 0 && not c) else ok false in
        r ≡ ok (u == 0 && not b))
unfolding opt_eq
selected_branch o none v u c b there h = cc
selected_branch none (some x) v u c b there h = ground arith
selected_branch (some y) (some x) v u c b there h = ground arith

counted_selected :
    (ds : List BranchDecision) (es : List EffectEdge) (u : ℕ) (b : Bool)
    → branches_of ds es ≡ ok (u, b)
    → branch_selected ds es ≡ ok (u == 0 && not b)
unfolding branch_selected branches_of
counted_selected ds [] u b h = ground arith
counted_selected ds (e ∷ es) u b h =
    let (key, (v, c), found, there, counted, same) = branch_step ds e es (u, b) h in
    rw (branch_selected, found, there, counted_selected ds es v c counted)
      (selected_branch (decided ds e.from_node_id key) e.expected_outcome v u c b there same)

listed :
    (active uncancelled waiting free finished settled kept : Bool)
    → (let r : Result EffectError Bool =
          if not (active && uncancelled) || not (waiting && free)
          then ok false
          else (if not finished then ok false else ok (settled && kept)) in
        r ≡ ok (active && uncancelled && (kept && finished && settled && waiting && free)))
listed active uncancelled waiting free finished settled kept = ground arith

row_ready :
    (d : EffectDag) (at : ℕ) (r : ReadyNode) (n : EffectNode)
    → Counts d r
    → n.node_id ≡ r.node_id
    → is_ready d at n
      ≡ ok (
          is_active_graph d.graph.status
          && not (is_some d.graph.cancel_requested_at)
          && membership n r.remaining_predecessors r.unresolved_branches r.branch_rejected at)
unfolding is_ready membership
row_ready d at r n c same =
    let unfinished =
      counted_unfinished d.nodes (predecessor_edges d.edges r.node_id) r.remaining_predecessors
        c.remaining in
    let selected =
      counted_selected d.decisions (conditional_edges d.edges r.node_id) r.unresolved_branches
        r.branch_rejected c.branches in
    rw (same, unfinished, selected)
      (listed (is_active_graph d.graph.status) (not (is_some d.graph.cancel_requested_at))
        (is_pending n.status || is_active n.status)
        (no_lease n.claim_owner_id n.claim_expires_at at) (r.remaining_predecessors == 0)
        (r.unresolved_branches == 0) (not r.branch_rejected))

counted_row_of :
    (d : EffectDag) (id : String) (rows : List ReadyNode) (r : ReadyNode)
    → All (Counts d) rows
    → find_row id rows ≡ some r
    → Counts d r × (r.node_id ≡ id)
unfolding find_row
counted_row_of d id [] r all found = cc
counted_row_of d id (s ∷ ss) r (one, all) found = elim (Bool-cases (str_eq s.node_id id)) [
  | inl here ↦
      let same : s ≡ r = some_injective (rw (find_row, here) at found) in
      subst (λ (x : ReadyNode). Counts d x × (x.node_id ≡ id)) same
        (one, (eq_iff s.node_id id).0 here)
  | inr later ↦ counted_row_of d id ss r all (rw (find_row, later) at found)
]

-- However the calls on a graph that was created went, the counters of the projection that was kept
-- along decide whether a node is ready, at any time, as the list of ready nodes is defined: a node
-- with a row is in the list exactly if the graph is active and no cancel was requested, the row is
-- not rejected and has nothing left to wait for, and the node is pending or active without a live
-- claim.
pub listed_ready :
    (h : Hashing) (source : Source) (sha256 : String → String) (task : Task)
    (ds : List NodeDefinition) (now : ℕ) (c d : EffectDag) (p : Projection) (at : ℕ)
    (n : EffectNode) (r : ReadyNode)
    → create_effect_dag sha256 source task none ds now ≡ ok c
    → d.edges ≡ c.edges
    → Reached h source d p
    → find_row n.node_id p.rows ≡ some r
    → is_ready d at n
      ≡ ok (
          is_active_graph d.graph.status
          && not (is_some d.graph.cancel_requested_at)
          && membership n r.remaining_predecessors r.unresolved_branches r.branch_rejected at)
listed_ready h source sha256 task ds now c d p at n r made same kept found =
    let simple =
      subst IsSimple (sym same) (create_effect_dag-IsSimple sha256 source task ds now c made) in
    let (counts, id) =
      counted_row_of d n.node_id p.rows r (reached h source d p kept simple).counts found in
    row_ready d at r n counts (sym id)
