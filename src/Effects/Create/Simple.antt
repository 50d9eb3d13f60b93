-- ===== src/Effects/Create/Simple.antt =====
-- The DAGs that `create_effect_dag` makes have one forward edge at most from a node to another.
use desk_pilot_agent.Base.{
  ℕ, ◌+◌, ◌≤◌, ◌==◌, String, ◌≡◌, refl, sym, subst, ap, ◌∙◌, true, false, none, List, [], ◌∷◌, ◌++◌,
  map, All, keep, length, if◌then◌else◌, arith, Bool-cases, inl, inr,
}
use desk_pilot_agent.Base.Text.{str_eq, eq_iff, eq_refl, mem}
use desk_pilot_agent.Base.Text.Unique.{unique}
use desk_pilot_agent.Base.Result.{ok}
use desk_pilot_agent.Tasks.Events.{Task, Source}
use desk_pilot_agent.Effects.Definitions.{
  NodeDefinition, BranchCondition, node_keys, all_predecessors, conditional_predecessors,
}
use desk_pilot_agent.Effects.Definitions.Accumulation.{IsNode}
use desk_pilot_agent.Effects.Definitions.Ranking.{mem_of_All}
use desk_pilot_agent.Effects.Dag.{EffectEdge, EffectDag}
use desk_pilot_agent.Effects.Reduce.{predecessor_edges}
use desk_pilot_agent.Effects.Ready.Recount.{from_node, IsSimple}
use desk_pilot_agent.Effects.Create.{
  effect_graph_id, plain_edge, condition_edge, dependency_edges, condition_edges, created_edges,
  create_effect_dag,
}
use desk_pilot_agent.Effects.Create.Compensable.{
  leads, id_of, ids_of, rank_of_id, rank_of_id-node, created,
}

-- The number of forward edges from one node to another.
links : String → String → List EffectEdge → ℕ
links a b es = length (keep (leads a b) es)

links-from_node :
    (a b : String) (es : List EffectEdge) → from_node a (predecessor_edges es b) ≡ links a b es
unfolding from_node predecessor_edges keep links
links-from_node a b [] = refl
links-from_node a b (e ∷ es) = ground (arith, links-from_node a b es)

links-append :
    (a b : String) (es fs : List EffectEdge) → links a b (es ++ fs) ≡ links a b es + links a b fs
unfolding links keep
links-append a b [] fs = omega arith
links-append a b (e ∷ es) fs = ground (arith, links-append a b es fs)

module _ (sha256 : String → String) (graph_id : String) where
  -- How many of some keys give an ID.
  hits : String → List String → ℕ
  hits a keys = length (keep (λ p. str_eq (id_of sha256 graph_id p) a) keys)

  hits-append : (a : String) (ks ls : List String) → hits a (ks ++ ls) ≡ hits a ks + hits a ls
  unfolding hits keep
  hits-append a [] ls = omega arith
  hits-append a (k ∷ ks) ls = ground (arith, hits-append a ks ls)

  dependency_links :
      (current a b : String) (keys : List String)
      → links a b (dependency_edges sha256 graph_id current keys)
        ≡ (if str_eq current b then hits a keys else 0)
  unfolding links hits keep dependency_edges plain_edge
  dependency_links current a b [] = ground arith
  dependency_links current a b (k ∷ ks) = ground (arith, dependency_links current a b ks)

  condition_links :
      (current a b : String) (cs : List BranchCondition)
      → links a b (condition_edges sha256 graph_id current cs) ≡ (
          if str_eq current b
          then hits a (map (λ (c : BranchCondition). c.predecessor_key) cs)
          else 0)
  unfolding links hits keep condition_edges condition_edge plain_edge
  condition_links current a b [] = ground arith
  condition_links current a b (c ∷ cs) = ground (arith, condition_links current a b cs)

  created_links :
      (a b : String) (d : NodeDefinition) (ds : List NodeDefinition)
      → links a b (created_edges sha256 graph_id (d ∷ ds))
        ≡ (if str_eq (id_of sha256 graph_id d.node_key) b then hits a (all_predecessors d) else 0)
          + links a b (created_edges sha256 graph_id ds)
  unfolding created_edges
  created_links a b d ds =
      let current = id_of sha256 graph_id d.node_key in
      let own = dependency_edges sha256 graph_id current d.depends_on in
      let gated = condition_edges sha256 graph_id current d.conditional_depends_on in
      let later = created_edges sha256 graph_id ds in
      let preds = conditional_predecessors d in
      ground (
        arith,
        links-append a b (own ++ gated) later,
        links-append a b own gated,
        dependency_links current a b d.depends_on,
        condition_links current a b d.conditional_depends_on,
        hits-append a d.depends_on preds,
      )

  -- Nothing leads to a node that is not defined.
  no_links :
      (a b : String) (ds : List NodeDefinition)
      → mem b (ids_of sha256 graph_id ds) ≡ false
      → links a b (created_edges sha256 graph_id ds) ≡ 0
  unfolding mem links keep created_edges
  no_links a b [] m = refl
  no_links a b (d ∷ ds) m =
      created_links a b d ds
      ∙ ground (
        arith,
        no_links a b ds,
        eq_iff (id_of sha256 graph_id d.node_key) b,
        eq_iff b (id_of sha256 graph_id d.node_key),
      )

  -- Known keys have different IDs.
  ids_injective :
      (ds : List NodeDefinition) (p q : String)
      → unique (ids_of sha256 graph_id ds) ≡ true
      → mem p (node_keys ds) ≡ true
      → mem q (node_keys ds) ≡ true
      → id_of sha256 graph_id p ≡ id_of sha256 graph_id q
      → p ≡ q
  ids_injective ds p q u m n same =
      let is_p : String → ℕ = λ v. if str_eq p v then 1 else 0 in
      let at_p = rank_of_id-node sha256 graph_id ds is_p p u m in
      let at_q = rank_of_id-node sha256 graph_id ds is_p q u n in
      let equal : (if str_eq p p then 1 else 0) ≡ (if str_eq p q then 1 else 0) =
        sym at_p ∙ ap (rank_of_id sha256 graph_id ds is_p) same ∙ at_q in
      (eq_iff p q).0 (ground (arith, eq_refl p))

  -- A key that gives the ID.
  hit_key :
      (a : String) (keys : List String)
      → 1 ≤ hits a keys
      → (p : String) × (mem p keys ≡ true) × (id_of sha256 graph_id p ≡ a)
  unfolding hits keep mem
  hit_key a [] h = absurd (omega arith)
  hit_key a (k ∷ ks) h = elim (Bool-cases (str_eq (id_of sha256 graph_id k) a)) [
    | inl here ↦ (k, ground (arith, eq_refl k), (eq_iff (id_of sha256 graph_id k) a).0 here)
    | inr later ↦
        let (p, known, same) = hit_key a ks (ground arith) in (p, ground (arith, known), same)
  ]

  few_hits :
      (a : String) (ds : List NodeDefinition) (keys : List String)
      → unique (ids_of sha256 graph_id ds) ≡ true
      → unique keys ≡ true
      → ((p : String) → mem p keys ≡ true → mem p (node_keys ds) ≡ true)
      → hits a keys ≤ 1
  unfolding hits keep unique mem
  few_hits a ds [] u w known = omega arith
  few_hits a ds (k ∷ ks) u w known =
      let rest = few_hits a ds ks u (ground arith) (λ p m. known p (ground arith)) in
      elim (Bool-cases (str_eq (id_of sha256 graph_id k) a)) [
        | inl here ↦ elim (Bool-cases (hits a ks == 0)) [
          | inl none_left ↦ ground arith
          | inr another ↦
              let (p, m, same) = hit_key a ks (ground arith) in
              let equal : p ≡ k =
                ids_injective ds p k u (known p (ground arith))
                  (known k (ground (arith, eq_refl k)))
                  (same ∙ sym ((eq_iff (id_of sha256 graph_id k) a).0 here)) in
              let again : mem k ks ≡ true = subst (λ x. mem x ks ≡ true) equal m in
              absurd (ground arith)
        ]
        | inr other ↦ ground arith
      ]

  -- One forward edge at most.
  few_links :
      (a b : String) (all ds : List NodeDefinition)
      → unique (ids_of sha256 graph_id all) ≡ true
      → unique (ids_of sha256 graph_id ds) ≡ true
      → All (IsNode (node_keys all)) ds
      → links a b (created_edges sha256 graph_id ds) ≤ 1
  unfolding links keep created_edges unique
  few_links a b all [] u w nodes = omega arith
  few_links a b all (d ∷ ds) u w nodes =
      let current = id_of sha256 graph_id d.node_key in
      let preds = all_predecessors d in
      let own = few_hits a all preds u nodes.0.predecessors (λ p m.
        (mem_of_All (λ (q : String). (mem q (node_keys all) ≡ true) × (str_eq q d.node_key ≡ false))
          preds p nodes.0.known m).0) in
      let step = created_links a b d ds in
      elim (Bool-cases (str_eq current b)) [
        | inl here ↦
            let gone = no_links a b ds (ground (arith, (eq_iff current b).0 here)) in
            rw step (ground arith)
        | inr other ↦
            let rest = few_links a b all ds u (ground arith) nodes.1 in rw step (ground arith)
      ]

-- The edges of a DAG that was created.
pub create_effect_dag-IsSimple :
    (sha256 : String → String) (source : Source) (task : Task) (ds : List NodeDefinition) (now : ℕ)
    (d : EffectDag)
    → create_effect_dag sha256 source task none ds now ≡ ok d
    → IsSimple d.edges
unfolding IsSimple
create_effect_dag-IsSimple sha256 source task ds now d h a b =
    let (dag, edges, distinct) = created sha256 source task ds now d h in
    rw (links-from_node a b d.edges, edges)
      (few_links sha256 (effect_graph_id sha256 task.task_id) a b ds ds distinct distinct dag.nodes)
