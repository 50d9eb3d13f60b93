-- ===== src/Effects/Create/Compensable.antt =====
-- The DAGs that `create_effect_dag` makes can be compensated: their edges have no cycle.
use desk_pilot_agent.Base.{
  ℕ, ◌+◌, String, ◌≡◌, refl, sym, subst, ap, ◌∙◌, Bool, true, not, ◌&&◌, ◌||◌, none, List, [], ◌∷◌,
  ◌++◌, map, length, any_of, any_of-append, if◌then◌else◌, arith, Bool-cases, inl, inr,
}
use desk_pilot_agent.Base.Text.{str_eq, eq_iff, eq_refl, mem}
use desk_pilot_agent.Base.Text.Unique.{unique, mem-append}
use desk_pilot_agent.Base.Result.{Result, ok, err, bind_ok, raise_if_ok, ok_injective}
use desk_pilot_agent.Tasks.Events.{Task, Source}
use desk_pilot_agent.Effects.Definitions.{
  NodeDefinition, BranchCondition, node_keys, all_predecessors, conditional_predecessors, DagError,
  validate_effect_dag,
}
use desk_pilot_agent.Effects.Definitions.Edges.{linked}
use desk_pilot_agent.Effects.Definitions.Accumulation.{edges_of}
use desk_pilot_agent.Effects.Definitions.Ranking.{IsDag, linked_node, linked_of_Ranked, known_ends}
use desk_pilot_agent.Effects.Definitions.Valid.{validate_effect_dag_iff}
use desk_pilot_agent.Effects.Dag.{EffectEdge, EffectDag, key_error}
use desk_pilot_agent.Effects.Reduce.{is_forward, node_ids}
use desk_pilot_agent.Effects.Compensation.{selected_nodes, follows, waves_of}
use desk_pilot_agent.Effects.Compensation.Waves.{plan_exists}
use desk_pilot_agent.Effects.Create.{
  effect_graph_id, effect_node_id, plain_edge, condition_edge, dependency_edges, condition_edges,
  created_edges, created_nodes, created_dag, as_definition_error, create_effect_dag,
}

-- A forward edge from `a` to `b`.
abbrev pub leads : String → String → EffectEdge → Bool
leads a b e = is_forward e.kind && str_eq e.from_node_id a && str_eq e.to_node_id b

module _ (sha256 : String → String) (graph_id : String) where
  abbrev pub id_of : String → String
  id_of = effect_node_id sha256 graph_id

  dependency_leads :
      (current a b : String) (keys : List String)
      → any_of (leads a b) (dependency_edges sha256 graph_id current keys) ≡ true
      → (p : String) × (mem p keys ≡ true) × (id_of p ≡ a) × (current ≡ b)
  unfolding any_of dependency_edges plain_edge mem
  dependency_leads current a b [] h = absurd (ground arith)
  dependency_leads current a b (k ∷ ks) h =
      elim (Bool-cases (str_eq (id_of k) a && str_eq current b)) [
        | inl here ↦ (
          k,
          ground (arith, eq_refl k),
          ground (arith, eq_iff (id_of k) a),
          ground (arith, eq_iff current b),
        )
        | inr later ↦
            let (p, known, from, to) = dependency_leads current a b ks (ground arith) in
            (p, ground (arith, known), from, to)
      ]

  condition_leads :
      (current a b : String) (cs : List BranchCondition)
      → any_of (leads a b) (condition_edges sha256 graph_id current cs) ≡ true
      → (p : String) × (mem p (map (λ (c : BranchCondition). c.predecessor_key) cs) ≡ true)
        × (id_of p ≡ a)
        × (current ≡ b)
  unfolding any_of condition_edges condition_edge plain_edge mem
  condition_leads current a b [] h = absurd (ground arith)
  condition_leads current a b (c ∷ cs) h =
      elim (Bool-cases (str_eq (id_of c.predecessor_key) a && str_eq current b)) [
        | inl here ↦ (
          c.predecessor_key,
          ground (arith, eq_refl c.predecessor_key),
          ground (arith, eq_iff (id_of c.predecessor_key) a),
          ground (arith, eq_iff current b),
        )
        | inr later ↦
            let (p, known, from, to) = condition_leads current a b cs (ground arith) in
            (p, ground (arith, known), from, to)
      ]

  -- A created edge stands for a dependency of the definitions.
  abbrev Stands : List NodeDefinition → String → String → Type 0
  Stands ds a b =
      (p : String) × (v : String) × (linked (edges_of ds) p v ≡ true)
      × (id_of p ≡ a)
      × (id_of v ≡ b)

  created_leads :
      (ds : List NodeDefinition) (a b : String)
      → any_of (leads a b) (created_edges sha256 graph_id ds) ≡ true
      → Stands ds a b
  unfolding created_edges any_of
  created_leads [] a b h = absurd (ground arith)
  created_leads (d ∷ ds) a b h =
      let own = dependency_edges sha256 graph_id (id_of d.node_key) d.depends_on in
      let gated = condition_edges sha256 graph_id (id_of d.node_key) d.conditional_depends_on in
      let later = created_edges sha256 graph_id ds in
      let parts : (any_of (leads a b) own || any_of (leads a b) gated || any_of (leads a b) later)
          ≡ true =
        ground (
          arith,
          any_of-append (leads a b) (own ++ gated) later,
          any_of-append (leads a b) own gated,
        ) in
      let own_edge = λ (p : String) (k : mem p (all_predecessors d) ≡ true).
        let e : linked (edges_of (d ∷ ds)) p d.node_key ≡ true =
          linked_node d ds p d.node_key ∙ rw (k, eq_refl d.node_key) refl in
        e in
      elim (Bool-cases (any_of (leads a b) own)) [
        | inl first ↦
            let (p, known, from, to) = dependency_leads (id_of d.node_key) a b d.depends_on first in
            (
              p,
              d.node_key,
              own_edge p (mem-append p d.depends_on (conditional_predecessors d) ∙ rw known refl),
              from,
              to,
            )
        | inr other ↦ elim (Bool-cases (any_of (leads a b) gated)) [
          | inl second ↦
              let (p, known, from, to) =
                condition_leads (id_of d.node_key) a b d.conditional_depends_on second in
              (
                p,
                d.node_key,
                own_edge p (
                    mem-append p d.depends_on (conditional_predecessors d) ∙ ground (arith, known)),
                from,
                to,
              )
          | inr another ↦
              let (p, v, link, from, to) = created_leads ds a b (ground arith) in
              (p, v, linked_node d ds p v ∙ ground (arith, link), from, to)
        ]
      ]

  -- The IDs of the nodes, and ranks of IDs.
  abbrev pub ids_of : List NodeDefinition → List String
  ids_of = map (λ (d : NodeDefinition). id_of d.node_key)

  created_ids :
      (seq now ordinal : ℕ) (ds : List NodeDefinition)
      → node_ids (created_nodes sha256 graph_id seq now ordinal ds) ≡ ids_of ds
  unfolding created_nodes
  created_ids seq now ordinal [] = refl
  created_ids seq now ordinal (d ∷ ds) =
      ap (◌∷◌ (id_of d.node_key)) (created_ids seq now (ordinal + 1) ds)

  mem-ids :
      (v : String) (ds : List NodeDefinition)
      → mem v (node_keys ds) ≡ true
      → mem (id_of v) (ids_of ds) ≡ true
  unfolding mem node_keys
  mem-ids v [] m = cc
  mem-ids v (d ∷ ds) m = elim (Bool-cases (str_eq v d.node_key)) [
    | inl here ↦
        let same : v ≡ d.node_key = (eq_iff v d.node_key).0 here in
        rw same (ground (arith, eq_refl (id_of d.node_key)))
    | inr other ↦ ground (arith, mem-ids v ds)
  ]

  pub rank_of_id : List NodeDefinition → (String → ℕ) → String → ℕ
  rank_of_id [] rank id = 0
  rank_of_id (d ∷ ds) rank id =
      let rest = rank_of_id ds rank id in
      if str_eq (id_of d.node_key) id then rank d.node_key else rest

  pub rank_of_id-node :
      (ds : List NodeDefinition) (rank : String → ℕ) (v : String)
      → unique (ids_of ds) ≡ true
      → mem v (node_keys ds) ≡ true
      → rank_of_id ds rank (id_of v) ≡ rank v
  unfolding rank_of_id unique mem node_keys
  rank_of_id-node [] rank v u m = cc
  rank_of_id-node (d ∷ ds) rank v u m = elim (Bool-cases (str_eq v d.node_key)) [
    | inl here ↦
        let same : v ≡ d.node_key = (eq_iff v d.node_key).0 here in
        rw same (ground (arith, eq_refl (id_of d.node_key)))
    | inr other ↦
        ground (arith, rank_of_id-node ds rank v, mem-ids v ds, eq_iff (id_of d.node_key) (id_of v))
  ]

created_dag_ids :
    (sha256 : String → String) (source : Source) (task : Task) (ds : List NodeDefinition) (now : ℕ)
    → node_ids (created_dag sha256 source task ds now).nodes
      ≡ ids_of sha256 (effect_graph_id sha256 task.task_id) ds
unfolding created_dag
created_dag_ids sha256 source task ds now =
    created_ids sha256 (effect_graph_id sha256 task.task_id) _ now 0 ds

validation_ok :
    (r : Result DagError (Unit {0})) {a : Unit {0}} → as_definition_error r ≡ ok a → r ≡ ok tt
validation_ok (ok a) h = refl
validation_ok (err e) h = cc

-- The DAG that a creation makes, and its definitions.
pub created :
    (sha256 : String → String) (source : Source) (task : Task) (ds : List NodeDefinition) (now : ℕ)
    (d : EffectDag)
    → create_effect_dag sha256 source task none ds now ≡ ok d
    → IsDag ds
      × (d.edges ≡ created_edges sha256 (effect_graph_id sha256 task.task_id) ds)
      × (unique (ids_of sha256 (effect_graph_id sha256 task.task_id) ds) ≡ true)
unfolding create_effect_dag created_dag
created sha256 source task ds now d h =
    let (_, valid, h1) = bind_ok (as_definition_error (validate_effect_dag ds)) _ h in
    let graph_id = effect_graph_id sha256 task.task_id in
    let rows = created_dag sha256 source task ds now in
    let (distinct, made) = raise_if_ok (not (unique (node_ids rows.nodes))) key_error _ h1 in
    (
      (validate_effect_dag_iff ds).0 (validation_ok (validate_effect_dag ds) valid),
      ap (λ (x : EffectDag). x.edges) (sym (ok_injective made)),
      subst (λ (ids : List String). unique ids ≡ true) (created_dag_ids sha256 source task ds now)
          (ground (arith, distinct)),
    )

-- Of a DAG that was created, whatever became of its nodes, the compensation can be planned: the
-- edges of its definitions hold no cycle, so that the planning never gives up.
pub created_dag_plans :
    (sha256 : String → String) (source : Source) (task : Task) (ds : List NodeDefinition) (now : ℕ)
    (d e : EffectDag)
    → create_effect_dag sha256 source task none ds now ≡ ok d
    → e.edges ≡ d.edges
    → (waves : List (List String)) × (waves_of e ≡ ok waves)
unfolding waves_of follows
created_dag_plans sha256 source task ds now d e h same =
    let graph_id = effect_graph_id sha256 task.task_id in
    let (dag, edges, distinct) = created sha256 source task ds now d h in
    let ids = node_ids (selected_nodes e.nodes) in
    plan_exists (follows e.edges ids) (rank_of_id sha256 graph_id ds dag.rank) (length ids) ids
      (λ a b m f.
        let edge : any_of (leads a b) e.edges ≡ true = ground arith in
        let (p, v, link, from, to) =
          created_leads sha256 graph_id ds a b (rw (same ∙ edges) at edge) in
        let ends = known_ends (node_keys ds) ds p v dag.nodes link in
        let below = linked_of_Ranked ds dag.rank p v dag.ranked link in
        rw (← from, ← to)
          (omega (
            arith,
            below,
            rank_of_id-node sha256 graph_id ds dag.rank p distinct ends.0,
            rank_of_id-node sha256 graph_id ds dag.rank v distinct ends.1,
          )))
      (omega arith)
