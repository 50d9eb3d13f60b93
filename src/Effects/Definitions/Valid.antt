-- ===== src/Effects/Definitions/Valid.antt =====
-- What `_validate_effect_dag` accepts.
use desk_pilot_agent.Base.{
  ℕ, zero, suc, ◌<◌, String, ◌≡◌, ◌↔◌, refl, ◌∙◌, true, not, ◌&&◌, ◌==◌, List, [], ◌∷◌, leb, length,
  keep, All, arith, Bool-cases, inl, inr,
}
use mathlib.Core.List.{reverse}
use desk_pilot_agent.Base.Text.{mem}
use desk_pilot_agent.Base.Text.Unique.{
  unique, Within, Within-of_length, length-le_of_Within, mem-reverse, mem-keep, unique-reverse,
  unique-keep,
}
use desk_pilot_agent.Base.Result.{ok, bind_ok, raise_if, raise_if_ok}
use desk_pilot_agent.Effects.Definitions.{
  NodeDefinition, Degrees, no_degrees, visited_count, node_keys, step_ids, max_nodes,
  add_definitions, validate_effect_dag, node_count, keys_repeated, steps_repeated, cyclic,
}
use desk_pilot_agent.Effects.Definitions.Edges.{Edges, linked, degree, count, degree_of_visited}
use desk_pilot_agent.Effects.Definitions.Search.{IsSearch, visit_all-IsSearch}
use desk_pilot_agent.Effects.Definitions.Accumulation.{
  IsNode, Adds, edges_of, add_definitions-Adds, definitions_accepted,
}
use desk_pilot_agent.Effects.Definitions.Ranking.{
  IsDag, Ranked, position, position-linked, Ranked-of_linked, linked_of_Ranked, known_ends,
}

length-node_keys : (ds : List NodeDefinition) → length (node_keys ds) ≡ length ds
unfolding node_keys
length-node_keys [] = refl
length-node_keys (d ∷ ds) = omega (arith, length-node_keys ds)

-- The search starts with the nodes that depend on nothing.
start-IsSearch :
    (keys : List String) (es : Edges) (indegree : String → ℕ)
    → unique keys ≡ true
    → ((v : String) → indegree v ≡ degree es [] v)
    → IsSearch keys es [] (reverse (keep (λ key. indegree key == 0) keys)) indegree []
unfolding mem unique count
start-IsSearch keys es indegree u h =
    let p = λ (key : String). indegree key == 0 in
    let members = λ (v : String). mem-reverse v (keep p keys) ∙ mem-keep p v keys in
    record {
      counted = λ v. omega (arith, h v);
      found = λ v k z. ground (arith, members v);
      settled = λ v m. ground (arith, members v);
      once = refl;
      queued_once = unique-reverse (keep p keys) (unique-keep p keys u);
      apart = λ v m. cc;
      ordered = tt;
      targets_known = λ v m. cc;
    }

-- The search counts visits that end with nothing ready.
abbrev Searched : List NodeDefinition → Degrees → Type 0
Searched ds s =
    (all : List String) × (left : String → ℕ) × IsSearch (node_keys ds) (edges_of ds) all [] left []
    × (visited_count ds s ≡ length all)

searched :
    (ds : List NodeDefinition) (s : Degrees)
    → unique (node_keys ds) ≡ true
    → All (IsNode (node_keys ds)) ds
    → Adds (edges_of ds) no_degrees s
    → Searched ds s
unfolding visited_count no_degrees
searched ds s u nodes adds =
    visit_all-IsSearch (node_keys ds) (edges_of ds)
      (λ p v l. (known_ends (node_keys ds) ds p v nodes l).1) (length ds) s.successors []
      (reverse (keep (λ key. s.indegree key == 0) (node_keys ds))) s.indegree 0 adds.successor_lists
      refl (omega (arith, length-node_keys ds))
      (start-IsSearch (node_keys ds) (edges_of ds) s.indegree u
        (λ v. omega (arith, adds.indegrees v)))

-- Of a graph with a ranking, every node is visited: by induction on a bound of its rank.
Ranked-visited :
    (ds : List NodeDefinition) (all : List String) (left rank : String → ℕ) (n : ℕ) (v : String)
    → All (IsNode (node_keys ds)) ds
    → Ranked ds rank
    → IsSearch (node_keys ds) (edges_of ds) all [] left []
    → rank v < n
    → mem v (node_keys ds) ≡ true
    → mem v all ≡ true
unfolding mem count
Ranked-visited ds all left rank zero v nodes ranked h lt m = elim lt [ ]
Ranked-visited ds all left rank (suc n) v nodes ranked h lt m =
    let before = λ (p : String) (l : linked (edges_of ds) p v ≡ true).
      Ranked-visited ds all left rank n p nodes ranked h
        (omega (arith, linked_of_Ranked ds rank p v ranked l))
        (known_ends (node_keys ds) ds p v nodes l).0 in
    ground (
      arith,
      h.found v m (omega (arith, h.counted v, degree_of_visited (edges_of ds) all v before)),
    )

validated :
    (ds : List NodeDefinition)
    → validate_effect_dag ds ≡ ok tt
    → (leb 1 (length ds) && leb (length ds) max_nodes ≡ true)
      × (unique (node_keys ds) ≡ true)
      × (unique (step_ids ds) ≡ true)
      × (s : Degrees) × (add_definitions (node_keys ds) ds no_degrees ≡ ok s)
      × (visited_count ds s ≡ length ds)
unfolding validate_effect_dag
validated ds h =
    let (c1, h1) =
      raise_if_ok (not (leb 1 (length ds) && leb (length ds) max_nodes)) node_count _ h in
    let (c2, h2) = raise_if_ok (not (unique (node_keys ds))) keys_repeated _ h1 in
    let (c3, h3) = raise_if_ok (not (unique (step_ids ds))) steps_repeated _ h2 in
    let (s, loop, last) =
      bind_ok (add_definitions (node_keys ds) ds no_degrees)
        (λ (s : Degrees). raise_if (not (visited_count ds s == length ds)) cyclic) h3 in
    (
      ground arith,
      ground arith,
      ground arith,
      s,
      loop,
      elim (Bool-cases (visited_count ds s == length ds)) [
        | inl same ↦ ground arith
        | inr other ↦ ground arith
      ],
    )

IsDag_of_validated : (ds : List NodeDefinition) → validate_effect_dag ds ≡ ok tt → IsDag ds
unfolding no_degrees
IsDag_of_validated ds h =
    let (size, keys, steps, s, loop, visits) = validated ds h in
    let (nodes, adds, total) =
      add_definitions-Adds (node_keys ds) ds no_degrees s (omega arith) loop in
    let (all, left, search, counted) = searched ds s keys nodes adds in
    let known : Within all (node_keys ds) = λ c m. (search.settled c (ground arith)).0 in
    let every : Within (node_keys ds) all =
      Within-of_length all (node_keys ds) search.once known
        (omega (arith, length-node_keys ds, counted, visits)) in
    record {
      some_nodes = ground arith;
      few_nodes = ground arith;
      keys = keys;
      steps = steps;
      nodes = nodes;
      few_dependencies = omega (arith, total);
      rank = λ v. position v all;
      ranked =
          Ranked-of_linked ds (λ v. position v all)
            (λ p v l m.
              position-linked (edges_of ds) all p v search.once search.ordered (every v m) l);
    }

validated_of_IsDag : (ds : List NodeDefinition) → IsDag ds → validate_effect_dag ds ≡ ok tt
unfolding validate_effect_dag no_degrees
validated_of_IsDag ds d =
    let (s, loop) =
      definitions_accepted (node_keys ds) ds no_degrees d.nodes
        (omega (arith, d.few_dependencies)) in
    let (_, adds, _) = add_definitions-Adds (node_keys ds) ds no_degrees s (omega arith) loop in
    let (all, left, search, counted) = searched ds s d.keys d.nodes adds in
    let known : Within all (node_keys ds) = λ c m. (search.settled c (ground arith)).0 in
    let every : Within (node_keys ds) all = λ v.
      Ranked-visited ds all left d.rank (suc (d.rank v)) v d.nodes d.ranked search (omega arith) in
    let visits : visited_count ds s ≡ length ds = omega (
      arith,
      counted,
      length-node_keys ds,
      length-le_of_Within all (node_keys ds) search.once known,
      length-le_of_Within (node_keys ds) all d.keys every,
    ) in
    let size : (leb 1 (length ds) && leb (length ds) max_nodes) ≡ true =
      ground (arith, d.some_nodes, d.few_nodes) in
    let same : (visited_count ds s == length ds) ≡ true = ground arith in
    rw (size, d.keys, d.steps, loop, same) refl

-- The validation of an effect DAG accepts a list of definitions exactly when there are 1 to 1,000 of
-- them, their keys and steps are distinct, each has at most 128 predecessors, which are distinct
-- nodes of the list other than itself, its conditions are distinct, there are at most 10,000
-- dependencies, and the nodes can be ranked so that each stands above all that it depends on.
pub validate_effect_dag_iff :
    (ds : List NodeDefinition) → (validate_effect_dag ds ≡ ok tt) ↔ IsDag ds
validate_effect_dag_iff ds = (IsDag_of_validated ds, validated_of_IsDag ds)
