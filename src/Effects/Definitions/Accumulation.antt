-- ===== src/Effects/Definitions/Accumulation.antt =====
-- The loop of `_validate_effect_dag` over the definitions: when it raises nothing, and what it
-- leaves in `indegree` and `successors`.
use desk_pilot_agent.Base.{
  ℕ, ◌+◌, ◌≤◌, String, ◌≡◌, refl, sym, subst, true, false, not, List, [], ◌∷◌, ◌++◌, ltb, length,
  All, arith, ltb→le,
}
use mathlib.Core.List.{append_assoc, append-nil}
use desk_pilot_agent.Base.Text.{str_eq, eq_iff, mem}
use desk_pilot_agent.Base.Text.Unique.{unique}
use desk_pilot_agent.Base.Result.{ok, bind_ok, raise_if_ok}
use desk_pilot_agent.Effects.Definitions.{
  missing_dependency, own_dependency, dependencies_repeated, conditions_repeated,
  predecessors_repeated, too_many_predecessors, too_many_dependencies, NodeDefinition, Degrees,
  updated, unique_conditions, all_predecessors, max_predecessors, max_dependencies,
  add_dependencies, add_definition, add_definitions,
}
use desk_pilot_agent.Effects.Definitions.Edges.{Edges, degree, targets}

-- The edges that lead to a node, and all edges of the definitions.
unfoldable pub edges_to : String → List String → Edges
edges_to key [] = []
edges_to key (d ∷ ds) = (d, key) ∷ edges_to key ds

unfoldable pub edges_of : List NodeDefinition → Edges
edges_of [] = []
edges_of (d ∷ ds) = edges_to d.node_key (all_predecessors d) ++ edges_of ds

unfoldable pub total_dependencies : List NodeDefinition → ℕ
total_dependencies [] = 0
total_dependencies (d ∷ ds) = length (all_predecessors d) + total_dependencies ds

degree-append :
    (es fs : Edges) (v : String) → degree (es ++ fs) [] v ≡ degree es [] v + degree fs [] v
unfolding degree mem
degree-append [] fs v = omega arith
degree-append ((a, b) ∷ es) fs v = ground (arith, degree-append es fs v)

targets-append : (es fs : Edges) (d : String) → targets (es ++ fs) d ≡ targets es d ++ targets fs d
unfolding targets
targets-append [] fs d = refl
targets-append ((a, b) ∷ es) fs d = ground (arith, targets-append es fs d)

-- The edges are added to the degrees.
pub record Adds (es : Edges) (s t : Degrees) : Type 0 where
  pub indegrees : (v : String) → t.indegree v ≡ s.indegree v + degree es [] v
  pub successor_lists : (d : String) → t.successors d ≡ s.successors d ++ targets es d

Adds-refl : (s : Degrees) → Adds [] s s
unfolding degree targets
Adds-refl s = record {
  indegrees = λ v. omega arith;
  successor_lists = λ d. sym (append-nil (s.successors d));
}

Adds-trans : (es fs : Edges) {s t u : Degrees} → Adds es s t → Adds fs t u → Adds (es ++ fs) s u
Adds-trans es fs {s} {t} {u} p q = record {
  indegrees = λ v. omega (arith, p.indegrees v, q.indegrees v, degree-append es fs v);
  successor_lists = λ d.
      rw (q.successor_lists d, p.successor_lists d, targets-append es fs d)
        (append_assoc (s.successors d) (targets es d) (targets fs d));
}

-- The dependencies of a node that the loop accepts.
abbrev pub Known : List String → String → List String → Type 0
Known keys key = All (λ (d : String). (mem d keys ≡ true) × (str_eq d key ≡ false))

-- The definition of a node that the loop accepts, the total of dependencies aside.
pub record IsNode (keys : List String) (d : NodeDefinition) : Type 0 where
  pub dependencies : unique d.depends_on ≡ true
  pub conditions : unique_conditions d.conditional_depends_on ≡ true
  pub predecessors : unique (all_predecessors d) ≡ true
  pub few : length (all_predecessors d) ≤ max_predecessors
  pub known : Known keys d.node_key (all_predecessors d)

Adds-dependency :
    (key d : String) (s : Degrees)
    → Adds ((d, key) ∷ []) s (record s {
      indegree = updated s.indegree key (s.indegree key + 1);
      successors = updated s.successors d (s.successors d ++ key ∷ []);
    })
unfolding updated degree targets mem
Adds-dependency key d s = record {
  indegrees = λ v. ground (arith, eq_iff key v);
  successor_lists = λ c. ground (arith, eq_iff d c, append-nil (s.successors c));
}

module _ (keys : List String) where
  add_dependencies-Adds :
      (key : String) (deps : List String) (s t : Degrees)
      → add_dependencies keys key deps s ≡ ok t
      → Known keys key deps
        × Adds (edges_to key deps) s t
        × (t.dependency_count ≡ s.dependency_count)
  unfolding add_dependencies edges_to
  add_dependencies-Adds key [] s t h =
      let same : s ≡ t = cc in (tt, subst (Adds [] s) same (Adds-refl s), ground arith)
  add_dependencies-Adds key (d ∷ ds) s t h =
      let (known, rest) = raise_if_ok (not (mem d keys)) missing_dependency _ h in
      let (other, loop) = raise_if_ok (str_eq d key) own_dependency _ rest in
      let (others, adds, count) = add_dependencies-Adds key ds _ t loop in
      (
        ((ground arith, other), others),
        Adds-trans ((d, key) ∷ []) (edges_to key ds) (Adds-dependency key d s) adds,
        count,
      )

  dependencies_accepted :
      (key : String) (deps : List String) (s : Degrees)
      → Known keys key deps
      → (t : Degrees) × (add_dependencies keys key deps s ≡ ok t)
  unfolding add_dependencies
  dependencies_accepted key [] s h = (s, refl)
  dependencies_accepted key (d ∷ ds) s h =
      rw (h.0.0, h.0.1)
        (dependencies_accepted key ds
          (record s {
            indegree = updated s.indegree key (s.indegree key + 1);
            successors = updated s.successors d (s.successors d ++ key ∷ []);
          })
          h.1)

  add_definition-Adds :
      (d : NodeDefinition) (s t : Degrees)
      → add_definition keys d s ≡ ok t
      → IsNode keys d
        × Adds (edges_to d.node_key (all_predecessors d)) s t
        × (t.dependency_count ≡ s.dependency_count + length (all_predecessors d))
        × (t.dependency_count ≤ max_dependencies)
  unfolding add_definition
  add_definition-Adds d s t h =
      let preds = all_predecessors d in
      let (u1, h1) = raise_if_ok (not (unique d.depends_on)) dependencies_repeated _ h in
      let (u2, h2) =
        raise_if_ok (not (unique_conditions d.conditional_depends_on)) conditions_repeated _ h1 in
      let (u3, h3) = raise_if_ok (not (unique preds)) predecessors_repeated _ h2 in
      let (u4, h4) = raise_if_ok (ltb max_predecessors (length preds)) too_many_predecessors _ h3 in
      let (u5, h5) =
        raise_if_ok (ltb max_dependencies (s.dependency_count + length preds)) too_many_dependencies
          _ h4 in
      let (known, adds, count) = add_dependencies-Adds d.node_key preds _ t h5 in
      (
        record {
          dependencies = ground arith;
          conditions = ground arith;
          predecessors = ground arith;
          few = ltb→le _ _ u4;
          known = known;
        },
        record { indegrees = adds.indegrees; successor_lists = adds.successor_lists },
        count,
        omega (arith, ltb→le max_dependencies (s.dependency_count + length preds) u5),
      )

  definition_accepted :
      (d : NodeDefinition) (s : Degrees)
      → IsNode keys d
      → s.dependency_count + length (all_predecessors d) ≤ max_dependencies
      → (t : Degrees) × (add_definition keys d s ≡ ok t)
  unfolding add_definition
  definition_accepted d s n le =
      let few : ltb max_predecessors (length (all_predecessors d)) ≡ false =
        ground (arith, n.few) in
      let room : ltb max_dependencies (s.dependency_count + length (all_predecessors d)) ≡ false =
        ground arith in
      rw (n.dependencies, n.conditions, n.predecessors, few, room)
        (dependencies_accepted d.node_key (all_predecessors d)
          (record s { dependency_count = s.dependency_count + length (all_predecessors d) })
          n.known)

  -- The loop raises nothing only at definitions that satisfy its checks, and leaves their degrees.
  pub add_definitions-Adds :
      (ds : List NodeDefinition) (s t : Degrees)
      → s.dependency_count ≤ max_dependencies
      → add_definitions keys ds s ≡ ok t
      → All (IsNode keys) ds
        × Adds (edges_of ds) s t
        × (s.dependency_count + total_dependencies ds ≤ max_dependencies)
  unfolding add_definitions edges_of total_dependencies
  add_definitions-Adds [] s t le h =
      let same : s ≡ t = cc in (tt, subst (Adds [] s) same (Adds-refl s), omega (arith, le))
  add_definitions-Adds (d ∷ ds) s t le h =
      let (m, first, rest) = bind_ok (add_definition keys d s) (add_definitions keys ds) h in
      let (node, adds, count, small) = add_definition-Adds d s m first in
      let (nodes, more, total) = add_definitions-Adds ds m t small rest in
      (
        (node, nodes),
        Adds-trans (edges_to d.node_key (all_predecessors d)) (edges_of ds) adds more,
        omega (arith, total, count),
      )

  -- And it raises nothing at any of these.
  pub definitions_accepted :
      (ds : List NodeDefinition) (s : Degrees)
      → All (IsNode keys) ds
      → s.dependency_count + total_dependencies ds ≤ max_dependencies
      → (t : Degrees) × (add_definitions keys ds s ≡ ok t)
  unfolding add_definitions total_dependencies
  definitions_accepted [] s n le = (s, refl)
  definitions_accepted (d ∷ ds) s (n, ns) le =
      let (m, first) = definition_accepted d s n (omega (arith, le)) in
      let (_, _, count, _) = add_definition-Adds d s m first in
      rw first (definitions_accepted ds m ns (omega (arith, count, le)))
