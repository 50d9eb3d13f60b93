-- ===== src/Effects/Definitions.antt =====
-- backend/src/deskpilot/domain/effect_graph.py and application/task_service.py: the definitions of
-- the nodes of an effect DAG, and `TaskService._validate_effect_dag`.
use desk_pilot_agent.Base.{
  ℕ, zero, suc, ◌+◌, ◌-◌, String, Bool, true, false, not, ◌&&◌, ◌||◌, ◌==◌, Option, none, some,
  List, [], ◌∷◌, ◌++◌, map, ltb, leb, length, keep, any_of, if◌then◌else◌,
}
pub mod Edges
pub mod Search
pub mod Accumulation
pub mod Ranking
pub mod Valid
use mathlib.Core.List.{reverse}
use desk_pilot_agent.Base.Text.{str_eq, mem}
use desk_pilot_agent.Base.Text.Unique.{unique}
use desk_pilot_agent.Base.Result.{Result, ok, err, ◌>>=◌, ◌>>◌, raise_if}

pub data CompensationStrategy : Type 0 where
  no_compensation receipt_bound_reverse : CompensationStrategy

-- `EffectDagBranchCondition`
pub record BranchCondition : Type 0 where
  pub predecessor_key : String
  pub decision_key : String
  pub expected_outcome : String

-- `EffectDagNodeDefinition` with the fields of `EffectNodeDefinition`.
pub record NodeDefinition : Type 0 where
  pub node_key : String
  pub step_id : String
  pub tool_name : String
  pub tool_version : String
  pub contract_digest : String
  pub compensation_strategy : CompensationStrategy
  pub depends_on : List String
  pub conditional_depends_on : List BranchCondition

pub data DagError : Type 0 where
  node_count keys_repeated steps_repeated dependencies_repeated conditions_repeated : DagError
  predecessors_repeated too_many_predecessors too_many_dependencies : DagError
  missing_dependency own_dependency cyclic : DagError

abbrev pub max_nodes : ℕ
max_nodes = 1000

abbrev pub max_predecessors : ℕ
max_predecessors = 128

abbrev pub max_dependencies : ℕ
max_dependencies = 10000

same_condition : BranchCondition → BranchCondition → Bool
same_condition c d =
    str_eq c.predecessor_key d.predecessor_key && str_eq c.decision_key d.decision_key

-- `len(condition_identities) == len(set(condition_identities))`
unfoldable pub unique_conditions : List BranchCondition → Bool
unfolding same_condition any_of
unique_conditions [] = true
unique_conditions (c ∷ cs) = not (any_of (same_condition c) cs) && unique_conditions cs

abbrev pub conditional_predecessors : NodeDefinition → List String
conditional_predecessors d =
    map (λ (c : BranchCondition). c.predecessor_key) d.conditional_depends_on

abbrev pub all_predecessors : NodeDefinition → List String
all_predecessors d = d.depends_on ++ conditional_predecessors d

-- A dictionary with texts as keys, where each key has a value.
unfoldable pub updated {ℓ} : {V : Type ℓ} → (String → V) → String → V → String → V
updated f k v j = if str_eq k j then v else f j

-- The variables of the loop over the definitions: `indegree`, `successors`, `dependency_count`.
pub record Degrees : Type 0 where
  pub indegree : String → ℕ
  pub successors : String → List String
  pub dependency_count : ℕ

unfoldable pub no_degrees : Degrees
no_degrees = record { indegree = λ _. 0; successors = λ _. []; dependency_count = 0 }

-- `for dependency in all_predecessors: …`
unfoldable pub add_dependencies :
    List String → String → List String → Degrees → Result DagError Degrees
unfolding updated
add_dependencies keys key [] s = ok s
add_dependencies keys key (dependency ∷ rest) s = do
  raise_if (not (mem dependency keys)) missing_dependency
  raise_if (str_eq dependency key) own_dependency
  add_dependencies keys key rest (record s {
    indegree = updated s.indegree key (s.indegree key + 1);
    successors = updated s.successors dependency (s.successors dependency ++ key ∷ []);
  })

-- The body of the loop over the definitions.
unfoldable pub add_definition : List String → NodeDefinition → Degrees → Result DagError Degrees
add_definition keys d s = do
  raise_if (not (unique d.depends_on)) dependencies_repeated
  raise_if (not (unique_conditions d.conditional_depends_on)) conditions_repeated
  raise_if (not (unique (all_predecessors d))) predecessors_repeated
  raise_if (ltb max_predecessors (length (all_predecessors d))) too_many_predecessors
  let count = s.dependency_count + length (all_predecessors d)
  raise_if (ltb max_dependencies count) too_many_dependencies
  add_dependencies keys d.node_key (all_predecessors d) (record s { dependency_count = count })

unfoldable pub add_definitions :
    List String → List NodeDefinition → Degrees → Result DagError Degrees
add_definitions keys [] s = ok s
add_definitions keys (d ∷ ds) s = add_definition keys d s >>= add_definitions keys ds

-- `for successor in successors[current]: …`; the end of `ready` comes first.
unfoldable pub release_successors :
    List String → List String → (String → ℕ) → List String × (String → ℕ)
unfolding updated
release_successors [] ready indegree = (ready, indegree)
release_successors (s ∷ rest) ready indegree =
    let left = indegree s - 1 in
    release_successors rest (if left == 0 then s ∷ ready else ready) (updated indegree s left)

-- `while ready: …` gives `visited`. The fuel is the number of definitions: each is visited once.
unfoldable pub visit_all : ℕ → (String → List String) → List String → (String → ℕ) → ℕ → ℕ
visit_all zero successors ready indegree visited = visited
visit_all (suc fuel) successors [] indegree visited = visited
visit_all (suc fuel) successors (current ∷ ready) indegree visited =
    let (ready', indegree') = release_successors (successors current) ready indegree in
    visit_all fuel successors ready' indegree' (visited + 1)

unfoldable pub node_keys : List NodeDefinition → List String
node_keys = map (λ (d : NodeDefinition). d.node_key)

unfoldable pub step_ids : List NodeDefinition → List String
step_ids = map (λ (d : NodeDefinition). d.step_id)

-- The nodes that the search visits, from the degrees that the loop leaves.
unfoldable pub visited_count : List NodeDefinition → Degrees → ℕ
visited_count ds s =
    visit_all (length ds) s.successors (reverse (keep (λ key. s.indegree key == 0) (node_keys ds)))
      s.indegree 0

-- `_validate_effect_dag`
unfoldable pub validate_effect_dag : List NodeDefinition → Result DagError (Unit {0})
validate_effect_dag ds = do
  raise_if (not (leb 1 (length ds) && leb (length ds) max_nodes)) node_count
  raise_if (not (unique (node_keys ds))) keys_repeated
  raise_if (not (unique (step_ids ds))) steps_repeated
  degrees ← add_definitions (node_keys ds) ds no_degrees
  raise_if (not (visited_count ds degrees == length ds)) cyclic
