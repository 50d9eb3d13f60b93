-- ===== src/Admission/State.antt =====
-- backend/src/deskpilot/application/effect_dag_admission.py: the limits and the state of the
-- controller. A waiter is known by a number, its identity in Python; the set `_ring_members` is
-- that of the graphs in the ring.
use desk_pilot_agent.Base.{
  ℕ, String, Bool, false, not, ◌&&◌, ◌||◌, ◌==◌, List, [], ◌∷◌, leb, if◌then◌else◌, any_of,
}
use desk_pilot_agent.Base.Text.{str_eq}
use desk_pilot_agent.Base.Result.{Result, ok, ◌>>◌, raise_if}

-- The controller's configuration.
pub record Limits : Type 0 where
  pub global_limit : ℕ
  pub per_graph_limit : ℕ
  pub default_tool_limit : ℕ
  pub tool_limits : List (String × ℕ)

pub data AdmissionError : Type 0 where
  global_invalid per_graph_invalid per_tool_invalid override_invalid : AdmissionError
  graph_id_required candidates_not_distinct candidate_invalid permit_not_active lost_head :
      AdmissionError

in_range : ℕ → ℕ → Bool
in_range n high = leb 1 n && leb n high

-- The checks of `__init__`.
unfoldable pub create_limits : Limits → Result AdmissionError Limits
unfolding in_range any_of
create_limits l = do
  raise_if (not (in_range l.global_limit 1024)) global_invalid
  raise_if (not (in_range l.per_graph_limit l.global_limit)) per_graph_invalid
  raise_if (not (in_range l.default_tool_limit l.global_limit)) per_tool_invalid
  raise_if (any_of (λ t. str_eq t.0 "" || not (in_range t.1 l.global_limit)) l.tool_limits)
      override_invalid
  ok l

-- `self._tool_limits.get(tool_name, self._default_tool_limit)`
unfoldable pub find_limit : String → List (String × ℕ) → ℕ → ℕ
find_limit tool [] default = default
find_limit tool ((name, limit) ∷ rest) default =
    if str_eq name tool then limit else find_limit tool rest default

abbrev pub tool_limit : Limits → String → ℕ
tool_limit l tool = find_limit tool l.tool_limits l.default_tool_limit

-- `EffectDagAdmissionRequest`
pub record AdmissionRequest : Type 0 where
  pub node_id : String
  pub tool_name : String

-- `EffectDagAdmissionPermit`, as the reservation it stands for.
pub record Permit : Type 0 where
  pub graph_id : String
  pub request : AdmissionRequest

-- `_AdmissionWaiter`, less its future.
pub record Waiter : Type 0 where
  pub waiter_id : ℕ
  pub graph_id : String
  pub remaining : List AdmissionRequest
  pub granted : List Permit

-- How the future of a waiter ended.
pub data Outcome : Type 0 where
  permits : List Permit → Outcome
  graph_cancelled withdrawn : Outcome

-- The counters of a `defaultdict(int)`: deleting an entry of 0 leaves 0.
abbrev pub Counts : Type 0
Counts = String → ℕ

unfoldable pub set_count : String → ℕ → Counts → Counts
set_count key n counts other = if str_eq other key then n else counts other

-- `EffectDagAdmissionController`. A graph without waiters has no queue.
pub record Controller : Type 0 where
  pub active_total : ℕ
  pub active_by_graph : Counts
  pub active_by_tool : Counts
  pub queues : List (String × List Waiter)
  pub graph_ring : List String
  pub waiting_batches : ℕ
  pub outcomes : List (ℕ × Outcome)

-- `self._queues.get(graph_id)`, an absent queue being empty.
unfoldable pub get_queue : String → List (String × List Waiter) → List Waiter
get_queue graph [] = []
get_queue graph ((g, q) ∷ rest) = if str_eq g graph then q else get_queue graph rest

unfoldable pub pop_queue : String → List (String × List Waiter) → List (String × List Waiter)
pop_queue graph [] = []
pop_queue graph ((g, q) ∷ rest) =
    let others = pop_queue graph rest in if str_eq g graph then others else (g, q) ∷ others

-- The queue of a graph set, where there is one or a new one.
unfoldable pub set_queue :
    String → List Waiter → List (String × List Waiter) → List (String × List Waiter)
set_queue graph ws [] = (graph, ws) ∷ []
set_queue graph ws ((g, q) ∷ rest) =
    let others = set_queue graph ws rest in
    if str_eq g graph then (g, ws) ∷ rest else (g, q) ∷ others

-- Whether the future of a waiter is done, and setting it if it is not.
unfoldable pub is_done : ℕ → List (ℕ × Outcome) → Bool
is_done id [] = false
is_done id ((i, _) ∷ rest) = i == id || is_done id rest

unfoldable pub settle : ℕ → Outcome → List (ℕ × Outcome) → List (ℕ × Outcome)
settle id outcome done = if is_done id done then done else (id, outcome) ∷ done
