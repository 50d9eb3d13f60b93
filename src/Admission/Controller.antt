-- ===== src/Admission/Controller.antt =====
-- backend/src/deskpilot/application/effect_dag_admission.py: the operations of the controller, each
-- as it runs under the controller's lock.
use desk_pilot_agent.Base.{
  ℕ, zero, suc, ◌+◌, ◌-◌, String, Bool, true, false, not, ◌||◌, ◌==◌, Option, none, some, List, [],
  ◌∷◌, ◌++◌, ltb, leb, if◌then◌else◌, keep, length,
}
use desk_pilot_agent.Base.Text.{str_eq, mem}
use desk_pilot_agent.Base.Result.{Result, ok, err, ◌>>=◌, ◌>>◌, raise_if}
use desk_pilot_agent.Admission.State.{
  Limits, tool_limit, AdmissionError, lost_head, AdmissionRequest, Permit, Waiter, permits, Counts,
  set_count, Controller, get_queue, pop_queue, set_queue, settle,
}

-- A request that stays in its place.
unfoldable pub skipping :
    AdmissionRequest
    → Option (AdmissionRequest × List AdmissionRequest)
    → Option (AdmissionRequest × List AdmissionRequest)
skipping r none = none
skipping r (some (s, rest)) = some (s, r ∷ rest)

-- `_first_grantable_request`, with the other requests: those of `pop(index)`.
unfoldable pub first_grantable :
    Limits → Counts → List AdmissionRequest → Option (AdmissionRequest × List AdmissionRequest)
first_grantable l by_tool [] = none
first_grantable l by_tool (r ∷ rs) =
    let rest = skipping r (first_grantable l by_tool rs) in
    if ltb (by_tool r.tool_name) (tool_limit l r.tool_name) then some (r, rs) else rest

-- The grant of one request to the first waiter of a queue.
unfoldable pub grant :
    Controller
    → String
    → Waiter
    → List Waiter
    → AdmissionRequest
    → List AdmissionRequest
    → Controller
grant c graph w ws request remaining =
    let permit : Permit = record { graph_id = graph; request = request } in
    let w' : Waiter = record w { remaining = remaining; granted = w.granted ++ permit ∷ [] } in
    record c {
      queues = set_queue graph (w' ∷ ws) c.queues;
      active_total = c.active_total + 1;
      active_by_graph = set_count graph (c.active_by_graph graph + 1) c.active_by_graph;
      active_by_tool =
          set_count request.tool_name (c.active_by_tool request.tool_name + 1) c.active_by_tool;
    }

-- Whether a turn of the scan granted something, and to which waiter.
pub data Turn : Type 0 where
  passed : Turn
  granted_to : String → ℕ → Turn

unfoldable pub offer_request :
    Controller
    → String
    → Waiter
    → List Waiter
    → Option (AdmissionRequest × List AdmissionRequest)
    → Turn × Controller
offer_request c graph w ws none = (passed, c)
offer_request c graph w ws (some (request, remaining)) =
    (granted_to graph w.waiter_id, grant c graph w ws request remaining)

-- The graph at the head of the ring, once it has gone to its end.
unfoldable pub offer : Limits → Controller → String → List Waiter → Turn × Controller
offer l c graph [] = (passed, c)
offer l c graph (w ∷ ws) =
    if leb l.per_graph_limit (c.active_by_graph graph)
    then (passed, c)
    else offer_request c graph w ws (first_grantable l c.active_by_tool w.remaining)

-- The ring without its head, or with its head at its end while that graph has waiters.
unfoldable pub turned : Controller → String → List String → List Waiter → Controller
turned c graph rest [] = record c { graph_ring = rest }
turned c graph rest (w ∷ ws) = record c { graph_ring = rest ++ graph ∷ [] }

-- One turn of the inner loop.
unfoldable pub turn : Limits → Controller → List String → Turn × Controller
turn l c [] = (passed, c)
turn l c (graph ∷ rest) =
    let queue = get_queue graph c.queues in offer l (turned c graph rest queue) graph queue

-- The loop goes on after a turn that grants nothing.
unfoldable pub resume : Turn × Controller → Turn × Controller → Turn × Controller
resume (passed, c) rest = rest
resume (granted_to graph id, c) rest = (granted_to graph id, c)

-- The inner loop, for the given number of graphs: it ends with the first grant.
unfoldable pub scan : ℕ → Limits → Controller → Turn × Controller
scan zero l c = (passed, c)
scan (suc n) l c = let t = turn l c c.graph_ring in resume t (scan n l t.1)

unfoldable pub add_waiter : String → ℕ → List (String × ℕ) → List (String × ℕ)
add_waiter graph id [] = (graph, id) ∷ []
add_waiter graph id ((g, i) ∷ rest) =
    let others = add_waiter graph id rest in if i == id then (g, i) ∷ rest else (g, i) ∷ others

unfoldable pub is_empty_ring : List String → Bool
is_empty_ring [] = true
is_empty_ring (_ ∷ _) = false

-- The outer loop, with the waiters that were granted something, in the order of their first grant.
-- Each round that goes on takes one of the slots that are left.
unfoldable pub grant_all :
    ℕ → Limits → Controller → List (String × ℕ) → List (String × ℕ) × Controller
grant_all zero l c waiters = (waiters, c)
grant_all (suc n) l c waiters =
    let (result, next) = scan (length c.graph_ring) l c in
    if not (ltb c.active_total l.global_limit) || is_empty_ring c.graph_ring
    then (waiters, c)
    else elim result as (λ _. List (String × ℕ) × Controller) [
      | passed ↦ (waiters, next)
      | granted_to graph id ↦ grant_all n l next (add_waiter graph id waiters)
    ]

-- `_remove_graph_from_ring`
unfoldable pub remove_from_ring : String → List String → List String
remove_from_ring graph ring = keep (λ g. not (str_eq g graph)) ring

-- `_add_graph_to_ring`
unfoldable pub add_to_ring : String → List String → List String
add_to_ring graph ring = if mem graph ring then ring else ring ++ graph ∷ []

-- The queue of a graph after its first waiter left, which takes an empty one out of the ring.
unfoldable pub leave_queue : String → List Waiter → Controller → Controller
leave_queue graph [] c = record c {
  queues = pop_queue graph c.queues;
  graph_ring = remove_from_ring graph c.graph_ring;
}
leave_queue graph (w ∷ ws) c = record c { queues = set_queue graph (w ∷ ws) c.queues }

-- A waiter that was granted something leaves its queue, at whose head it must be.
unfoldable pub serve : String → ℕ → List Waiter → Controller → Result AdmissionError Controller
serve graph id [] c = err lost_head
serve graph id (w ∷ ws) c = do
  raise_if (not (w.waiter_id == id)) lost_head
  let next : Controller = leave_queue graph ws c
  ok (record next {
    waiting_batches = next.waiting_batches - 1;
    outcomes = settle id (permits w.granted) next.outcomes;
  })

unfoldable pub serve_all : List (String × ℕ) → Controller → Result AdmissionError Controller
serve_all [] c = ok c
serve_all ((graph, id) ∷ rest) c = serve graph id (get_queue graph c.queues) c >>= serve_all rest

-- `_drain_locked`
unfoldable pub drain : Limits → Controller → Result AdmissionError Controller
drain l c =
    let (waiters, next) = grant_all (l.global_limit - c.active_total) l c [] in
    serve_all waiters next
