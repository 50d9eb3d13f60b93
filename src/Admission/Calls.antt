-- ===== src/Admission/Calls.antt =====
-- backend/src/deskpilot/application/effect_dag_admission.py: the calls of the controller, each as it
-- runs under the controller's lock.
use desk_pilot_agent.Base.{
  ℕ, ◌+◌, ◌-◌, String, Bool, true, false, not, ◌&&◌, ◌||◌, ◌==◌, List, [], ◌∷◌, ◌++◌, ltb,
  if◌then◌else◌, any_of,
}
use desk_pilot_agent.Base.Text.{str_eq}
use desk_pilot_agent.Base.Result.{Result, ok, err, ◌>>◌, raise_if}
use desk_pilot_agent.Admission.State.{
  Limits, AdmissionError, graph_id_required, candidates_not_distinct, candidate_invalid,
  permit_not_active, AdmissionRequest, Waiter, graph_cancelled, withdrawn, set_count, Controller,
  get_queue, pop_queue, set_queue, is_done, settle,
}
use desk_pilot_agent.Admission.Controller.{add_to_ring, drain, leave_queue, remove_from_ring}

distinct_nodes : List AdmissionRequest → Bool
unfolding any_of
distinct_nodes [] = true
distinct_nodes (r ∷ rs) = not (any_of (λ s. str_eq r.node_id s.node_id) rs) && distinct_nodes rs

is_nil : List AdmissionRequest → Bool
is_nil [] = true
is_nil (_ ∷ _) = false

abbrev pub enqueued : Controller → ℕ → String → List AdmissionRequest → Controller
enqueued c id graph requests =
    let w : Waiter = record {
      waiter_id = id;
      graph_id = graph;
      remaining = requests;
      granted = [];
    } in
    record c {
      queues = set_queue graph (get_queue graph c.queues ++ w ∷ []) c.queues;
      waiting_batches = c.waiting_batches + 1;
      graph_ring = add_to_ring graph c.graph_ring;
    }

-- `acquire_batch` up to its first `await`: the checks, and the waiter put into its queue.
unfoldable pub enqueue :
    Controller → ℕ → String → List AdmissionRequest → Result AdmissionError Controller
unfolding distinct_nodes is_nil any_of
enqueue c id graph requests = do
  raise_if (str_eq graph "") graph_id_required
  raise_if (is_nil requests || not (distinct_nodes requests)) candidates_not_distinct
  raise_if (any_of (λ r. str_eq r.node_id "" || str_eq r.tool_name "") requests) candidate_invalid
  ok (enqueued c id graph requests)

-- The waiters of a cancelled graph, woken one by one.
unfoldable pub wake_all : List Waiter → Controller → Controller
wake_all [] c = c
wake_all (w ∷ ws) c = wake_all ws (record c {
  waiting_batches = c.waiting_batches - 1;
  outcomes = settle w.waiter_id graph_cancelled c.outcomes;
})

-- `cancel_waiters`
unfoldable pub cancel_waiters : Limits → Controller → String → Result AdmissionError Controller
cancel_waiters l c graph =
    let taken : Controller = record c {
      queues = pop_queue graph c.queues;
      graph_ring = remove_from_ring graph c.graph_ring;
    } in
    drain l (wake_all (get_queue graph c.queues) taken)

abbrev pub released : Controller → String → String → Controller
released c graph tool = record c {
  active_total = c.active_total - 1;
  active_by_graph = set_count graph (c.active_by_graph graph - 1) c.active_by_graph;
  active_by_tool = set_count tool (c.active_by_tool tool - 1) c.active_by_tool;
}

-- `_release`
unfoldable pub release : Limits → Controller → String → String → Result AdmissionError Controller
release l c graph tool = do
  raise_if
      (ltb c.active_total 1 || ltb (c.active_by_graph graph) 1 || ltb (c.active_by_tool tool) 1)
      permit_not_active
  drain l (released c graph tool)

unfoldable pub has_queue : String → List (String × List Waiter) → Bool
has_queue graph [] = false
has_queue graph ((g, _) ∷ rest) = str_eq g graph || has_queue graph rest

-- `queue.remove(waiter)`, where it is in the queue.
unfoldable pub remove_waiter : ℕ → List Waiter → List Waiter
remove_waiter id [] = []
remove_waiter id (w ∷ ws) =
    let rest = remove_waiter id ws in if w.waiter_id == id then ws else w ∷ rest

has_waiter : ℕ → List Waiter → Bool
unfolding any_of
has_waiter id ws = any_of (λ w. w.waiter_id == id) ws

-- `_withdraw_waiter` of a waiter whose future is not done; one whose future is done changes nothing.
unfoldable pub withdraw_waiter : Limits → Controller → String → ℕ → Result AdmissionError Controller
unfolding has_waiter
withdraw_waiter l c graph id =
    let queue = get_queue graph c.queues in
    let left : Controller = leave_queue graph (remove_waiter id queue) c in
    let waiting = if has_waiter id queue then c.waiting_batches - 1 else c.waiting_batches in
    let out : Controller = record left {
      waiting_batches = waiting;
      outcomes = settle id withdrawn c.outcomes;
    } in
    let alone : Controller = record c { outcomes = settle id withdrawn c.outcomes } in
    if is_done id c.outcomes
    then ok c
    else if has_queue graph c.queues
    then drain l out
    else drain l alone

-- The calls of the controller. `drain_op` is the second half of `acquire_batch`.
pub data AdmissionOperation : Type 0 where
  enqueue_op : ℕ → String → List AdmissionRequest → AdmissionOperation
  drain_op : AdmissionOperation
  cancel_op : String → AdmissionOperation
  withdraw_op : String → ℕ → AdmissionOperation
  release_op : String → String → AdmissionOperation

unfoldable pub apply_admission :
    Limits → Controller → AdmissionOperation → Result AdmissionError Controller
apply_admission l c (enqueue_op id graph requests) = enqueue c id graph requests
apply_admission l c drain_op = drain l c
apply_admission l c (cancel_op graph) = cancel_waiters l c graph
apply_admission l c (withdraw_op graph id) = withdraw_waiter l c graph id
apply_admission l c (release_op graph tool) = release l c graph tool

-- A call that raises leaves the controller. The source keeps what the call had changed before it
-- raised; of the checks, only the last one of `_drain_locked`, that the granted batch heads its
-- queue, comes after a change, and a drain takes batches from the heads alone.
unfoldable pub after_call : Controller → Result AdmissionError Controller → Controller
after_call c (ok d) = d
after_call c (err e) = c

unfoldable pub run_admission : Limits → Controller → List AdmissionOperation → Controller
run_admission l c [] = c
run_admission l c (o ∷ os) = run_admission l (after_call c (apply_admission l c o)) os
