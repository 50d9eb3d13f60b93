-- ===== src/Tests/Admission.antt =====
-- Runs of the admission controller.
use desk_pilot_agent.Base.{ℕ, String, ◌≡◌, refl, List, [], ◌∷◌, arith, Option, some, none}
use desk_pilot_agent.Admission.State.{Limits, AdmissionRequest, Controller, find_limit}
use desk_pilot_agent.Admission.Controller.{grant_all}
use desk_pilot_agent.Admission.Calls.{
  AdmissionOperation, enqueue_op, drain_op, release_op, cancel_op, withdraw_op, run_admission,
}
use desk_pilot_agent.Admission.Limits.{IsWithin}
use desk_pilot_agent.Admission.Fuel.{grant_all_enough}

abbrev limits : Limits
limits = record { global_limit = 2; per_graph_limit = 1; default_tool_limit = 2; tool_limits = [] }

abbrev idle : Controller
idle = record {
  active_total = 0;
  active_by_graph = λ _. 0;
  active_by_tool = λ _. 0;
  queues = [];
  graph_ring = [];
  waiting_batches = 0;
  outcomes = [];
}

abbrev work : List AdmissionRequest
work =
    record { node_id = "n"; tool_name = "tool" } ∷ record { node_id = "m"; tool_name = "tool" } ∷ []

abbrev admissions : List AdmissionOperation
admissions =
    enqueue_op 1 "g" work
    ∷ enqueue_op 2 "h" work
    ∷ drain_op
    ∷ enqueue_op 3 "g" work
    ∷ release_op "g" "tool"
    ∷ cancel_op "h"
    ∷ withdraw_op "g" 3
    ∷ []

idle-IsWithin : IsWithin limits idle
idle-IsWithin = (ground arith, (λ _. ground arith), (λ _. ground arith))

grant_all_enough_example : grant_all 5 limits idle [] ≡ grant_all 2 limits idle []
grant_all_enough_example =
    grant_all_enough 2 5 limits idle [] (ground arith) (ground arith) idle-IsWithin

one_each :
    (run_admission limits idle
      (enqueue_op 1 "g" work ∷ enqueue_op 2 "h" work ∷ drain_op ∷ [])).active_total
    ≡ 2
unfolding run_admission grant_all find_limit desk_pilot_agent.Admission.Calls.after_call
    desk_pilot_agent.Admission.Calls.apply_admission desk_pilot_agent.Admission.Controller.drain
    desk_pilot_agent.Admission.Controller.serve_all desk_pilot_agent.Admission.Calls.enqueue
    desk_pilot_agent.Admission.Controller.is_empty_ring
    desk_pilot_agent.Admission.Controller.add_to_ring desk_pilot_agent.Admission.Controller.scan
    desk_pilot_agent.Admission.Controller.resume desk_pilot_agent.Admission.Controller.turn
    desk_pilot_agent.Admission.Controller.offer desk_pilot_agent.Admission.Controller.turned
    desk_pilot_agent.Admission.Controller.offer_request
    desk_pilot_agent.Admission.Controller.add_waiter
    desk_pilot_agent.Admission.Controller.first_grantable
    desk_pilot_agent.Admission.Controller.grant desk_pilot_agent.Admission.Controller.leave_queue
    desk_pilot_agent.Admission.Controller.remove_from_ring
    desk_pilot_agent.Admission.Controller.serve desk_pilot_agent.Admission.Controller.skipping
    desk_pilot_agent.Admission.State.get_queue desk_pilot_agent.Admission.State.set_queue
    desk_pilot_agent.Admission.State.is_done desk_pilot_agent.Admission.State.pop_queue
    desk_pilot_agent.Admission.State.set_count desk_pilot_agent.Admission.State.settle
    desk_pilot_agent.Base.Text.mem desk_pilot_agent.Base.keep desk_pilot_agent.Base.any_of
one_each = refl
