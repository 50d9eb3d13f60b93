-- ===== src/Tests/Tasks.antt =====
-- Runs of the calls on a task.
use desk_pilot_agent.Base.{◌+◌, ◌≡◌, refl, none, some, List, [], ◌∷◌, All, arith, if◌then◌else◌}
use desk_pilot_agent.Base.Json.{null}
use desk_pilot_agent.Base.Result.{ok}
use desk_pilot_agent.Tasks.Status.{
  created, classifying, running, waiting_approval, succeeded, cancelled, requested, pending,
}
use desk_pilot_agent.Tasks.Events.{Approval, ToolCall, Task, Source}
use desk_pilot_agent.Tasks.Cancel.{is_invalidatable, invalidatable, cancel_task}
use desk_pilot_agent.Tasks.Runs.{TaskOperation, append_op, transition_op, cancel_op, run}
use desk_pilot_agent.Tasks.Lifecycle.{Reaches, run-Reaches, ended_task_stays}
use desk_pilot_agent.Tasks.Numbering.{IsWellFormed, run-IsWellFormed}
use desk_pilot_agent.Tasks.Cancelled.{IsSpent, cancel_task-approvals}
use desk_pilot_agent.Tasks.Waiting.{status_of, as_cancelled, names_call, cancel_task-calls}

abbrev supply : Source
supply = record {
  clock = λ n. 100 + n;
  event_uuid = λ _. "e";
  trace_uuid = λ _. "t";
  message_uuid = λ _. "m";
}

abbrev blank : Task
blank = record {
  task_id = "t";
  status = created;
  last_event_seq = 0;
  updated_at = 0;
  events = [];
  outbox = [];
  checkpoint = none;
  approvals = [];
  calls = [];
}

abbrev asked_call : ToolCall
asked_call = record {
  call_id = "c";
  step_id = "s";
  tool_name = "file.move";
  tool_version = "1.0.0";
  contract_digest = "d";
  attempt = 1;
  runner_id = none;
  status = requested;
  resolution_source = none;
  error_code = none;
  finished_at = none;
  updated_at = 3;
  terminal_event_id = none;
}

abbrev asked_approval : Approval
asked_approval = record {
  approval_id = "a";
  call_id = "c";
  status = pending;
  decision = none;
  requested_at = 3;
  resolved_at = none;
  resolved_by = none;
  resolution_reason = none;
  consumed_at = none;
  updated_at = 3;
}

abbrev waiting : Task
waiting = record blank {
  status = waiting_approval;
  checkpoint = some (record { event_seq = 0; revision = 1; updated_at = 3 });
  approvals = asked_approval ∷ [];
  calls = asked_call ∷ [];
}

abbrev ended_task : Task
ended_task = record blank { status = succeeded }

abbrev operations : List TaskOperation
operations =
    append_op "task.classifying" null (some classifying)
    ∷ append_op "task.started" null (some running)
    ∷ transition_op waiting_approval "pause" none "user"
    ∷ cancel_op 9 none "user"
    ∷ []

run-Reaches_example : Reaches created (run supply blank operations).status
run-Reaches_example = run-Reaches supply blank operations

ended_task_stays_example : run supply ended_task operations ≡ ended_task
ended_task_stays_example = ended_task_stays supply ended_task operations refl

blank-IsWellFormed : IsWellFormed blank
blank-IsWellFormed = record {
  numbered = refl;
  one_trace = ("t", tt);
  within = tt;
  ended = λ _. refl;
}

run-IsWellFormed_example : IsWellFormed (run supply blank operations)
run-IsWellFormed_example = run-IsWellFormed supply blank operations blank-IsWellFormed

abbrev after_cancel : Task
after_cancel = run supply waiting (cancel_op 9 none "user" ∷ [])

cancel_done : cancel_task supply 9 waiting none "user" ≡ ok after_cancel
unfolding cancel_task desk_pilot_agent.Tasks.Cancel.invalidate_all invalidatable
    desk_pilot_agent.Tasks.Cancel.mark_approval desk_pilot_agent.Tasks.Events.append_event_record
    run
cancel_done = refl

cancel_task-approvals_example :
    (after_cancel.status ≡ cancelled)
    × (after_cancel.checkpoint ≡ none)
    × All IsSpent after_cancel.approvals
cancel_task-approvals_example =
    cancel_task-approvals supply 9 waiting none "user" after_cancel cancel_done
      (λ e. ground (arith, e))

cancel_task-calls_example : status_of "c" after_cancel.calls ≡ (
    if names_call "c" (invalidatable waiting)
    then as_cancelled (status_of "c" waiting.calls)
    else status_of "c" waiting.calls)
cancel_task-calls_example =
    cancel_task-calls supply 9 waiting none "user" after_cancel cancel_done (λ e. ground (arith, e))
      "c"
