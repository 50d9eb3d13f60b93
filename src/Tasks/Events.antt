-- ===== src/Tasks/Events.antt =====
-- backend/src/deskpilot/application/task_service.py: a task with its events, its outbox messages and
-- its checkpoint; `append_event`, `transition_task` and what they call. Times are numbers. A call is
-- one database transaction: where it raises, nothing of it is kept.
use desk_pilot_agent.Base.{
  ℕ, ◌+◌, String, Bool, not, ◌&&◌, ◌||◌, Option, none, some, List, [], ◌∷◌, ltb, if◌then◌else◌,
}
use desk_pilot_agent.Base.Text.{str_eq}
use desk_pilot_agent.Base.Json.{Json, str, obj, Fields, end, field}
use desk_pilot_agent.Base.Result.{Result, ok, ◌>>◌, raise_if}
use desk_pilot_agent.Tasks.Status.{
  TaskStatus, paused, cancelled, is_terminal, status_is, status_value, is_allowed, ToolCallStatus,
  ApprovalStatus,
}

-- `TaskEventRecord`
pub record TaskEvent : Type 0 where
  pub event_id : String
  pub task_id : String
  pub seq : ℕ
  pub event_type : String
  pub timestamp : ℕ
  pub trace_id : String
  pub payload : Json

-- `OutboxMessageRecord`
pub record OutboxMessage : Type 0 where
  pub message_id : String
  pub task_id : String
  pub event_id : String
  pub event_seq : ℕ
  pub topic : String
  pub payload : TaskEvent
  pub attempt_count : ℕ
  pub available_at : ℕ
  pub created_at : ℕ

-- `TaskRuntimeCheckpointRecord`, as far as the service rebinds it.
pub record Checkpoint : Type 0 where
  pub event_seq : ℕ
  pub revision : ℕ
  pub updated_at : ℕ

-- `ApprovalRecord`, as far as the service changes it.
pub record Approval : Type 0 where
  pub approval_id : String
  pub call_id : String
  pub status : ApprovalStatus
  pub decision : Option String
  pub requested_at : ℕ
  pub resolved_at : Option ℕ
  pub resolved_by : Option String
  pub resolution_reason : Option String
  pub consumed_at : Option ℕ
  pub updated_at : ℕ

-- `ToolCallRecord`, as far as the service changes it or puts it into events.
pub record ToolCall : Type 0 where
  pub call_id : String
  pub step_id : String
  pub tool_name : String
  pub tool_version : String
  pub contract_digest : String
  pub attempt : ℕ
  pub runner_id : Option String
  pub status : ToolCallStatus
  pub resolution_source : Option String
  pub error_code : Option String
  pub finished_at : Option ℕ
  pub updated_at : ℕ
  pub terminal_event_id : Option String

-- A task with its rows of the other tables. Events and messages stand latest first.
pub record Task : Type 0 where
  pub task_id : String
  pub status : TaskStatus
  pub last_event_seq : ℕ
  pub updated_at : ℕ
  pub events : List TaskEvent
  pub outbox : List OutboxMessage
  pub checkpoint : Option Checkpoint
  pub approvals : List Approval
  pub calls : List ToolCall

-- What the environment gives for the event with a number: the clock and the fresh UUIDs.
pub record Source : Type 0 where
  pub clock : ℕ → ℕ
  pub event_uuid : ℕ → String
  pub trace_uuid : ℕ → String
  pub message_uuid : ℕ → String

pub data TaskError : Type 0 where
  invalid_transition task_not_found call_not_found : TaskError

-- `_ensure_transition`
unfoldable pub ensure_transition : TaskStatus → TaskStatus → Result TaskError (Unit {0})
unfolding is_allowed
ensure_transition current target = raise_if (not (is_allowed current target)) invalid_transition

-- The event of a task with the greatest number.
unfoldable pub latest : List TaskEvent → Option TaskEvent
latest [] = none
latest (e ∷ es) = elim (latest es) [
  | none ↦ some e
  | some f ↦ if ltb e.seq f.seq then some f else some e
]

-- `previous_event.trace_id if previous_event else …`
trace_of : Source → ℕ → Option TaskEvent → String
trace_of source n none = source.trace_uuid n
trace_of source n (some e) = e.trace_id

-- `_to_outbox`
unfoldable pub to_outbox : Source → TaskEvent → OutboxMessage
to_outbox source e = record {
  message_id = source.message_uuid e.seq;
  task_id = e.task_id;
  event_id = e.event_id;
  event_seq = e.seq;
  topic = "task.event";
  payload = e;
  attempt_count = 0;
  available_at = e.timestamp;
  created_at = e.timestamp;
}

-- `new_status` where it is given.
unfoldable pub status_or : Option TaskStatus → TaskStatus → TaskStatus
status_or none current = current
status_or (some s) current = s

-- The checkpoint of a task that ends is deleted.
unfoldable pub kept_checkpoint : Option TaskStatus → Option Checkpoint → Option Checkpoint
kept_checkpoint none c = c
kept_checkpoint (some s) c = if is_terminal s then none else c

-- The event that `_append_event_record` makes.
unfoldable pub next_event : Source → Task → String → Json → TaskEvent
unfolding latest trace_of
next_event source t event_type payload =
    let seq = t.last_event_seq + 1 in
    record {
      event_id = source.event_uuid seq;
      task_id = t.task_id;
      seq = seq;
      event_type = event_type;
      timestamp = source.clock seq;
      trace_id = trace_of source seq (latest t.events);
      payload = payload;
    }

-- `_append_event_record`, without the event it returns, `next_event`.
unfoldable pub append_event_record : Source → Task → String → Json → Option TaskStatus → Task
unfolding next_event to_outbox status_or kept_checkpoint
append_event_record source t event_type payload new_status =
    let event = next_event source t event_type payload in
    record t {
      status = status_or new_status t.status;
      last_event_seq = event.seq;
      updated_at = event.timestamp;
      events = event ∷ t.events;
      outbox = to_outbox source event ∷ t.outbox;
      checkpoint = kept_checkpoint new_status t.checkpoint;
    }

-- `_ensure_transition` where a new status is given.
ensure_given : TaskStatus → Option TaskStatus → Result TaskError (Unit {0})
unfolding ensure_transition
ensure_given current none = ok tt
ensure_given current (some s) = ensure_transition current s

-- `append_event`
unfoldable pub append_event :
    Source → Task → String → Json → Option TaskStatus → Result TaskError Task
unfolding ensure_given
append_event source t event_type payload new_status = do
  raise_if (is_terminal t.status) invalid_transition
  ensure_given t.status new_status
  ok (append_event_record source t event_type payload new_status)

-- `command in {"pause", "resume"}`
unfoldable pub rebinds : String → Bool
rebinds command = str_eq command "pause" || str_eq command "resume"

-- The task is already where the command leads.
unfoldable pub already : String → TaskStatus → Bool
already command current =
    (str_eq command "pause" && status_is current paused)
    || (str_eq command "cancel" && status_is current cancelled)

with_reason : Option String → Fields
with_reason none = end
with_reason (some reason) = field "reason" (str reason) end

unfoldable pub transition_payload : TaskStatus → TaskStatus → String → String → Option String → Json
unfolding with_reason status_value
transition_payload current target command requested_by reason = obj (
    field "from" (str (status_value current)) (
      field "to" (str (status_value target)) (
        field "command" (str command)
          (field "requested_by" (str requested_by) (with_reason reason)))))

-- The row that is rebound, if there is one.
unfoldable pub rebound : ℕ → ℕ → Option Checkpoint → Option Checkpoint
rebound seq now none = none
rebound seq now (some c) =
    some (record c { event_seq = seq; revision = c.revision + 1; updated_at = now })

-- `_rebind_task_checkpoint`
unfoldable pub rebind_task_checkpoint : Source → Task → Task
unfolding rebound
rebind_task_checkpoint source t = record t {
  checkpoint = rebound t.last_event_seq (source.clock t.last_event_seq) t.checkpoint;
}

-- `transition_task`
unfoldable pub transition_task :
    Source → Task → TaskStatus → String → Option String → String → Result TaskError Task
unfolding rebinds already
transition_task source t target command reason requested_by =
    if already command t.status then ok t else do
      ensure_transition t.status target
      let event_type =
          if status_is target cancelled then "task.cancelled" else "task.status_changed"
      let payload = transition_payload t.status target command requested_by reason
      let next : Task = append_event_record source t event_type payload (some target)
      ok (
          if rebinds command && not (is_terminal target)
          then rebind_task_checkpoint source next
          else next)
