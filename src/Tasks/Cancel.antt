-- ===== src/Tasks/Cancel.antt =====
-- backend/src/deskpilot/application/task_service.py: `cancel_task`, which also cancels the task's
-- approvals that no call has consumed, and the calls that waited for them.
use desk_pilot_agent.Base.{
  ℕ, String, Bool, false, not, ◌&&◌, ◌||◌, Option, none, some, List, [], ◌∷◌, leb, is_some,
  if◌then◌else◌, keep,
}
use desk_pilot_agent.Base.Text.{str_eq}
use desk_pilot_agent.Base.Json.{Json, flag, num, str, obj, end, field, opt_text}
use desk_pilot_agent.Base.Result.{Result, ok, err, ◌>>=◌, ◌>>◌}
use desk_pilot_agent.Tasks.Status.{
  cancelled, status_is, call_cancelled, is_requested, approval_cancelled, is_pending, is_approved,
}
use desk_pilot_agent.Tasks.Events.{
  Approval, ToolCall, Task, Source, TaskError, call_not_found, ensure_transition, next_event,
  append_event_record, transition_payload,
}

-- The `WHERE` of the query: pending or approved, and not consumed.
unfoldable pub is_invalidatable : Approval → Bool
is_invalidatable a = (is_pending a.status || is_approved a.status) && not (is_some a.consumed_at)

-- `ORDER BY requested_at`
unfoldable pub insert_approval : Approval → List Approval → List Approval
insert_approval a [] = a ∷ []
insert_approval a (b ∷ bs) =
    let rest = insert_approval a bs in
    if leb a.requested_at b.requested_at then a ∷ b ∷ bs else b ∷ rest

unfoldable pub by_requested_at : List Approval → List Approval
unfolding insert_approval
by_requested_at [] = []
by_requested_at (a ∷ rest) = insert_approval a (by_requested_at rest)

unfoldable pub invalidatable : Task → List Approval
unfolding is_invalidatable by_requested_at keep
invalidatable t = by_requested_at (keep is_invalidatable t.approvals)

-- `reason or "Task cancelled by user"`
abbrev pub or_given : Option String → String
or_given none = "Task cancelled by user"
or_given (some reason) = if str_eq reason "" then "Task cancelled by user" else reason

-- The approval as it is left.
unfoldable pub cancelled_approval : ℕ → Option String → String → Approval → Approval
cancelled_approval now reason requested_by a =
    let pending = is_pending a.status in
    record a {
      status = approval_cancelled;
      resolved_at = if pending then some now else a.resolved_at;
      resolved_by = if pending then some requested_by else a.resolved_by;
      resolution_reason = if pending then some (or_given reason) else a.resolution_reason;
      updated_at = now;
    }

-- Writes of one row.
unfoldable pub set_approval : Approval → List Approval → List Approval
set_approval a [] = []
set_approval a (b ∷ bs) =
    let rest = set_approval a bs in
    if str_eq b.approval_id a.approval_id then a ∷ rest else b ∷ rest

unfoldable pub set_call : ToolCall → List ToolCall → List ToolCall
set_call c [] = []
set_call c (d ∷ ds) =
    let rest = set_call c ds in if str_eq d.call_id c.call_id then c ∷ rest else d ∷ rest

-- `_get_tool_call`
unfoldable pub get_tool_call : List ToolCall → String → Result TaskError ToolCall
get_tool_call [] id = err call_not_found
get_tool_call (c ∷ cs) id = if str_eq c.call_id id then ok c else get_tool_call cs id

unfoldable pub approval_payload : Approval → Json
unfolding opt_text
approval_payload a = obj (
    field "approval_id" (str a.approval_id) (
      field "call_id" (str a.call_id) (
        field "status" (str "cancelled") (
          field "decision" (opt_text a.decision)
            (field "reason_code" (str "TASK_CANCELLED") end)))))

-- The call as it is cancelled, before its event is known.
abbrev pub cancelled_call : ℕ → ToolCall → ToolCall
cancelled_call now c = record c {
  status = call_cancelled;
  resolution_source = some "control_plane";
  error_code = some "APPROVAL_CANCELLED_WITH_TASK";
  finished_at = some now;
  updated_at = now;
}

-- `_terminal_tool_event_payload` of a cancelled call.
unfoldable pub cancelled_call_payload : ToolCall → Json
unfolding opt_text
cancelled_call_payload c = obj (
    field "step_id" (str c.step_id) (
      field "call_id" (str c.call_id) (
        field "tool" (str c.tool_name) (
          field "tool_version" (str c.tool_version) (
            field "contract_digest" (str c.contract_digest) (
              field "attempt" (num c.attempt) (
                field "runner_id" (opt_text c.runner_id) (
                  field "status" (str "cancelled") (
                    field "resolution_source" (opt_text c.resolution_source) (
                      field "code" (opt_text c.error_code)
                        (field "retryable" (flag false) end)))))))))))

-- The call of a cancelled approval: cancelled with an event of its own, where it still waits.
unfoldable pub cancel_call : Source → ℕ → Task → ToolCall → Task
cancel_call source now t c =
    let c' : ToolCall = cancelled_call now c in
    let event = next_event source t "tool.cancelled" (cancelled_call_payload c') in
    let next = append_event_record source t "tool.cancelled" (cancelled_call_payload c') none in
    if is_requested c.status
    then record next {
      calls = set_call (record c' { terminal_event_id = some event.event_id }) t.calls;
    }
    else t

-- The first half of the loop's body: the approval and its event.
unfoldable pub mark_approval : Source → ℕ → Option String → String → Task → Approval → Task
mark_approval source now reason requested_by t a =
    let a' : Approval = cancelled_approval now reason requested_by a in
    let marked : Task = record t { approvals = set_approval a' t.approvals } in
    let event_type = if is_pending a.status then "approval.resolved" else "approval.invalidated" in
    append_event_record source marked event_type (approval_payload a') none

-- The body of the loop.
unfoldable pub invalidate :
    Source → ℕ → Option String → String → Task → Approval → Result TaskError Task
unfolding get_tool_call
invalidate source now reason requested_by t a = do
  let next : Task = mark_approval source now reason requested_by t a
  call ← get_tool_call next.calls a.call_id
  ok (cancel_call source now next call)

-- The loop.
unfoldable pub invalidate_all :
    Source → ℕ → Option String → String → List Approval → Task → Result TaskError Task
unfolding invalidate
invalidate_all source now reason requested_by [] t = ok t
invalidate_all source now reason requested_by (a ∷ rest) t =
    invalidate source now reason requested_by t a
    >>= invalidate_all source now reason requested_by rest

-- `cancel_task`
unfoldable pub cancel_task : Source → ℕ → Task → Option String → String → Result TaskError Task
unfolding ensure_transition transition_payload
cancel_task source now t reason requested_by = if status_is t.status cancelled then ok t else do
  ensure_transition t.status cancelled
  next ← invalidate_all source now reason requested_by (invalidatable t) t
  let payload = transition_payload t.status cancelled "cancel" requested_by reason
  ok (append_event_record source next "task.cancelled" payload (some cancelled))
