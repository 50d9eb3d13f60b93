-- ===== src/Tasks/Waiting.antt =====
-- The calls of a task that is cancelled.
use desk_pilot_agent.Base.{
  ℕ, String, ◌≡◌, ◌≢◌, refl, ◌∙◌, Bool, Option, none, some, is_some, List, [], ◌∷◌, if◌then◌else◌,
  any_of, arith, ap, inl, inr, Bool-cases,
}
use desk_pilot_agent.Base.Text.{str_eq, eq_iff}
use desk_pilot_agent.Base.Result.{ok, bind_ok}
use desk_pilot_agent.Tasks.Status.{
  cancelled, ToolCallStatus, requested, call_cancelled, is_requested,
}
use desk_pilot_agent.Tasks.Events.{Approval, ToolCall, Task, Source, append_event_record}
use desk_pilot_agent.Tasks.Cancel.{
  invalidatable, set_call, get_tool_call, cancel_call, mark_approval, invalidate, invalidate_all,
  cancel_task,
}
use desk_pilot_agent.Tasks.Runs.{cancel_task_cases}
use desk_pilot_agent.Tasks.Cancelled.{invalidate_cases}

-- The status of the call with an ID.
unfoldable pub status_of : String → List ToolCall → Option ToolCallStatus
status_of id [] = none
status_of id (c ∷ cs) = if str_eq c.call_id id then some c.status else status_of id cs

-- A call that still waited is cancelled; one that has started or ended keeps its status.
unfoldable pub as_cancelled : Option ToolCallStatus → Option ToolCallStatus
as_cancelled (some requested) = some call_cancelled
as_cancelled s = s

-- Some approval of the list is for the call.
unfoldable pub names_call : String → List Approval → Bool
unfolding any_of
names_call id l = any_of (λ a. str_eq a.call_id id) l

as_cancelled_twice : (s : Option ToolCallStatus) → as_cancelled (as_cancelled s) ≡ as_cancelled s
unfolding as_cancelled
as_cancelled_twice none = refl
as_cancelled_twice (some s) = ground arith

set_call-status :
    (id : String) (c : ToolCall) (cs : List ToolCall)
    → status_of id (set_call c cs) ≡ (
        if str_eq c.call_id id
        then (if is_some (status_of id cs) then some c.status else none)
        else status_of id cs)
unfolding status_of set_call
set_call-status id c [] = ground arith
set_call-status id c (d ∷ ds) = ground (
  arith,
  set_call-status id c ds,
  eq_iff d.call_id c.call_id,
  eq_iff d.call_id id,
  eq_iff c.call_id id,
)

found_status :
    (id : String) (cs : List ToolCall) {c : ToolCall}
    → get_tool_call cs id ≡ ok c
    → (c.call_id ≡ id) × (status_of id cs ≡ some c.status)
unfolding status_of get_tool_call
found_status id [] h = cc
found_status id (d ∷ ds) {c} h = elim (Bool-cases (str_eq d.call_id id)) [
  | inl here ↦ ground (arith, eq_iff d.call_id id)
  | inr there ↦ ground (arith, found_status id ds {c = c} (ground arith))
]

cancel_call-status :
    (id : String) (source : Source) (now : ℕ) (t : Task) (c : ToolCall)
    → status_of c.call_id t.calls ≡ some c.status
    → status_of id (cancel_call source now t c).calls
      ≡ (if str_eq c.call_id id then as_cancelled (status_of id t.calls) else status_of id t.calls)
unfolding cancel_call as_cancelled
cancel_call-status id source now t c h = elim (Bool-cases (is_requested c.status)) [
  | inl waiting ↦
      rw waiting (set_call-status id _ t.calls ∙ ground (arith, eq_iff c.call_id id, h, waiting))
  | inr done ↦ rw done (ground (arith, eq_iff c.call_id id, h, done))
]

invalidate-status :
    (id : String) (source : Source) (now : ℕ) (reason : Option String) (by : String) (t : Task)
    (a : Approval) {u : Task}
    → invalidate source now reason by t a ≡ ok u
    → status_of id u.calls
      ≡ (if str_eq a.call_id id then as_cancelled (status_of id t.calls) else status_of id t.calls)
unfolding mark_approval append_event_record
invalidate-status id source now reason by t a h =
    let (c, found, made) = invalidate_cases source now reason by t a h in
    let marked : Task = mark_approval source now reason by t a in
    let (same, known) = found_status a.call_id marked.calls found in
    let step = cancel_call-status id source now marked c (rw same known) in
    ap (λ (r : Task). status_of id r.calls) made ∙ (rw same at step)

loop-status :
    (id : String) (source : Source) (now : ℕ) (reason : Option String) (by : String)
    (l : List Approval) (t : Task) {u : Task}
    → invalidate_all source now reason by l t ≡ ok u
    → status_of id u.calls
      ≡ (if names_call id l then as_cancelled (status_of id t.calls) else status_of id t.calls)
unfolding invalidate_all names_call any_of
loop-status id source now reason by [] t h = ground arith
loop-status id source now reason by (a ∷ l) t h =
    let (v, first, rest) = bind_ok (invalidate source now reason by t a) _ h in
    ground (
      arith,
      invalidate-status id source now reason by t a first,
      loop-status id source now reason by l v rest,
      as_cancelled_twice (status_of id t.calls),
    )

-- When `cancel_task` cancels a task that was not cancelled before, then of every call ID: where an
-- approval that is invalidated is for that call, the call is cancelled if it was still requested,
-- and keeps its status if it had been started or had ended; every other call keeps its status.
pub cancel_task-calls :
    (source : Source) (now : ℕ) (t : Task) (reason : Option String) (by : String) (u : Task)
    → cancel_task source now t reason by ≡ ok u
    → t.status ≢ cancelled
    → (id : String)
    → status_of id u.calls ≡ (
        if names_call id (invalidatable t)
        then as_cancelled (status_of id t.calls)
        else status_of id t.calls)
unfolding append_event_record
cancel_task-calls source now t reason by u h live id =
    elim (cancel_task_cases source now t reason by h) [
      | inl (same, there) ↦ absurd (live there)
      | inr (next, p, _, looped, made) ↦
          ap (λ (r : Task). status_of id r.calls) made
          ∙ loop-status id source now reason by (invalidatable t) t looped
    ]
