-- ===== src/Tasks/Lifecycle.antt =====
-- The states that a task goes through.
use desk_pilot_agent.Base.{
  ℕ, String, ◌≡◌, refl, sym, subst, true, false, Option, some, List, [], ◌∷◌, arith, inl, inr,
}
use desk_pilot_agent.Base.Json.{Json}
use desk_pilot_agent.Base.Result.{Result, ok, Result-cases}
use desk_pilot_agent.Tasks.Status.{TaskStatus, cancelled, is_terminal, is_allowed}
use desk_pilot_agent.Tasks.Events.{
  Task, Source, TaskError, append_event_record, append_event, rebind_task_checkpoint, status_or,
  Approval, ToolCall,
}
use desk_pilot_agent.Tasks.Cancel.{mark_approval, cancel_call}
use desk_pilot_agent.Tasks.Runs.{
  TaskOperation, append_op, transition_op, cancel_op, call, after, run, IsLegal, append_event_cases,
  transition_task_cases, cancel_task_cases,
}

append_status :
    (source : Source) (t : Task) (event_type : String) (payload : Json) (s : Option TaskStatus)
    → (append_event_record source t event_type payload s).status ≡ status_or s t.status
unfolding append_event_record
append_status source t event_type payload s = refl

mark_status :
    (source : Source) (now : ℕ) (reason : Option String) (by : String) (t : Task) (a : Approval)
    → (mark_approval source now reason by t a).status ≡ t.status
unfolding mark_approval append_event_record status_or
mark_status source now reason by t a = refl

cancel_call_status :
    (source : Source) (now : ℕ) (t : Task) (c : ToolCall)
    → (cancel_call source now t c).status ≡ t.status
unfolding cancel_call append_event_record status_or
cancel_call_status source now t c = ground arith

rebind_status : (source : Source) (t : Task) → (rebind_task_checkpoint source t).status ≡ t.status
unfolding rebind_task_checkpoint
rebind_status source t = refl

call_IsLegal :
    (source : Source) (t : Task) (o : TaskOperation) {t' : Task}
    → call source t o ≡ ok t'
    → IsLegal t.status t'.status
unfolding call status_or
call_IsLegal source t (append_op event_type payload s) h =
    let (legal, made) = append_event_cases source t event_type payload s h in
    ground (arith, append_status source t event_type payload s)
call_IsLegal source t (transition_op target command reason by) h =
    elim (transition_task_cases source t target command reason by h) [
      | inl same ↦ inl (ground arith)
      | inr (e, p, allowed, made) ↦ inr (
          ground (
            arith,
            append_status source t e p (some target),
            rebind_status source (append_event_record source t e p (some target)),
          ))
    ]
call_IsLegal source t (cancel_op now reason by) h =
    elim (cancel_task_cases source now t reason by h) [
      | inl (same, there) ↦ inl (ground arith)
      | inr (next, p, allowed, looped, made) ↦
          inr (ground (arith, append_status source next "task.cancelled" p (some cancelled)))
    ]

-- A chain of legal changes of state.
pub data Reaches : TaskStatus → TaskStatus → Type 0 where
  here : {s : TaskStatus} → Reaches s s
  step : {s t u : TaskStatus} → is_allowed s t ≡ true → Reaches t u → Reaches s u

after-IsLegal :
    (source : Source) (t : Task) (o : TaskOperation)
    → IsLegal t.status (after t (call source t o)).status
unfolding after
after-IsLegal source t o = elim (Result-cases (call source t o)) [
  | inl (u, done) ↦
      subst (λ (r : Result TaskError Task). IsLegal t.status (after t r).status) (sym done)
        (call_IsLegal source t o done)
  | inr (e, failed) ↦ inl (ground (arith, failed))
]

step_Reaches : {s t u : TaskStatus} → IsLegal s t → Reaches t u → Reaches s u
step_Reaches {u} (inl same) r = subst (λ s. Reaches s u) same r
step_Reaches (inr allowed) r = step allowed r

-- Whatever the calls, those that raise included, the state of a task moves only along chains of the
-- allowed transitions.
pub run-Reaches :
    (source : Source) (t : Task) (os : List TaskOperation)
    → Reaches t.status (run source t os).status
unfolding run
run-Reaches source t [] = here
run-Reaches source t (o ∷ os) =
    step_Reaches (after-IsLegal source t o) (run-Reaches source (after t (call source t o)) os)

no_way_out : (s u : TaskStatus) → is_terminal s ≡ true → is_allowed s u ≡ false
unfolding is_allowed
no_way_out s u h = ground arith

call_of_ended :
    (source : Source) (t : Task) (o : TaskOperation) {u : Task}
    → is_terminal t.status ≡ true
    → call source t o ≡ ok u
    → u ≡ t
unfolding call append_event
call_of_ended source t (append_op event_type payload s) h c = ground arith
call_of_ended source t (transition_op target command reason by) h c =
    elim (transition_task_cases source t target command reason by c) [
      | inl same ↦ same
      | inr (_, _, allowed, _) ↦ absurd (ground (arith, no_way_out t.status target h))
    ]
call_of_ended source t (cancel_op now reason by) h c =
    elim (cancel_task_cases source now t reason by c) [
      | inl (same, _) ↦ same
      | inr (_, _, allowed, _, _) ↦ absurd (ground (arith, no_way_out t.status cancelled h))
    ]

after_of_ended :
    (source : Source) (t : Task) (o : TaskOperation)
    → is_terminal t.status ≡ true
    → after t (call source t o) ≡ t
unfolding after
after_of_ended source t o h = elim (Result-cases (call source t o)) [
  | inl (u, done) ↦ ground (arith, done, call_of_ended source t o h done)
  | inr (e, failed) ↦ ground (arith, failed)
]

-- In a run of `append_event`, `transition_task` and `cancel_task`, with any arguments, a task in a
-- terminal state stays as it is: none of these three changes its state, its checkpoint, its events,
-- its messages, its approvals or its calls. Other writers of the service are not in the run.
pub ended_task_stays :
    (source : Source) (t : Task) (os : List TaskOperation)
    → is_terminal t.status ≡ true
    → run source t os ≡ t
unfolding run
ended_task_stays source t [] h = refl
ended_task_stays source t (o ∷ os) h =
    rw (after_of_ended source t o h) (ended_task_stays source t os h)
