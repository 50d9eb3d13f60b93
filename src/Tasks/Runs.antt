-- ===== src/Tasks/Runs.antt =====
-- Runs of the calls on a task, and the states they reach.
use desk_pilot_agent.Base.{
  ℕ, String, ◌≡◌, subst, true, false, Option, some, List, [], ◌∷◌, if◌then◌else◌, arith, ◌⊎◌, inl,
  inr, Bool-cases,
}
use desk_pilot_agent.Base.Json.{Json}
use desk_pilot_agent.Base.Result.{Result, ok, err, bind_ok, Result-cases}
use desk_pilot_agent.Tasks.Status.{TaskStatus, cancelled, is_terminal, status_is, is_allowed}
use desk_pilot_agent.Tasks.Events.{
  Task, Source, TaskError, ensure_transition, append_event_record, append_event, already,
  rebind_task_checkpoint, transition_task, transition_payload, status_or, Approval, ToolCall,
}
use desk_pilot_agent.Tasks.Cancel.{
  mark_approval, get_tool_call, invalidatable, invalidate, invalidate_all, cancel_call, cancel_task,
}

-- The calls, with their arguments; `cancel_op` carries the time it reads.
pub data TaskOperation : Type 0 where
  append_op : String → Json → Option TaskStatus → TaskOperation
  transition_op : TaskStatus → String → Option String → String → TaskOperation
  cancel_op : ℕ → Option String → String → TaskOperation

unfoldable pub call : Source → Task → TaskOperation → Result TaskError Task
unfolding append_event transition_task cancel_task
call source t (append_op event_type payload s) = append_event source t event_type payload s
call source t (transition_op target command reason by) =
    transition_task source t target command reason by
call source t (cancel_op now reason by) = cancel_task source now t reason by

-- The task after a call: one that raises leaves it.
unfoldable pub after : Task → Result TaskError Task → Task
after t (ok t') = t'
after t (err e) = t

unfoldable pub run : Source → Task → List TaskOperation → Task
unfolding after call
run source t [] = t
run source t (o ∷ os) = run source (after t (call source t o)) os

-- A step of the state machine, or none.
abbrev pub IsLegal : TaskStatus → TaskStatus → Type 0
IsLegal s s' = (s' ≡ s) ⊎ (is_allowed s s' ≡ true)

-- What the two halves of the loop's body keep, the loop keeps.
module _ {ℓ} (P : Task → Type ℓ) (source : Source) (now : ℕ) (reason : Option String) (by : String)
    (marks : (t : Task) (a : Approval) → P t → P (mark_approval source now reason by t a))
    (cancels : (t : Task) (c : ToolCall) → P t → P (cancel_call source now t c)) where
  invalidate_keeps :
      (t : Task) (a : Approval) {t' : Task}
      → invalidate source now reason by t a ≡ ok t'
      → P t
      → P t'
  unfolding invalidate
  invalidate_keeps t a h p =
      let next : Task = mark_approval source now reason by t a in
      elim (Result-cases (get_tool_call next.calls a.call_id)) [
        | inl (c, found) ↦ subst P (ground arith) (cancels next c (marks t a p))
        | inr (e, missing) ↦ absurd (ground arith)
      ]

  pub invalidate_all_keeps :
      (l : List Approval) (t : Task) {t' : Task}
      → invalidate_all source now reason by l t ≡ ok t'
      → P t
      → P t'
  unfolding invalidate_all
  invalidate_all_keeps [] t h p = subst P (ground arith) p
  invalidate_all_keeps (a ∷ l) t h p =
      let (u, first, rest) = bind_ok (invalidate source now reason by t a) _ h in
      invalidate_all_keeps l u rest (invalidate_keeps t a first p)

-- The ways in which the calls succeed.
pub append_event_cases :
    (source : Source) (t : Task) (event_type : String) (payload : Json) (s : Option TaskStatus)
    {t' : Task}
    → append_event source t event_type payload s ≡ ok t'
    → (IsLegal t.status (status_or s t.status))
      × (t' ≡ append_event_record source t event_type payload s)
unfolding append_event ensure_transition status_or
append_event_cases source t event_type payload s h = ground arith

pub transition_task_cases :
    (source : Source) (t : Task) (target : TaskStatus) (command : String) (reason : Option String)
    → (by : String) {t' : Task} → transition_task source t target command reason by ≡ ok t'
    → (t' ≡ t)
      ⊎ ((event_type : String) × (payload : Json) × (is_allowed t.status target ≡ true)
          × ((t' ≡ append_event_record source t event_type payload (some target))
              ⊎ (is_terminal target ≡ false)
                × (t'
                    ≡ rebind_task_checkpoint source
                        (append_event_record source t event_type payload (some target)))))
unfolding transition_task ensure_transition
transition_task_cases source t target command reason by h =
    elim (Bool-cases (already command t.status)) [
      | inl there ↦ inl (ground arith)
      | inr live ↦ inr (
        (if status_is target cancelled then "task.cancelled" else "task.status_changed"),
        transition_payload t.status target command by reason,
        ground arith,
        ground arith,
      )
    ]

pub cancel_task_cases :
    (source : Source) (now : ℕ) (t : Task) (reason : Option String) (by : String) {t' : Task}
    → cancel_task source now t reason by ≡ ok t'
    → ((t' ≡ t) × (t.status ≡ cancelled))
      ⊎ ((next : Task) × (payload : Json) × (is_allowed t.status cancelled ≡ true)
          × (invalidate_all source now reason by (invalidatable t) t ≡ ok next)
          × (t' ≡ append_event_record source next "task.cancelled" payload (some cancelled)))
unfolding cancel_task ensure_transition
cancel_task_cases source now t reason by h =
    elim (Result-cases (invalidate_all source now reason by (invalidatable t) t)) [
      | inl (next, done) ↦ elim (Bool-cases (status_is t.status cancelled)) [
        | inl there ↦ inl (ground arith)
        | inr live ↦ inr (
          next,
          transition_payload t.status cancelled "cancel" by reason,
          ground arith,
          done,
          ground arith,
        )
      ]
      | inr (e, failed) ↦ inl (ground arith)
    ]
