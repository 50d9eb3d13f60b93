-- ===== src/Tasks/Numbering.antt =====
-- The events of a task are numbered without a gap, each with its outbox message, in one trace.
use desk_pilot_agent.Base.{
  ℕ, ◌+◌, ◌≤◌, String, ◌≡◌, refl, sym, subst, true, false, Option, none, some, List, [], ◌∷◌, All,
  arith, Option-cases, Bool-cases, inl, inr,
}
use desk_pilot_agent.Base.Json.{Json}
use desk_pilot_agent.Base.Result.{ok, Result-cases}
use desk_pilot_agent.Tasks.Status.{is_requested, TaskStatus, cancelled, is_terminal}
use desk_pilot_agent.Tasks.Events.{
  TaskEvent, OutboxMessage, Checkpoint, Approval, ToolCall, Task, Source, latest, next_event,
  to_outbox, status_or, kept_checkpoint, append_event_record, rebound, rebind_task_checkpoint,
}
use desk_pilot_agent.Tasks.Cancel.{
  set_approval, cancelled_approval, cancelled_call, cancelled_call_payload, invalidatable,
  mark_approval, cancel_call,
}
use desk_pilot_agent.Tasks.Runs.{
  TaskOperation, append_op, transition_op, cancel_op, call, after, run, append_event_cases,
  transition_task_cases, cancel_task_cases, invalidate_all_keeps,
}

-- The events are those numbered from `n` down to 1, each with the message that carries it.
abbrev pub IsNumbered : ℕ → List TaskEvent → List OutboxMessage → Type 0
IsNumbered n [] [] = n ≡ 0
IsNumbered n (e ∷ es) (m ∷ ms) =
    (e.seq ≡ n)
    × (m.event_seq ≡ n)
    × (m.event_id ≡ e.event_id)
    × (m.payload ≡ e)
    × ((k : ℕ) × (n ≡ k + 1) × IsNumbered k es ms)
IsNumbered n _ _ = ⊥

-- All events are of one trace.
abbrev pub OneTrace : List TaskEvent → Type 0
OneTrace es = (trace : String) × All (λ e. e.trace_id ≡ trace) es

-- A checkpoint is of an event that the task has.
abbrev pub CheckpointWithin : Option Checkpoint → ℕ → Type 0
CheckpointWithin none n = Unit
CheckpointWithin (some c) n = c.event_seq ≤ n

pub record IsWellFormed (t : Task) : Type 0 where
  pub numbered : IsNumbered t.last_event_seq t.events t.outbox
  pub one_trace : OneTrace t.events
  pub within : CheckpointWithin t.checkpoint t.last_event_seq
  pub ended : is_terminal t.status ≡ true → t.checkpoint ≡ none

latest_le :
    (es : List TaskEvent) (n : ℕ) (ms : List OutboxMessage) {f : TaskEvent}
    → IsNumbered n es ms
    → latest es ≡ some f
    → f.seq ≤ n
unfolding latest
latest_le [] n ms w h = cc
latest_le (e ∷ es) n [] w h = absurd w
latest_le (e ∷ es) n (m ∷ ms) w h = elim (Option-cases (latest es)) [
  | inl empty ↦ ground arith
  | inr (g, found) ↦ ground (arith, latest_le es w.4.0 ms {f = g} w.4.2 found)
]

-- The event with the greatest number is the last one.
latest_head :
    (e : TaskEvent) (es : List TaskEvent) (n : ℕ) (ms : List OutboxMessage)
    → IsNumbered n (e ∷ es) ms
    → latest (e ∷ es) ≡ some e
unfolding latest
latest_head e es n [] w = absurd w
latest_head e es n (m ∷ ms) w = elim (Option-cases (latest es)) [
  | inl empty ↦ ground arith
  | inr (g, found) ↦ ground (arith, latest_le es w.4.0 ms {f = g} w.4.2 found)
]

extended :
    (trace : String) (new e : TaskEvent) (es : List TaskEvent)
    → All (λ f. f.trace_id ≡ trace) (e ∷ es)
    → new.trace_id ≡ e.trace_id
    → OneTrace (new ∷ e ∷ es)
extended trace new e es a h = (trace, (ground (arith, a.0), a))

append_trace :
    (source : Source) (t : Task) (event_type : String) (payload : Json) (es : List TaskEvent)
    → t.events ≡ es
    → IsWellFormed t
    → OneTrace (next_event source t event_type payload ∷ es)
unfolding next_event
append_trace source t event_type payload [] q w = (_, (refl, tt))
append_trace source t event_type payload (e ∷ es) q w =
    let last : latest t.events ≡ some e =
      subst (λ fs. latest fs ≡ some e) (sym q)
        (latest_head e es t.last_event_seq t.outbox
          (subst (λ fs. IsNumbered t.last_event_seq fs t.outbox) q w.numbered)) in
    let (trace, all) = subst OneTrace q w.one_trace in
    extended trace (next_event source t event_type payload) e es all (ground (arith, last))

kept_within :
    (s : Option TaskStatus) (c : Option Checkpoint) (n : ℕ)
    → CheckpointWithin c n
    → CheckpointWithin (kept_checkpoint s c) (n + 1)
unfolding kept_checkpoint
kept_within none none n h = tt
kept_within none (some c) n h = omega (arith, h)
kept_within (some s) none n h = elim (Bool-cases (is_terminal s)) [
  | inl e ↦ rw e tt
  | inr e ↦ rw e tt
]
kept_within (some s) (some c) n h = elim (Bool-cases (is_terminal s)) [
  | inl e ↦ rw e tt
  | inr e ↦ rw e (omega (arith, h))
]

append_IsWellFormed :
    (source : Source) (t : Task) (event_type : String) (payload : Json) (s : Option TaskStatus)
    → IsWellFormed t
    → IsWellFormed (append_event_record source t event_type payload s)
unfolding append_event_record kept_checkpoint status_or to_outbox next_event
append_IsWellFormed source t event_type payload s w = record {
  numbered = (refl, refl, refl, refl, (t.last_event_seq, refl, w.numbered));
  one_trace = append_trace source t event_type payload t.events refl w;
  within = kept_within s t.checkpoint t.last_event_seq w.within;
  ended = λ q. ground (arith, w.ended);
}

rebound_within :
    (source : Source) (t : Task) (c : Option Checkpoint)
    → CheckpointWithin (rebound t.last_event_seq (source.clock t.last_event_seq) c) t.last_event_seq
unfolding rebound
rebound_within source t none = tt
rebound_within source t (some c) = omega arith

rebind_IsWellFormed :
    (source : Source) (t : Task)
    → is_terminal t.status ≡ false
    → IsWellFormed t
    → IsWellFormed (rebind_task_checkpoint source t)
unfolding rebind_task_checkpoint
rebind_IsWellFormed source t live w = record {
  numbered = w.numbered;
  one_trace = w.one_trace;
  within = rebound_within source t t.checkpoint;
  ended = λ q. absurd (ground arith);
}

mark_IsWellFormed :
    (source : Source) (now : ℕ) (reason : Option String) (by : String) (t : Task) (a : Approval)
    → IsWellFormed t
    → IsWellFormed (mark_approval source now reason by t a)
unfolding mark_approval
mark_IsWellFormed source now reason by t a w =
    append_IsWellFormed source
      (record t { approvals = set_approval (cancelled_approval now reason by a) t.approvals }) _ _
      none
      (record {
        numbered = w.numbered;
        one_trace = w.one_trace;
        within = w.within;
        ended = w.ended;
      })

cancel_call-IsWellFormed :
    (source : Source) (now : ℕ) (t : Task) (c : ToolCall)
    → IsWellFormed t
    → IsWellFormed (cancel_call source now t c)
unfolding cancel_call
cancel_call-IsWellFormed source now t c w =
    let payload = cancelled_call_payload (cancelled_call now c) in
    let n : IsWellFormed (append_event_record source t "tool.cancelled" payload none) =
      append_IsWellFormed source t "tool.cancelled" payload none w in
    elim (Bool-cases (is_requested c.status)) [
      | inl waits ↦ rw waits (record {
        numbered = n.numbered;
        one_trace = n.one_trace;
        within = n.within;
        ended = n.ended;
      })
      | inr done ↦ rw done w
    ]

live_after :
    (source : Source) (t : Task) (event_type : String) (payload : Json) (target : TaskStatus)
    → is_terminal target ≡ false
    → is_terminal (append_event_record source t event_type payload (some target)).status ≡ false
unfolding append_event_record status_or
live_after source t event_type payload target live = live

call_IsWellFormed :
    (source : Source) (t : Task) (o : TaskOperation) {u : Task}
    → call source t o ≡ ok u
    → IsWellFormed t
    → IsWellFormed u
unfolding call
call_IsWellFormed source t (append_op event_type payload s) h w =
    subst IsWellFormed (sym (append_event_cases source t event_type payload s h).1)
      (append_IsWellFormed source t event_type payload s w)
call_IsWellFormed source t (transition_op target command reason by) h w =
    elim (transition_task_cases source t target command reason by h) [
      | inl same ↦ subst IsWellFormed (sym same) w
      | inr (event_type, p, _, inl made) ↦
          subst IsWellFormed (sym made) (append_IsWellFormed source t event_type p (some target) w)
      | inr (event_type, p, _, inr (live, made)) ↦ subst IsWellFormed (sym made) (
          rebind_IsWellFormed source (append_event_record source t event_type p (some target))
            (live_after source t event_type p target live)
            (append_IsWellFormed source t event_type p (some target) w))
    ]
call_IsWellFormed source t (cancel_op now reason by) h w =
    elim (cancel_task_cases source now t reason by h) [
      | inl (same, _) ↦ subst IsWellFormed (sym same) w
      | inr (next, p, _, looped, made) ↦ subst IsWellFormed (sym made) (
          append_IsWellFormed source next "task.cancelled" p (some cancelled) (
            invalidate_all_keeps IsWellFormed source now reason by
              (mark_IsWellFormed source now reason by) (cancel_call-IsWellFormed source now)
              (invalidatable t) t looped w))
    ]

-- Whatever the calls, those that raise included: the events of a task stay numbered from 1 to its
-- last number without a gap, all in one trace; each has exactly one outbox message, which carries
-- it; and its checkpoint is of an event that it has, and is gone once the task has ended.
pub run-IsWellFormed :
    (source : Source) (t : Task) (os : List TaskOperation)
    → IsWellFormed t
    → IsWellFormed (run source t os)
unfolding run after
run-IsWellFormed source t [] w = w
run-IsWellFormed source t (o ∷ os) w = elim (Result-cases (call source t o)) [
  | inl (u, done) ↦ rw done (run-IsWellFormed source u os (call_IsWellFormed source t o done w))
  | inr (e, failed) ↦ rw failed (run-IsWellFormed source t os w)
]
