-- ===== src/Tasks/Cancelled.antt =====
-- What a task leaves when it is cancelled.
use desk_pilot_agent.Base.{
  ℕ, String, ◌≡◌, refl, sym, subst, ap, ◌∙◌, Bool, true, false, ◌||◌, Option, none, List, [], ◌∷◌,
  keep, All, arith, ◌≢◌, inl, inr, Bool-cases,
}
use desk_pilot_agent.Base.Text.{str_eq, eq_refl}
use desk_pilot_agent.Base.Result.{ok, bind_ok, Result-cases}
use desk_pilot_agent.Tasks.Status.{pending, approved, cancelled}
use desk_pilot_agent.Tasks.Events.{
  Approval, ToolCall, Task, Source, append_event_record, status_or, kept_checkpoint,
}
use desk_pilot_agent.Tasks.Cancel.{
  is_invalidatable, insert_approval, by_requested_at, invalidatable, cancelled_approval,
  set_approval, get_tool_call, cancel_call, mark_approval, invalidate, invalidate_all, cancel_task,
}
use desk_pilot_agent.Tasks.Runs.{cancel_task_cases}

unfoldable has_id : String → List Approval → Bool
has_id id [] = false
has_id id (a ∷ l) = str_eq id a.approval_id || has_id id l

-- Every approval that could still be used is among those with the IDs of `l`.
abbrev Covered : List Approval → List Approval → Type 0
Covered l xs = All (λ a. is_invalidatable a ≡ true → has_id a.approval_id l ≡ true) xs

has_id_insert :
    (id : String) (a : Approval) (l : List Approval)
    → has_id id (insert_approval a l) ≡ (str_eq id a.approval_id || has_id id l)
unfolding has_id insert_approval
has_id_insert id a [] = refl
has_id_insert id a (b ∷ l) = ground (arith, has_id_insert id a l)

has_id_sort : (id : String) (l : List Approval) → has_id id (by_requested_at l) ≡ has_id id l
unfolding has_id by_requested_at
has_id_sort id [] = refl
has_id_sort id (a ∷ l) = ground (arith, has_id_insert id a (by_requested_at l), has_id_sort id l)

Covered-map :
    (l m xs : List Approval)
    → ((id : String) → has_id id l ≡ true → has_id id m ≡ true)
    → Covered l xs
    → Covered m xs
Covered-map l m [] f c = tt
Covered-map l m (x ∷ xs) f (c, cs) = (λ h. f x.approval_id (c h), Covered-map l m xs f cs)

Covered-keep : (xs : List Approval) → Covered (keep is_invalidatable xs) xs
unfolding keep has_id
Covered-keep [] = tt
Covered-keep (x ∷ xs) = (
  (λ h. ground (arith, eq_refl x.approval_id)),
  Covered-map (keep is_invalidatable xs) (keep is_invalidatable (x ∷ xs)) xs (λ id h. ground arith)
      (Covered-keep xs),
)

Covered-start : (t : Task) → Covered (invalidatable t) t.approvals
unfolding invalidatable
Covered-start t =
    Covered-map (keep is_invalidatable t.approvals)
      (by_requested_at (keep is_invalidatable t.approvals)) t.approvals
      (λ id h. has_id_sort id (keep is_invalidatable t.approvals) ∙ h) (Covered-keep t.approvals)

Covered-set :
    (now : ℕ) (reason : Option String) (by : String) (a : Approval) (l xs : List Approval)
    → Covered (a ∷ l) xs
    → Covered l (set_approval (cancelled_approval now reason by a) xs)
unfolding set_approval cancelled_approval has_id is_invalidatable
Covered-set now reason by a l [] c = tt
Covered-set now reason by a l (x ∷ xs) (c, cs) =
    elim (Bool-cases (str_eq x.approval_id a.approval_id)) [
      | inl same ↦ rw same ((λ h. ground arith), Covered-set now reason by a l xs cs)
      | inr other ↦ rw other ((λ h. ground (arith, c h)), Covered-set now reason by a l xs cs)
    ]

mark_approvals :
    (source : Source) (now : ℕ) (reason : Option String) (by : String) (t : Task) (a : Approval)
    → (mark_approval source now reason by t a).approvals
      ≡ set_approval (cancelled_approval now reason by a) t.approvals
unfolding mark_approval append_event_record
mark_approvals source now reason by t a = refl

cancel_call_approvals :
    (source : Source) (now : ℕ) (t : Task) (c : ToolCall)
    → (cancel_call source now t c).approvals ≡ t.approvals
unfolding cancel_call append_event_record
cancel_call_approvals source now t c = ground arith

-- What the loop's body makes.
pub invalidate_cases :
    (source : Source) (now : ℕ) (reason : Option String) (by : String) (t : Task) (a : Approval)
    {u : Task}
    → invalidate source now reason by t a ≡ ok u
    → (c : ToolCall) × (get_tool_call (mark_approval source now reason by t a).calls a.call_id
        ≡ ok c)
      × (u ≡ cancel_call source now (mark_approval source now reason by t a) c)
unfolding invalidate
invalidate_cases source now reason by t a h =
    elim (Result-cases (get_tool_call (mark_approval source now reason by t a).calls a.call_id)) [
      | inl (c, found) ↦ (c, found, ground arith)
      | inr (e, missing) ↦ absurd (ground arith)
    ]

loop_covers :
    (source : Source) (now : ℕ) (reason : Option String) (by : String) (l : List Approval)
    (t : Task) {u : Task}
    → invalidate_all source now reason by l t ≡ ok u
    → Covered l t.approvals
    → Covered [] u.approvals
unfolding invalidate_all
loop_covers source now reason by [] t {u} h c =
    let same : t ≡ u = ground arith in subst (λ (r : Task). Covered [] r.approvals) same c
loop_covers source now reason by (a ∷ l) t h c =
    let (v, first, rest) = bind_ok (invalidate source now reason by t a) _ h in
    let (d, found, made) = invalidate_cases source now reason by t a first in
    loop_covers source now reason by l v rest (
      subst (Covered l)
        (sym (
          ap (λ (r : Task). r.approvals) made
          ∙ cancel_call_approvals source now (mark_approval source now reason by t a) d
          ∙ mark_approvals source now reason by t a))
        (Covered-set now reason by a l t.approvals c))

-- An approval that no call can use any more, unless one has used it.
abbrev pub IsSpent : Approval → Type 0
IsSpent a = a.consumed_at ≡ none → (a.status ≢ pending) × (a.status ≢ approved)

uncovered : (xs : List Approval) → Covered [] xs → All IsSpent xs
unfolding has_id is_invalidatable
uncovered [] c = tt
uncovered (x ∷ xs) (c, cs) =
    ((λ n. ((λ e. ground (arith, c)), (λ e. ground (arith, c)))), uncovered xs cs)

-- A task that was not cancelled and that `cancel_task` cancels is left cancelled, without a
-- checkpoint, and with no approval that is pending, or approved and not consumed.
pub cancel_task-approvals :
    (source : Source) (now : ℕ) (t : Task) (reason : Option String) (by : String) (u : Task)
    → cancel_task source now t reason by ≡ ok u
    → t.status ≢ cancelled
    → (u.status ≡ cancelled) × (u.checkpoint ≡ none) × All IsSpent u.approvals
unfolding append_event_record status_or kept_checkpoint
cancel_task-approvals source now t reason by u h live =
    elim (cancel_task_cases source now t reason by h) [
      | inl (same, there) ↦ absurd (live there)
      | inr (next, p, _, looped, made) ↦ (
        ap (λ (r : Task). r.status) made,
        ap (λ (r : Task). r.checkpoint) made,
        subst (λ (r : Task). All IsSpent r.approvals) (sym made)
            (uncovered next.approvals
              (loop_covers source now reason by (invalidatable t) t looped (Covered-start t))),
      )
    ]
