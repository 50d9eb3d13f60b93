-- ===== src/Tasks/Status.antt =====
-- backend/src/deskpilot/domain/schemas.py, domain/approvals.py and application/task_service.py: the
-- states of tasks, Tool calls and approvals, and `ALLOWED_TASK_TRANSITIONS`.
use desk_pilot_agent.Base.{String, Bool, true, false, List, [], ◌∷◌, any_of}

pub data TaskStatus : Type 0 where
  created classifying running waiting_approval waiting_reconciliation : TaskStatus
  succeeded failed cancelled paused : TaskStatus

abbrev pub is_terminal : TaskStatus → Bool
is_terminal succeeded = true
is_terminal failed = true
is_terminal cancelled = true
is_terminal _ = false

abbrev pub status_is : TaskStatus → TaskStatus → Bool
status_is created created = true
status_is classifying classifying = true
status_is running running = true
status_is waiting_approval waiting_approval = true
status_is waiting_reconciliation waiting_reconciliation = true
status_is succeeded succeeded = true
status_is failed failed = true
status_is cancelled cancelled = true
status_is paused paused = true
status_is _ _ = false

unfoldable pub status_value : TaskStatus → String
status_value created = "created"
status_value classifying = "classifying"
status_value running = "running"
status_value waiting_approval = "waiting_approval"
status_value waiting_reconciliation = "waiting_reconciliation"
status_value succeeded = "succeeded"
status_value failed = "failed"
status_value cancelled = "cancelled"
status_value paused = "paused"

-- `ALLOWED_TASK_TRANSITIONS`
unfoldable pub allowed_transitions : TaskStatus → List TaskStatus
allowed_transitions created = classifying ∷ cancelled ∷ failed ∷ []
allowed_transitions classifying = running ∷ cancelled ∷ failed ∷ []
allowed_transitions running =
    paused ∷ waiting_approval ∷ waiting_reconciliation ∷ cancelled ∷ succeeded ∷ failed ∷ []
allowed_transitions waiting_approval = running ∷ cancelled ∷ failed ∷ []
allowed_transitions waiting_reconciliation = running ∷ cancelled ∷ failed ∷ []
allowed_transitions paused = running ∷ cancelled ∷ failed ∷ []
allowed_transitions succeeded = []
allowed_transitions failed = []
allowed_transitions cancelled = []

-- `target in ALLOWED_TASK_TRANSITIONS[current]`
unfoldable pub is_allowed : TaskStatus → TaskStatus → Bool
unfolding allowed_transitions any_of
is_allowed current target = any_of (status_is target) (allowed_transitions current)

pub data ToolCallStatus : Type 0 where
  requested call_running call_succeeded call_failed call_cancelled call_unknown : ToolCallStatus

abbrev pub is_requested : ToolCallStatus → Bool
is_requested requested = true
is_requested _ = false

pub data ApprovalStatus : Type 0 where
  pending approved rejected expired approval_cancelled : ApprovalStatus

abbrev pub is_pending : ApprovalStatus → Bool
is_pending pending = true
is_pending _ = false

abbrev pub is_approved : ApprovalStatus → Bool
is_approved approved = true
is_approved _ = false
