-- ===== src/Tests/Journal.antt =====
-- Runs of the journal of controlled commits.
use desk_pilot_agent.Base.{◌↔◌}
use desk_pilot_agent.Runner.Receipt.{ToolCommitReceipt, validate_receipt, is_semver, is_tool_name}
use desk_pilot_agent.Runner.Journal.Receipts.{IsReceipt, validate_receipt_iff}
use desk_pilot_agent.Base.{ℕ, ◌≡◌, refl, true, false, none, List, [], ◌∷◌}
use mathlib.Core.List.{Mem, mem-cons_self}
use desk_pilot_agent.Base.Json.{obj, end, is_digit}
use desk_pilot_agent.Base.Result.{ok}
use desk_pilot_agent.Runner.Journal.{
  prepared, no_effect, PreparedCommitRecord, validate_binding, stage, existing_for, progress,
}
use desk_pilot_agent.Runner.Journal.Operations.{
  Operation, stage_op, committing_op, committed_op, unknown_op, apply_all,
}
use desk_pilot_agent.Runner.Journal.Invariant.{IsUnique, apply_all-IsUnique}
use desk_pilot_agent.Runner.Journal.History.{Follows, row_history, ended_row_stays, stage_again}
use desk_pilot_agent.Tests.Policy.{digest_a}

abbrev attempt : PreparedCommitRecord
attempt = record {
  receipt_id = digest_a;
  call_id = "c1";
  tool_name = "file.move";
  tool_version = "1.0.0";
  authorization_id = digest_a;
  approval_id = "ap";
  preview_hash = digest_a;
  prepare_digest = digest_a;
  idempotency_key_digest = digest_a;
  binding_digest = digest_a;
  state = prepared;
  prepared_payload = obj end;
  commit_started_at = none;
  receipt = none;
  created_at = 3;
  updated_at = 3;
}

abbrev moved : ToolCommitReceipt
moved = record {
  receipt_id = digest_a;
  call_id = "c1";
  tool_name = "file.move";
  tool_version = "1.0.0";
  authorization_id = digest_a;
  approval_id = "ap";
  preview_hash = digest_a;
  prepare_digest = digest_a;
  idempotency_key_digest = digest_a;
  resource_versions_before = record { source = digest_a; destination = "absent" };
  resource_versions_after = record { source = "absent"; destination = digest_a };
  commit_started_at = 4;
  receipt_recorded_at = 5;
}

abbrev ended : PreparedCommitRecord
ended = record attempt { state = no_effect }

abbrev calls : List (Operation × ℕ)
calls =
    (stage_op attempt, 3)
    ∷ (committing_op digest_a 4, 4)
    ∷ (committed_op moved, 5)
    ∷ (unknown_op digest_a, 6)
    ∷ []

row_history_example :
    (s : PreparedCommitRecord) × Mem s (apply_all (attempt ∷ []) calls) × Follows attempt s
row_history_example = row_history (attempt ∷ []) calls attempt mem-cons_self

ended_row_stays_example : Mem ended (apply_all (ended ∷ []) calls)
unfolding progress
ended_row_stays_example = ended_row_stays (ended ∷ []) calls ended mem-cons_self refl

apply_all-IsUnique_example : IsUnique (apply_all [] calls)
apply_all-IsUnique_example = apply_all-IsUnique [] calls tt

attempt_staged : stage [] attempt ≡ ok (attempt, attempt ∷ [])
unfolding stage existing_for
attempt_staged = refl

stage_again_example :
    (t : PreparedCommitRecord) × (stage (attempt ∷ []) attempt ≡ ok (t, attempt ∷ []))
    × (validate_binding t attempt ≡ ok tt)
stage_again_example = stage_again [] attempt attempt (attempt ∷ []) attempt_staged

validate_receipt_iff_example :
    (validate_receipt is_digit moved ≡ ok moved) ↔ IsReceipt is_digit moved
validate_receipt_iff_example = validate_receipt_iff is_digit moved

moved_accepted : validate_receipt is_digit moved ≡ ok moved
unfolding validate_receipt is_digit
moved_accepted = refl

-- A version number has no leading zeros, and a tool's name has a dot.
patterns :
    (is_semver is_digit "1.02.0" ≡ false)
    × (is_semver is_digit "10.0.42" ≡ true)
    × (is_tool_name "move" ≡ false)
    × (is_tool_name "file.move_1" ≡ true)
unfolding is_semver is_tool_name is_digit
patterns = (refl, refl, refl, refl)
