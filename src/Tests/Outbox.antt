-- ===== src/Tests/Outbox.antt =====
-- Runs of outbox publishers.
use desk_pilot_agent.Base.{ℕ, ◌≤◌, ◌≡◌, false, none, some, List, [], ◌∷◌, length, All, arith, refl}
use desk_pilot_agent.Base.Json.{null}
use desk_pilot_agent.Outbox.Rows.{OutboxRow}
use desk_pilot_agent.Outbox.Publisher.{Publisher, ClaimedOutboxMessage, claim_batch}
use desk_pilot_agent.Outbox.Marks.{
  mark_published, mark_failed, fenced, OutboxOperation, claim_op, failed_op, requeue_op, cleanup_op,
  run_outbox,
}
use desk_pilot_agent.Outbox.Versions.{Versions, Cleaned, run_outbox-Versions}
use desk_pilot_agent.Outbox.Fencing.{stale_claim_fenced}
use desk_pilot_agent.Outbox.Order.{Claims, IsNext, claim_batch-IsNext}
use desk_pilot_agent.Outbox.Attempts.{IsBounded, run_outbox-IsBounded}

abbrev publisher : Publisher
publisher = record {
  instance_id = "p";
  batch_size = 10;
  claim_ttl = 15;
  retry_base = 1;
  retry_max = 30;
  max_attempts = 8;
}

abbrev row : OutboxRow
row = record {
  message_id = "m";
  task_id = "t";
  event_id = "e";
  event_seq = 1;
  topic = "task.event";
  payload = null;
  attempt_count = 0;
  available_at = 0;
  published_at = none;
  delivery_id = some "d2";
  delivery_attempted_at = some 3;
  dead_lettered_at = none;
  dead_letter_reason = none;
  last_error = none;
  claim_owner_id = some "q";
  claim_acquired_at = some 3;
  claim_expires_at = some 18;
  claim_fencing_token = 2;
  created_at = 0;
}

-- The first claim of the message, which another publisher has replaced.
abbrev old_claim : ClaimedOutboxMessage
old_claim = record {
  message_id = "m";
  topic = "task.event";
  payload = null;
  attempt_count = 0;
  fencing_token = 1;
  delivery_id = "d1";
  attempted_at = 1;
}

abbrev outbox_calls : List (OutboxOperation × ℕ)
outbox_calls =
    (claim_op publisher (λ id now. id), 20)
    ∷ (failed_op publisher old_claim "E", 21)
    ∷ (requeue_op "m", 22)
    ∷ (cleanup_op 30, 40)
    ∷ []

run_outbox-Versions_example :
    Versions (Cleaned outbox_calls (row ∷ [])) (row ∷ []) (run_outbox outbox_calls (row ∷ []))
run_outbox-Versions_example = run_outbox-Versions outbox_calls (row ∷ [])

stale_claim_fenced_example :
    (mark_published publisher 41 old_claim (run_outbox outbox_calls (row ∷ []))
      ≡ (false, run_outbox outbox_calls (row ∷ [])))
    × (mark_failed publisher 41 old_claim "E" (run_outbox outbox_calls (row ∷ []))
        ≡ (fenced, run_outbox outbox_calls (row ∷ [])))
stale_claim_fenced_example =
    stale_claim_fenced publisher 41 old_claim "E" outbox_calls (row ∷ []) ((λ _. ground arith), tt)

claim_batch-IsNext_example :
    (length (claim_batch publisher 20 (λ id now. id) (row ∷ [])).0 ≤ 10)
    × All (Claims (IsNext 20 (row ∷ []))) (claim_batch publisher 20 (λ id now. id) (row ∷ [])).0
claim_batch-IsNext_example = claim_batch-IsNext publisher 20 (λ id now. id) (row ∷ [])

run_outbox-IsBounded_example : All (IsBounded 8) (run_outbox outbox_calls (row ∷ []))
run_outbox-IsBounded_example =
    run_outbox-IsBounded 8 outbox_calls (row ∷ []) (ground arith) (tt, (refl, (tt, (tt, tt))))
      ((λ _ _. ground arith), tt)
