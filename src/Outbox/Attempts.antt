-- ===== src/Outbox/Attempts.antt =====
-- The attempt counts of the messages that are still to be published are bounded.
use desk_pilot_agent.Base.{
  ℕ, ◌+◌, ◌≤◌, ◌<◌, String, ◌≡◌, Bool, true, none, List, [], ◌∷◌, keep, All, arith, Bool-cases, inl,
  inr,
}
use desk_pilot_agent.Outbox.Rows.{OutboxRow, Table, changed, update_where}
use desk_pilot_agent.Outbox.Publisher.{
  Publisher, claimed_row, claims_row, claim_each, claim_batch, candidates,
}
use desk_pilot_agent.Outbox.Marks.{
  published_op, holds_claim, holds_live_claim, published_row, mark_published, failed_row,
  mark_failed, is_dead_letter, requeued_row, requeue_dead_letter, published_before,
  cleanup_published, OutboxOperation, claim_op, failed_op, requeue_op, cleanup_op, table_after,
  run_outbox,
}

-- A message that is still to be published has a count below the limit.
abbrev pub IsBounded : ℕ → OutboxRow → Type 0
IsBounded n r = r.published_at ≡ none → r.dead_lettered_at ≡ none → r.attempt_count < n

-- The publisher of a call, if it has one, gives up after `n` attempts.
abbrev pub LimitedTo : ℕ → OutboxOperation → Type 0
LimitedTo n (failed_op p m e) = p.max_attempts ≡ n
LimitedTo n _ = Unit

All-update_where :
    (n : ℕ) (p : OutboxRow → Bool) (f : OutboxRow → OutboxRow) (rows : Table)
    → ((r : OutboxRow) → p r ≡ true → IsBounded n r → IsBounded n (f r))
    → All (IsBounded n) rows
    → All (IsBounded n) (update_where p f rows)
unfolding update_where changed
All-update_where n p f [] h a = tt
All-update_where n p f (r ∷ rows) h (b, a) = elim (Bool-cases (p r)) [
  | inl hit ↦ rw hit (h r hit b, All-update_where n p f rows h a)
  | inr miss ↦ rw miss (b, All-update_where n p f rows h a)
]

claim_each-IsBounded :
    (n : ℕ) (p : Publisher) (now : ℕ) (uuid : String → ℕ → String) (cs rows : Table)
    → All (IsBounded n) rows
    → All (IsBounded n) (claim_each p now uuid cs rows).1
unfolding claim_each claimed_row
claim_each-IsBounded n p now uuid [] rows a = a
claim_each-IsBounded n p now uuid (c ∷ cs) rows a = claim_each-IsBounded n p now uuid cs _ (
    All-update_where n (claims_row now c)
      (claimed_row p now (uuid c.message_id now) (c.claim_fencing_token + 1)) rows (λ r h b. b) a)

cleanup-IsBounded :
    (n older_than : ℕ) (rows : Table)
    → All (IsBounded n) rows
    → All (IsBounded n) (cleanup_published older_than rows)
unfolding cleanup_published keep
cleanup-IsBounded n older_than [] a = tt
cleanup-IsBounded n older_than (r ∷ rows) (b, a) =
    elim (Bool-cases (published_before older_than r.published_at)) [
      | inl old ↦ rw old (cleanup-IsBounded n older_than rows a)
      | inr recent ↦ rw recent (b, cleanup-IsBounded n older_than rows a)
    ]

table_after-IsBounded :
    (n : ℕ) (o : OutboxOperation) (now : ℕ) (rows : Table)
    → 1 ≤ n
    → LimitedTo n o
    → All (IsBounded n) rows
    → All (IsBounded n) (table_after o now rows)
unfolding table_after claim_batch mark_published mark_failed requeue_dead_letter published_row
    failed_row requeued_row
table_after-IsBounded n (claim_op p uuid) now rows one l a =
    claim_each-IsBounded n p now uuid (candidates p now rows) rows a
table_after-IsBounded n (published_op p m) now rows one l a =
    All-update_where n (holds_claim p now m) (published_row now) rows (λ r h b q d. cc) a
table_after-IsBounded n (failed_op p m e) now rows one l a =
    All-update_where n (holds_live_claim p now m) (failed_row p now m e) rows
      (λ r h b q d. ground arith) a
table_after-IsBounded n (requeue_op id) now rows one l a =
    All-update_where n (is_dead_letter id) (requeued_row now) rows (λ r h b q d. one) a
table_after-IsBounded n (cleanup_op older_than) now rows one l a =
    cleanup-IsBounded n older_than rows a

-- Where the publishers of all calls give up after `n` attempts, `n` is at least 1, and the table
-- starts so, then after any calls the stored attempt count of every message that is neither
-- published nor a dead letter is below `n`. This bounds the count and not the deliveries:
-- `requeue_dead_letter` resets it, and a delivery whose claim has expired or been replaced does not
-- raise it.
pub run_outbox-IsBounded :
    (n : ℕ) (os : List (OutboxOperation × ℕ)) (rows : Table)
    → 1 ≤ n
    → All (λ o. LimitedTo n o.0) os
    → All (IsBounded n) rows
    → All (IsBounded n) (run_outbox os rows)
unfolding run_outbox
run_outbox-IsBounded n [] rows one l a = a
run_outbox-IsBounded n ((o, now) ∷ os) rows one (l, ls) a =
    run_outbox-IsBounded n os (table_after o now rows) one ls
      (table_after-IsBounded n o now rows one l a)
