-- ===== src/Outbox/Marks.antt =====
-- backend/src/deskpilot/application/outbox_publisher.py: what becomes of a claimed message, dead
-- letters, and the calls of publishers that share the table.
use desk_pilot_agent.Base.{
  ℕ, suc, zero, ◌+◌, ◌*◌, String, Bool, false, not, ◌&&◌, ◌==◌, Option, none, some, List, [], ◌∷◌,
  ltb, leb, is_some, if◌then◌else◌, keep,
}
use desk_pilot_agent.Base.Text.{str_eq}
use desk_pilot_agent.Outbox.Rows.{OutboxRow, Table, is_text, update_where, rowcount}
use desk_pilot_agent.Outbox.Publisher.{ClaimedOutboxMessage, Publisher, claim_batch}

-- `claim_expires_at > now`
unfoldable pub still_claimed : Option ℕ → ℕ → Bool
still_claimed none now = false
still_claimed (some expiry) now = ltb now expiry

-- The row is unpublished and its claim is the message's.
unfoldable pub holds_claim : Publisher → ℕ → ClaimedOutboxMessage → OutboxRow → Bool
holds_claim p now m r =
    str_eq r.message_id m.message_id
    && not (is_some r.published_at)
    && is_text r.claim_owner_id p.instance_id
    && r.claim_fencing_token == m.fencing_token
    && is_text r.delivery_id m.delivery_id
    && still_claimed r.claim_expires_at now

-- And it is no dead letter.
unfoldable pub holds_live_claim : Publisher → ℕ → ClaimedOutboxMessage → OutboxRow → Bool
holds_live_claim p now m r = holds_claim p now m r && not (is_some r.dead_lettered_at)

unfoldable pub published_row : ℕ → OutboxRow → OutboxRow
published_row now r = record r {
  attempt_count = r.attempt_count + 1;
  published_at = some now;
  last_error = none;
  claim_owner_id = none;
  claim_acquired_at = none;
  claim_expires_at = none;
}

-- `_mark_published`
unfoldable pub mark_published : Publisher → ℕ → ClaimedOutboxMessage → Table → Bool × Table
mark_published p now m rows =
    let test = holds_claim p now m in
    (rowcount test rows == 1, update_where test (published_row now) rows)

-- `2 ** n`
power_two : ℕ → ℕ
power_two zero = 1
power_two (suc n) = 2 * power_two n

abbrev pub min_of : ℕ → ℕ → ℕ
min_of a b = if leb a b then a else b

-- `retry_seconds`
unfoldable pub retry_delay : Publisher → ClaimedOutboxMessage → ℕ
unfolding power_two
retry_delay p m = min_of (p.retry_base * power_two (min_of m.attempt_count 16)) p.retry_max

abbrev pub is_last : Publisher → ClaimedOutboxMessage → Bool
is_last p m = leb p.max_attempts (m.attempt_count + 1)

unfoldable pub failed_row : Publisher → ℕ → ClaimedOutboxMessage → String → OutboxRow → OutboxRow
failed_row p now m error_text r =
    let dead = is_last p m in
    record r {
      attempt_count = m.attempt_count + 1;
      available_at = if dead then now else now + retry_delay p m;
      last_error = some error_text;
      dead_lettered_at = if dead then some now else none;
      dead_letter_reason = if dead then some error_text else none;
      claim_owner_id = none;
      claim_acquired_at = none;
      claim_expires_at = none;
    }

pub data Failure : Type 0 where
  fenced dead_lettered retry : Failure

-- `_mark_failed`
unfoldable pub mark_failed : Publisher → ℕ → ClaimedOutboxMessage → String → Table → Failure × Table
mark_failed p now m error_text rows =
    let test = holds_live_claim p now m in
    (
      (if not (rowcount test rows == 1)
          then fenced
          else if is_last p m
          then dead_lettered
          else retry),
      update_where test (failed_row p now m error_text) rows,
    )

unfoldable pub is_dead_letter : String → OutboxRow → Bool
is_dead_letter id r =
    str_eq r.message_id id && not (is_some r.published_at) && is_some r.dead_lettered_at

unfoldable pub requeued_row : ℕ → OutboxRow → OutboxRow
requeued_row now r = record r {
  attempt_count = 0;
  available_at = now;
  last_error = none;
  dead_lettered_at = none;
  dead_letter_reason = none;
  delivery_id = none;
  delivery_attempted_at = none;
  claim_owner_id = none;
  claim_acquired_at = none;
  claim_expires_at = none;
  claim_fencing_token = r.claim_fencing_token + 1;
}

-- `requeue_dead_letter`
unfoldable pub requeue_dead_letter : ℕ → String → Table → Bool × Table
requeue_dead_letter now id rows = (
  rowcount (is_dead_letter id) rows == 1,
  update_where (is_dead_letter id) (requeued_row now) rows,
)

-- `published_at < older_than`
unfoldable pub published_before : ℕ → Option ℕ → Bool
published_before older_than none = false
published_before older_than (some t) = ltb t older_than

-- `cleanup_published`, without the count it returns.
unfoldable pub cleanup_published : ℕ → Table → Table
cleanup_published older_than rows =
    keep (λ r. not (published_before older_than r.published_at)) rows

-- The calls of publishers that share the table, each at its time.
pub data OutboxOperation : Type 0 where
  claim_op : Publisher → (String → ℕ → String) → OutboxOperation
  published_op : Publisher → ClaimedOutboxMessage → OutboxOperation
  failed_op : Publisher → ClaimedOutboxMessage → String → OutboxOperation
  requeue_op : String → OutboxOperation
  cleanup_op : ℕ → OutboxOperation

unfoldable pub table_after : OutboxOperation → ℕ → Table → Table
table_after (claim_op p uuid) now rows = (claim_batch p now uuid rows).1
table_after (published_op p m) now rows = (mark_published p now m rows).1
table_after (failed_op p m error_text) now rows = (mark_failed p now m error_text rows).1
table_after (requeue_op id) now rows = (requeue_dead_letter now id rows).1
table_after (cleanup_op older_than) now rows = cleanup_published older_than rows

unfoldable pub run_outbox : List (OutboxOperation × ℕ) → Table → Table
run_outbox [] rows = rows
run_outbox ((o, now) ∷ rest) rows = run_outbox rest (table_after o now rows)
