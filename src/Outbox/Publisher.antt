-- ===== src/Outbox/Publisher.antt =====
-- backend/src/deskpilot/application/outbox_publisher.py: the claims of `OutboxPublisher`.
use desk_pilot_agent.Base.{
  ℕ, suc, zero, ◌+◌, String, Bool, true, false, not, ◌&&◌, ◌==◌, Option, some, List, [], ◌∷◌, ltb,
  leb, is_some, if◌then◌else◌, keep, any_of,
}
use desk_pilot_agent.Base.Text.{str_eq, str_lt}
use desk_pilot_agent.Base.Json.{Json}
use desk_pilot_agent.Outbox.Rows.{OutboxRow, Table, update_where, rowcount}

-- The configuration of a publisher.
pub record Publisher : Type 0 where
  pub instance_id : String
  pub batch_size : ℕ
  pub claim_ttl : ℕ
  pub retry_base : ℕ
  pub retry_max : ℕ
  pub max_attempts : ℕ

-- `ClaimedOutboxMessage`
pub record ClaimedOutboxMessage : Type 0 where
  pub message_id : String
  pub topic : String
  pub payload : Json
  pub attempt_count : ℕ
  pub fencing_token : ℕ
  pub delivery_id : String
  pub attempted_at : ℕ

-- Not yet published, and not a dead letter.
unfoldable pub is_pending : OutboxRow → Bool
is_pending r = not (is_some r.published_at) && not (is_some r.dead_lettered_at)

-- No claim, or one that has expired.
unclaimed : Option String → Option ℕ → ℕ → Bool
unclaimed (some _) (some expiry) now = leb expiry now
unclaimed _ _ now = true

-- The conditions on the row alone.
unfoldable pub is_claimable : ℕ → OutboxRow → Bool
unfolding is_pending unclaimed
is_claimable now r =
    is_pending r && leb r.available_at now && unclaimed r.claim_owner_id r.claim_expires_at now

-- `exists(…)`: a pending message of an earlier event of the same task.
unfoldable pub has_earlier : Table → OutboxRow → Bool
unfolding any_of is_pending
has_earlier rows r =
    any_of (λ s. str_eq s.task_id r.task_id && is_pending s && ltb s.event_seq r.event_seq) rows

-- `ORDER BY created_at, task_id, event_seq`
unfoldable pub goes_first : OutboxRow → OutboxRow → Bool
unfolding str_lt
goes_first a b =
    if ltb a.created_at b.created_at
    then true
    else if not (a.created_at == b.created_at)
    then false
    else if str_lt a.task_id b.task_id
    then true
    else str_eq a.task_id b.task_id && ltb a.event_seq b.event_seq

unfoldable pub insert_row : OutboxRow → Table → Table
insert_row r [] = r ∷ []
insert_row r (s ∷ rows) =
    let rest = insert_row r rows in if goes_first s r then s ∷ rest else r ∷ s ∷ rows

unfoldable pub sort_rows : Table → Table
sort_rows [] = []
sort_rows (r ∷ rows) = insert_row r (sort_rows rows)

-- `LIMIT`
unfoldable pub take_rows : ℕ → Table → Table
take_rows zero rows = []
take_rows (suc n) [] = []
take_rows (suc n) (r ∷ rows) = r ∷ take_rows n rows

-- The query of `_claim_batch`.
unfoldable pub candidates : Publisher → ℕ → Table → Table
candidates p now rows =
    take_rows p.batch_size
      (sort_rows (keep (λ r. is_claimable now r && not (has_earlier rows r)) rows))

-- What the claim of a candidate writes. `uuid` gives the fresh ID of the delivery.
unfoldable pub claimed_row : Publisher → ℕ → String → ℕ → OutboxRow → OutboxRow
claimed_row p now delivery fence r = record r {
  claim_owner_id = some p.instance_id;
  claim_acquired_at = some now;
  claim_expires_at = some (now + p.claim_ttl);
  claim_fencing_token = fence;
  delivery_id = some delivery;
  delivery_attempted_at = some now;
}

unfoldable pub claims_row : ℕ → OutboxRow → OutboxRow → Bool
claims_row now candidate r =
    str_eq r.message_id candidate.message_id
    && is_claimable now r
    && r.claim_fencing_token == candidate.claim_fencing_token

abbrev pub claimed_message : ℕ → String → OutboxRow → ClaimedOutboxMessage
claimed_message now delivery r = record {
  message_id = r.message_id;
  topic = r.topic;
  payload = r.payload;
  attempt_count = r.attempt_count;
  fencing_token = r.claim_fencing_token + 1;
  delivery_id = delivery;
  attempted_at = now;
}

-- The loop of `_claim_batch`, with the messages it claimed in their order.
unfoldable pub claim_each :
    Publisher → ℕ → (String → ℕ → String) → Table → Table → List ClaimedOutboxMessage × Table
claim_each p now uuid [] rows = ([], rows)
claim_each p now uuid (c ∷ cs) rows =
    let delivery = uuid c.message_id now in
    let test = claims_row now c in
    let written = update_where test (claimed_row p now delivery (c.claim_fencing_token + 1)) rows in
    let (rest, last) = claim_each p now uuid cs written in
    ((if rowcount test rows == 1 then claimed_message now delivery c ∷ rest else rest), last)

-- `_claim_batch`
unfoldable pub claim_batch :
    Publisher → ℕ → (String → ℕ → String) → Table → List ClaimedOutboxMessage × Table
claim_batch p now uuid rows = claim_each p now uuid (candidates p now rows) rows
