-- ===== src/Outbox/Rows.antt =====
-- backend/src/deskpilot/infrastructure/models.py: the rows of the outbox, and updates of them.
use desk_pilot_agent.Base.{
  ℕ, String, Bool, false, Option, none, some, List, if◌then◌else◌, length, keep, map,
}
use desk_pilot_agent.Base.Text.{str_eq}
use desk_pilot_agent.Base.Json.{Json}

-- `OutboxMessageRecord`
pub record OutboxRow : Type 0 where
  pub message_id : String
  pub task_id : String
  pub event_id : String
  pub event_seq : ℕ
  pub topic : String
  pub payload : Json
  pub attempt_count : ℕ
  pub available_at : ℕ
  pub published_at : Option ℕ
  pub delivery_id : Option String
  pub delivery_attempted_at : Option ℕ
  pub dead_lettered_at : Option ℕ
  pub dead_letter_reason : Option String
  pub last_error : Option String
  pub claim_owner_id : Option String
  pub claim_acquired_at : Option ℕ
  pub claim_expires_at : Option ℕ
  pub claim_fencing_token : ℕ
  pub created_at : ℕ

abbrev pub Table : Type 0
Table = List OutboxRow

-- `column == value`, which an absent value does not satisfy.
unfoldable pub is_text : Option String → String → Bool
is_text none s = false
is_text (some t) s = str_eq t s

-- The row that an `UPDATE` leaves.
unfoldable pub changed : (OutboxRow → Bool) → (OutboxRow → OutboxRow) → OutboxRow → OutboxRow
changed p f r = if p r then f r else r

-- The table after an `UPDATE … WHERE`.
unfoldable pub update_where : (OutboxRow → Bool) → (OutboxRow → OutboxRow) → Table → Table
update_where p f rows = map (changed p f) rows

-- Its row count.
unfoldable pub rowcount : (OutboxRow → Bool) → Table → ℕ
rowcount p rows = length (keep p rows)
