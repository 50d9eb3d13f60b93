-- ===== src/Runner/Journal.antt =====
-- backend/src/deskpilot/runner/commit_receipts.py: `CommitReceiptStore`, the journal of controlled
-- commits. A row is the record that `_from_row` reads back
-- from it; times are numbers.
pub mod Invariant
pub mod History
pub mod Operations
pub mod Receipts
use desk_pilot_agent.Base.{
  ℕ, ◌+◌, String, Bool, true, false, not, ◌&&◌, ◌||◌, ◌==◌, Option, none, some, List, [], ◌∷◌, ◌++◌,
  ltb, leb, if◌then◌else◌, is_some, length, keep, any_of, all_of, map,
}
use desk_pilot_agent.Base.Text.{str_eq, str_lt}
use desk_pilot_agent.Base.Json.{Json, codes, is_digit, is_lower, is_sha256}
use desk_pilot_agent.Runner.Receipt.{ToolCommitReceipt}
use desk_pilot_agent.Base.Result.{Result, ok, err, ◌>>=◌, ◌>>◌, raise_if}

-- `CommitAttemptState`
pub data CommitAttemptState : Type 0 where
  prepared committing committed no_effect unknown : CommitAttemptState

abbrev pub state_is : CommitAttemptState → CommitAttemptState → Bool
state_is prepared prepared = true
state_is committing committing = true
state_is committed committed = true
state_is no_effect no_effect = true
state_is unknown unknown = true
state_is _ _ = false

-- `PreparedCommitRecord`
pub record PreparedCommitRecord : Type 0 where
  pub receipt_id : String
  pub call_id : String
  pub tool_name : String
  pub tool_version : String
  pub authorization_id : String
  pub approval_id : String
  pub preview_hash : String
  pub prepare_digest : String
  pub idempotency_key_digest : String
  pub binding_digest : String
  pub state : CommitAttemptState
  pub prepared_payload : Json
  pub commit_started_at : Option ℕ
  pub receipt : Option ToolCommitReceipt
  pub created_at : ℕ
  pub updated_at : ℕ

-- The table, in the order of the inserts.
abbrev pub Journal : Type 0
Journal = List PreparedCommitRecord

pub data JournalError : Type 0 where
  not_staged_as_prepared binding_conflict integrity_error missing invalid_transition : JournalError

unfoldable pub same_key : PreparedCommitRecord → PreparedCommitRecord → Bool
same_key a b =
    str_eq a.tool_name b.tool_name
    && str_eq a.tool_version b.tool_version
    && str_eq a.idempotency_key_digest b.idempotency_key_digest

-- The first row that passes a test.
unfoldable pub find_row : (PreparedCommitRecord → Bool) → Journal → Option PreparedCommitRecord
find_row p [] = none
find_row p (r ∷ j) = if p r then some r else find_row p j

-- The `SELECT` of `stage`: the row of the call, else that of the idempotency key.
unfoldable pub existing_for : PreparedCommitRecord → Journal → Option PreparedCommitRecord
unfolding find_row same_key
existing_for record_given j =
    let of_call = find_row (λ r. str_eq r.call_id record_given.call_id) j in
    if is_some of_call then of_call else find_row (λ r. same_key r record_given) j

-- `_validate_binding`
unfoldable pub validate_binding :
    PreparedCommitRecord → PreparedCommitRecord → Result JournalError (Unit {0})
validate_binding existing candidate =
    raise_if
      (not (str_eq existing.call_id candidate.call_id)
        || not (str_eq existing.receipt_id candidate.receipt_id)
        || not (str_eq existing.binding_digest candidate.binding_digest)
        || not (str_eq existing.authorization_id candidate.authorization_id)
        || not (str_eq existing.prepare_digest candidate.prepare_digest))
      binding_conflict

-- The row that `stage` inserts.
abbrev pub new_row : PreparedCommitRecord → PreparedCommitRecord
new_row r = record r { commit_started_at = none; receipt = none; updated_at = r.created_at }

-- `stage`: the record that is returned, and the table. An error rolls back, so the table stays.
-- A row of another call and key with the same primary key makes the insert fail.
unfoldable pub stage :
    Journal → PreparedCommitRecord → Result JournalError (PreparedCommitRecord × Journal)
unfolding find_row
stage j given =
    if not (state_is given.state prepared) || is_some given.receipt
    then err not_staged_as_prepared
    else elim (existing_for given j) [
      | some existing ↦ do validate_binding existing given; ok (existing, j)
      | none ↦ do
        raise_if (is_some (find_row (λ r. str_eq r.receipt_id given.receipt_id) j)) integrity_error
        ok (given, j ++ new_row given ∷ [])
    ]

-- What a transition writes.
pub record Update : Type 0 where
  pub receipt_id : String
  pub from_states : List CommitAttemptState
  pub state : CommitAttemptState
  pub commit_started_at : Option ℕ
  pub receipt : Option ToolCommitReceipt

-- `receipt_id = ? AND state IN (…)`
unfoldable pub selects : Update → PreparedCommitRecord → Bool
unfolding any_of
selects u r = str_eq r.receipt_id u.receipt_id && any_of (state_is r.state) u.from_states

-- A column that is assigned only when a value is given.
unfoldable pub given_or {ℓ} : {A : Type ℓ} → Option A → Option A → Option A
given_or (some a) _ = some a
given_or none old = old

unfoldable pub assign : Update → ℕ → PreparedCommitRecord → PreparedCommitRecord
unfolding given_or selects
assign u now r =
    if selects u r
    then record r {
      state = u.state;
      updated_at = now;
      commit_started_at = given_or u.commit_started_at r.commit_started_at;
      receipt = given_or u.receipt r.receipt;
    }
    else r

-- The row that a query by the primary key returns, or the error of a missing one.
or_missing : Option PreparedCommitRecord → Result JournalError PreparedCommitRecord
or_missing none = err missing
or_missing (some r) = ok r

-- `_transition`
unfoldable pub transition :
    Journal → Update → ℕ → Result JournalError (PreparedCommitRecord × Journal)
unfolding assign or_missing
transition j u now =
    let by_id = find_row (λ r. str_eq r.receipt_id u.receipt_id) in
    if length (keep (selects u) j) == 1
    then (do let j' = map (assign u now) j; row ← or_missing (by_id j'); ok (row, j'))
    else do
      loaded ← or_missing (by_id j)
      raise_if (not (state_is loaded.state u.state)) invalid_transition
      ok (loaded, j)

-- How far an attempt is: the three states that end it are equally far.
unfoldable pub progress : CommitAttemptState → ℕ
progress prepared = 0
progress committing = 1
progress _ = 2

abbrev pub incomplete : List CommitAttemptState
incomplete = prepared ∷ committing ∷ []

-- The updates of `mark_committing`, `mark_committed`, `mark_recovered_committed`,
-- `mark_no_effect` and `mark_unknown`.
abbrev pub mark_committing : String → ℕ → Update
mark_committing id started = record {
  receipt_id = id;
  from_states = prepared ∷ [];
  state = committing;
  commit_started_at = some started;
  receipt = none;
}

abbrev pub mark_committed : ToolCommitReceipt → Update
mark_committed r = record {
  receipt_id = r.receipt_id;
  from_states = committing ∷ [];
  state = committed;
  commit_started_at = none;
  receipt = some r;
}

abbrev pub mark_recovered_committed : ToolCommitReceipt → Update
mark_recovered_committed r = record {
  receipt_id = r.receipt_id;
  from_states = incomplete;
  state = committed;
  commit_started_at = none;
  receipt = some r;
}

abbrev pub mark_no_effect : String → Update
mark_no_effect id = record {
  receipt_id = id;
  from_states = incomplete;
  state = no_effect;
  commit_started_at = none;
  receipt = none;
}

abbrev pub mark_unknown : String → Update
mark_unknown id = record {
  receipt_id = id;
  from_states = incomplete;
  state = unknown;
  commit_started_at = none;
  receipt = none;
}
