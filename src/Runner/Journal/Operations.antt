-- ===== src/Runner/Journal/Operations.antt =====
-- backend/src/deskpilot/runner/commit_receipts.py: the queries of `CommitReceiptStore`, and runs of its
-- calls.
use desk_pilot_agent.Base.{
  ℕ, String, Bool, true, ◌&&◌, ◌==◌, Option, List, [], ◌∷◌, ltb, if◌then◌else◌, keep, any_of,
}
use desk_pilot_agent.Base.Text.{str_eq, str_lt}
use desk_pilot_agent.Base.Result.{Result, ok, err}
use desk_pilot_agent.Runner.Receipt.{ToolCommitReceipt}
use desk_pilot_agent.Runner.Journal.{
  Journal, JournalError, PreparedCommitRecord, Update, find_row, incomplete, mark_committed,
  mark_committing, mark_no_effect, mark_recovered_committed, mark_unknown, stage, state_is,
  transition,
}

-- `get_for_call`
unfoldable pub get_for_call : Journal → String → Option PreparedCommitRecord
unfolding find_row
get_for_call j call_id = find_row (λ r. str_eq r.call_id call_id) j

-- `ORDER BY created_at, receipt_id`
unfoldable pub earlier : PreparedCommitRecord → PreparedCommitRecord → Bool
unfolding str_lt
earlier a b =
    if ltb a.created_at b.created_at
    then true
    else a.created_at == b.created_at && str_lt a.receipt_id b.receipt_id

unfoldable pub insert_row : PreparedCommitRecord → Journal → Journal
unfolding earlier
insert_row r [] = r ∷ []
insert_row r (s ∷ j) = let rest = insert_row r j in if earlier s r then s ∷ rest else r ∷ s ∷ j

unfoldable pub sort_rows : Journal → Journal
unfolding insert_row
sort_rows [] = []
sort_rows (r ∷ j) = insert_row r (sort_rows j)

-- The `WHERE` of `list_incomplete`.
unfoldable pub is_incomplete : String → String → PreparedCommitRecord → Bool
unfolding any_of
is_incomplete name version r =
    str_eq r.tool_name name && str_eq r.tool_version version && any_of (state_is r.state) incomplete

-- `list_incomplete`
unfoldable pub list_incomplete : Journal → String → String → Journal
unfolding sort_rows is_incomplete keep
list_incomplete j name version = sort_rows (keep (is_incomplete name version) j)

-- The calls of the journal: those that change it, at their times.
pub data Operation : Type 0 where
  stage_op : PreparedCommitRecord → Operation
  committing_op : String → ℕ → Operation
  committed_op recovered_op : ToolCommitReceipt → Operation
  no_effect_op unknown_op : String → Operation

-- The table after a call: an error leaves it.
unfoldable pub table_after :
    Journal → Result JournalError (PreparedCommitRecord × Journal) → Journal
table_after j (ok (_, j')) = j'
table_after j (err _) = j

unfoldable pub advance : Journal → Update → ℕ → Journal
unfolding table_after transition
advance j u now = table_after j (transition j u now)

unfoldable pub apply : Journal → Operation → ℕ → Journal
unfolding advance stage
apply j (stage_op r) now = table_after j (stage j r)
apply j (committing_op id started) now = advance j (mark_committing id started) now
apply j (committed_op r) now = advance j (mark_committed r) now
apply j (recovered_op r) now = advance j (mark_recovered_committed r) now
apply j (no_effect_op id) now = advance j (mark_no_effect id) now
apply j (unknown_op id) now = advance j (mark_unknown id) now

unfoldable pub apply_all : Journal → List (Operation × ℕ) → Journal
unfolding apply
apply_all j [] = j
apply_all j ((o, now) ∷ rest) = apply_all (apply j o now) rest
