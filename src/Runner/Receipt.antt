-- ===== src/Runner/Receipt.antt =====
-- backend/src/deskpilot/domain/tool_commit.py: the receipts of controlled commits, with the patterns
-- of domain/tool_contracts.py that they use. Times are numbers.
use desk_pilot_agent.Base.{
  ℕ, ◌+◌, String, Bool, true, false, not, ◌&&◌, ◌||◌, ◌==◌, List, [], ◌∷◌, ltb, leb, if◌then◌else◌,
  length,
}
use desk_pilot_agent.Base.Text.{str_eq}
use desk_pilot_agent.Base.Json.{codes, is_digit, is_lower, is_sha256}
use desk_pilot_agent.Base.Result.{Result, ok, ◌>>◌, raise_if}

-- `resource_versions_before` and `resource_versions_after` as they are once their keys are checked:
-- the version of the source and that of the destination.
pub record Versions : Type 0 where
  pub source : String
  pub destination : String

-- `ToolCommitReceipt`, whose status is always "committed". `receipt_id` and `authorization_id` are kept
-- without their fixed prefixes `cmt_` and `auth_`.
pub record ToolCommitReceipt : Type 0 where
  pub receipt_id : String
  pub call_id : String
  pub tool_name : String
  pub tool_version : String
  pub authorization_id : String
  pub approval_id : String
  pub preview_hash : String
  pub prepare_digest : String
  pub idempotency_key_digest : String
  pub resource_versions_before : Versions
  pub resource_versions_after : Versions
  pub commit_started_at : ℕ
  pub receipt_recorded_at : ℕ

pub data ReceiptError : Type 0 where
  field_invalid version_invalid destination_present source_present : ReceiptError
  version_changed recorded_early : ReceiptError

-- `VERSION_VALUE_PATTERN`
unfoldable pub is_version : String → Bool
unfolding is_sha256
is_version s = is_sha256 s || str_eq s "absent"

-- `min_length=1, max_length=128`
is_id : String → Bool
unfolding codes
is_id s = leb 1 (length (codes s)) && leb (length (codes s)) 128

-- `TOOL_NAME_PATTERN`, from inside a name: at the start of a part or not, after a dot or not.
name_from : Bool → Bool → List ℕ → Bool
unfolding is_lower is_digit
name_from start dotted [] = not start && dotted
name_from true dotted (c ∷ cs) = is_lower c && name_from false dotted cs
name_from false dotted (c ∷ cs) =
    (c == b'.' || is_lower c || is_digit c || c == b'_')
    && name_from (c == b'.') (dotted || c == b'.') cs

-- `^[a-z][a-z0-9_]*(?:\.[a-z][a-z0-9_]*)+$`
unfoldable pub is_tool_name : String → Bool
unfolding name_from codes
is_tool_name s = name_from true false (codes s)

-- Where a version number stands: at the start of a part, after its zero, or within its digits.
pub data VersionPart : Type 0 where
  part_start part_zero part_digits : VersionPart

-- `SEMVER_PATTERN`, after so many dots. `decimal` is the class `\d` of the regular expressions.
semver_from : (ℕ → Bool) → VersionPart → ℕ → List ℕ → Bool
semver_from decimal part_start dots [] = false
semver_from decimal part_zero dots [] = dots == 2
semver_from decimal part_digits dots [] = dots == 2
semver_from decimal part_start dots (c ∷ cs) =
    leb b'0' c
    && leb c b'9'
    && semver_from decimal (if c == b'0' then part_zero else part_digits) dots cs
semver_from decimal part_zero dots (c ∷ cs) =
    c == b'.' && semver_from decimal part_start (dots + 1) cs
semver_from decimal part_digits dots (c ∷ cs) =
    (c == b'.' || decimal c)
    && semver_from decimal (if c == b'.' then part_start else part_digits)
        (if c == b'.' then dots + 1 else dots) cs

-- `^(?:0|[1-9]\d*)\.(?:0|[1-9]\d*)\.(?:0|[1-9]\d*)$`
unfoldable pub is_semver : (ℕ → Bool) → String → Bool
unfolding semver_from codes
is_semver decimal s = semver_from decimal part_start 0 (codes s)

-- The patterns and lengths of the fields.
unfoldable pub receipt_fields : (ℕ → Bool) → ToolCommitReceipt → Bool
unfolding is_id is_tool_name is_semver is_sha256
receipt_fields decimal r =
    is_sha256 r.receipt_id
    && is_id r.call_id
    && is_tool_name r.tool_name
    && is_semver decimal r.tool_version
    && is_sha256 r.authorization_id
    && is_id r.approval_id
    && is_sha256 r.preview_hash
    && is_sha256 r.prepare_digest
    && is_sha256 r.idempotency_key_digest

-- Constructing a `ToolCommitReceipt`: its fields, then `validate_versions_and_time`. The record
-- `Versions` has the two expected keys and no other, which is what the tests of the key sets ask.
unfoldable pub validate_receipt :
    (ℕ → Bool) → ToolCommitReceipt → Result ReceiptError ToolCommitReceipt
unfolding is_version receipt_fields
validate_receipt decimal r = do
  raise_if (not (receipt_fields decimal r)) field_invalid
  let before = r.resource_versions_before
  let after = r.resource_versions_after
  raise_if
      (not (
        is_version before.source
        && is_version before.destination
        && is_version after.source
        && is_version after.destination))
      version_invalid
  raise_if (not (str_eq before.destination "absent")) destination_present
  raise_if (not (str_eq after.source "absent")) source_present
  raise_if (not (str_eq before.source after.destination)) version_changed
  raise_if (ltb r.receipt_recorded_at r.commit_started_at) recorded_early
  ok r
