-- ===== src/Runner/Journal/Receipts.antt =====
-- Which receipts of a commit are accepted.
use desk_pilot_agent.Base.{
  ℕ, String, Bool, ◌≤◌, not, ltb, ◌&&◌, false, ◌≡◌, ◌⊎◌, ◌↔◌, inl, inr, refl, true, arith,
  Bool-cases,
}
use desk_pilot_agent.Base.Text.{str_eq, eq_refl}
use desk_pilot_agent.Base.Json.{is_sha256}
use desk_pilot_agent.Base.Text.Sets.{eq_of_str_eq}
use desk_pilot_agent.Base.Result.{Result, ok, ◌>>◌, raise_if}
use desk_pilot_agent.Runner.Receipt.{
  Versions, ToolCommitReceipt, ReceiptError, field_invalid, version_invalid, destination_present,
  source_present, version_changed, recorded_early, is_version, receipt_fields, validate_receipt,
}

-- A version at the source and one at the destination.
abbrev pub at_ends : String → String → Versions
at_ends source destination = record { source = source; destination = destination }

-- A file of one version has gone from the source to the destination.
pub record Moves (before after : Versions) : Type 0 where
  pub digest : String
  pub formed : is_sha256 digest ≡ true
  pub from_source : before ≡ at_ends digest "absent"
  pub to_destination : after ≡ at_ends "absent" digest

-- There was no file, and is none.
abbrev pub IsNothing : Versions → Versions → Type 0
IsNothing before after = (before ≡ at_ends "absent" "absent") × (after ≡ at_ends "absent" "absent")

-- The facts of an accepted receipt.
pub record IsReceipt (decimal : ℕ → Bool) (r : ToolCommitReceipt) : Type 0 where
  pub fields : receipt_fields decimal r ≡ true
  pub effect :
      Moves r.resource_versions_before r.resource_versions_after
      ⊎ IsNothing r.resource_versions_before r.resource_versions_after
  pub onward : r.commit_started_at ≤ r.receipt_recorded_at

-- What the tests on the versions leave.
effect_cases :
    (before after : Versions)
    → before.destination ≡ "absent"
    → after.source ≡ "absent"
    → before.source ≡ after.destination
    → is_version before.source ≡ true
    → Moves before after ⊎ IsNothing before after
unfolding is_version
effect_cases before after free left kept version = elim (Bool-cases (is_sha256 before.source)) [
  | inl digest ↦
      inl
        (record { digest = before.source; formed = digest; from_source = cc; to_destination = cc })
  | inr other ↦ let none_there = eq_of_str_eq before.source "absent" (ground arith) in inr (cc, cc)
]

-- The six tests of the validator, on their outcomes.
gates :
    (fields versions free left kept early : Bool)
    → ToolCommitReceipt
    → Result ReceiptError ToolCommitReceipt
gates fields versions free left kept early r = do
  raise_if (not fields) field_invalid
  raise_if (not versions) version_invalid
  raise_if (not free) destination_present
  raise_if (not left) source_present
  raise_if (not kept) version_changed
  raise_if early recorded_early
  ok r

abbrev AllPass : (fields versions free left kept early : Bool) → Type 0
AllPass fields versions free left kept early =
    (fields ≡ true)
    × (versions ≡ true)
    × (free ≡ true)
    × (left ≡ true)
    × (kept ≡ true)
    × (early ≡ false)

gates_iff :
    (fields versions free left kept early : Bool) (r : ToolCommitReceipt)
    → (gates fields versions free left kept early r ≡ ok r)
      ↔ AllPass fields versions free left kept early
unfolding gates
gates_iff fields versions free left kept early r = (λ h. ground arith, λ h. ground arith)

abbrev Passes : (ℕ → Bool) → ToolCommitReceipt → Type 0
Passes decimal r =
    let before = r.resource_versions_before in
    let after = r.resource_versions_after in
    AllPass (receipt_fields decimal r)
      (is_version before.source
        && is_version before.destination
        && is_version after.source
        && is_version after.destination)
      (str_eq before.destination "absent") (str_eq after.source "absent")
      (str_eq before.source after.destination) (ltb r.receipt_recorded_at r.commit_started_at)

valid_iff :
    (decimal : ℕ → Bool) (r : ToolCommitReceipt)
    → (validate_receipt decimal r ≡ ok r) ↔ Passes decimal r
unfolding validate_receipt gates
valid_iff decimal r = gates_iff _ _ _ _ _ _ r

valid-IsReceipt :
    (decimal : ℕ → Bool) (r : ToolCommitReceipt)
    → validate_receipt decimal r ≡ ok r
    → IsReceipt decimal r
valid-IsReceipt decimal r h =
    let (fields, versions, free, left, kept, early) = (valid_iff decimal r).0 h in
    record {
      fields = fields;
      effect =
          effect_cases r.resource_versions_before r.resource_versions_after (eq_of_str_eq _ _ free)
            (eq_of_str_eq _ _ left) (eq_of_str_eq _ _ kept) (ground (arith, versions));
      onward = ground (arith, early);
    }

effect_valid :
    (decimal : ℕ → Bool) (r : ToolCommitReceipt)
    → receipt_fields decimal r ≡ true
    → r.commit_started_at ≤ r.receipt_recorded_at
    → (digest : String) → is_version digest ≡ true
    → r.resource_versions_before ≡ at_ends digest "absent"
    → r.resource_versions_after ≡ at_ends "absent" digest
    → validate_receipt decimal r ≡ ok r
unfolding is_version
effect_valid decimal r f on digest v b a = (valid_iff decimal r).1 (
  f,
  rw (b, a) (ground (arith, v)),
  rw b refl,
  rw a refl,
  rw (b, a) (eq_refl digest),
  ground (arith, on),
)

IsReceipt-valid :
    (decimal : ℕ → Bool) (r : ToolCommitReceipt)
    → IsReceipt decimal r
    → validate_receipt decimal r ≡ ok r
unfolding is_version
IsReceipt-valid decimal r m = elim m.effect [
  | inl moved ↦
      effect_valid decimal r m.fields m.onward moved.digest (rw moved.formed refl) moved.from_source
        moved.to_destination
  | inr (before, after) ↦ effect_valid decimal r m.fields m.onward "absent" refl before after
]

-- A receipt is accepted exactly when its fields match their patterns and lengths, it was not recorded
-- before the commit began, and its versions are one of two things: those of a move, where a file of
-- one digest was at the source and nothing at the destination, and afterwards the reverse; or all
-- four are "absent", since the code accepts that word as the version of the source as well.
pub validate_receipt_iff :
    (decimal : ℕ → Bool) (r : ToolCommitReceipt)
    → (validate_receipt decimal r ≡ ok r) ↔ IsReceipt decimal r
validate_receipt_iff decimal r = (valid-IsReceipt decimal r, IsReceipt-valid decimal r)
