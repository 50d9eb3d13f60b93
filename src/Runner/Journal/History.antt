-- ===== src/Runner/Journal/History.antt =====
-- How the rows of the journal evolve.
use desk_pilot_agent.Base.{
  ℕ, ◌≡◌, refl, sym, subst, ◌∙◌, ◌<◌, Bool, true, false, not, ◌||◌, none, some, List, [], ◌∷◌, ◌++◌,
  is_some, arith, ◌⊎◌, inl, inr,
}
use mathlib.Core.List.{Mem, mem-append_left, mem-map_of_mem}
use desk_pilot_agent.Base.Text.{str_eq, eq_refl}
use desk_pilot_agent.Base.Result.{ok}
use desk_pilot_agent.Runner.Journal.{
  CommitAttemptState, state_is, PreparedCommitRecord, Journal, Update, selects, assign, progress,
  find_row, existing_for, validate_binding, new_row, stage, prepared,
}
use desk_pilot_agent.Runner.Journal.Operations.{Operation, apply, apply_all}
use desk_pilot_agent.Runner.Journal.Invariant.{IsForward, apply-Change}

-- What no call changes of a row.
abbrev pub binding_of : PreparedCommitRecord → PreparedCommitRecord
binding_of r = record r {
  state = prepared;
  commit_started_at = none;
  receipt = none;
  updated_at = 0;
}

-- A later version of a row: it is the row itself, or its state is further.
pub record Follows (old new : PreparedCommitRecord) : Type 0 where
  pub kept : binding_of new ≡ binding_of old
  pub order : (new ≡ old) ⊎ (progress old.state < progress new.state)

Follows-refl : (r : PreparedCommitRecord) → Follows r r
Follows-refl r = record { kept = refl; order = inl refl }

Follows-trans : {a b c : PreparedCommitRecord} → Follows a b → Follows b c → Follows a c
Follows-trans {a} {b} {c} f g = record {
  kept = g.kept ∙ f.kept;
  order = elim f.order [
    | inl same ↦
        subst (λ (r : PreparedCommitRecord). (c ≡ r) ⊎ (progress r.state < progress c.state)) same
          g.order
    | inr less ↦ elim g.order [
      | inl same ↦ inr (
          subst (λ (r : PreparedCommitRecord). progress a.state < progress r.state) (sym same) less)
      | inr more ↦ inr (ground arith)
    ]
  ];
}

assign-Follows :
    (u : Update) (now : ℕ) (r : PreparedCommitRecord) → IsForward u → Follows r (assign u now r)
unfolding assign selects
assign-Follows u now r f = record { kept = ground arith; order = ground (arith, f r.state) }

apply-Follows :
    (j : Journal) (o : Operation) (now : ℕ) {r : PreparedCommitRecord}
    → Mem r j
    → (s : PreparedCommitRecord) × Mem s (apply j o now) × Follows r s
apply-Follows j o now {r} m = elim (apply-Change j o now) [
  | inl same ↦ (r, subst (Mem r) (sym same) m, Follows-refl r)
  | inr (inl (s, grown, _)) ↦
      (r, subst (Mem r) (sym grown) (mem-append_left (s ∷ []) m), Follows-refl r)
  | inr (inr (u, f, moved)) ↦ (
    assign u now r,
    subst (Mem (assign u now r)) (sym moved) (mem-map_of_mem (assign u now) m),
    assign-Follows u now r f,
  )
]

-- A row is never lost: whatever the calls, a row that was once in the journal has a later version
-- in it, of the same receipt, call, Tool, grant, digests and payload, which is either unchanged or
-- further towards its end.
pub row_history :
    (j : Journal) (os : List (Operation × ℕ)) (r : PreparedCommitRecord)
    → Mem r j
    → (s : PreparedCommitRecord) × Mem s (apply_all j os) × Follows r s
unfolding apply_all
row_history j [] r m = (r, m, Follows-refl r)
row_history j ((o, now) ∷ os) r m =
    let (s, m', f) = apply-Follows j o now {r = r} m in
    let (t, m'', g) = row_history (apply j o now) os s m' in (t, m'', Follows-trans f g)

progress_bound : (s : CommitAttemptState) → progress s < 3
unfolding progress
progress_bound s = ground arith

-- An attempt that has ended as committed, without effect or unknown stays in the journal as it is,
-- whatever the calls: no later call moves it to another state or replaces its receipt.
pub ended_row_stays :
    (j : Journal) (os : List (Operation × ℕ)) (r : PreparedCommitRecord)
    → Mem r j
    → progress r.state ≡ 2
    → Mem r (apply_all j os)
ended_row_stays j os r m ended =
    let (s, m', f) = row_history j os r m in
    elim f.order [
      | inl same ↦ subst (λ t. Mem t (apply_all j os)) same m'
      | inr less ↦ absurd (ground (arith, progress_bound s.state))
    ]

find_row_snoc :
    (p : PreparedCommitRecord → Bool) (j : Journal) (s : PreparedCommitRecord)
    → find_row p j ≡ none
    → p s ≡ true
    → find_row p (j ++ s ∷ []) ≡ some s
unfolding find_row
find_row_snoc p [] s n h = ground arith
find_row_snoc p (r ∷ j) s n h = ground (arith, find_row_snoc p j s)

binding_ok : (r : PreparedCommitRecord) → validate_binding (new_row r) r ≡ ok tt
unfolding validate_binding
binding_ok r = ground (
  arith,
  eq_refl r.call_id,
  eq_refl r.receipt_id,
  eq_refl r.binding_digest,
  eq_refl r.authorization_id,
  eq_refl r.prepare_digest,
)

existing_snoc :
    (j : Journal) (r : PreparedCommitRecord)
    → existing_for r j ≡ none
    → existing_for r (j ++ new_row r ∷ []) ≡ some (new_row r)
unfolding existing_for
existing_snoc j r n = ground (
  arith,
  find_row_snoc (λ s. str_eq s.call_id r.call_id) j (new_row r) (ground arith) (eq_refl r.call_id),
)

stage_found :
    (j : Journal) (r t : PreparedCommitRecord)
    → (not (state_is r.state prepared) || is_some r.receipt) ≡ false
    → existing_for r j ≡ some t
    → validate_binding t r ≡ ok tt
    → stage j r ≡ ok (t, j)
unfolding stage
stage_found j r t p found b = ground arith

-- The two ways in which `stage` succeeds.
stage_cases :
    (j : Journal) (r s : PreparedCommitRecord) (j' : Journal)
    → stage j r ≡ ok (s, j')
    → ((existing_for r j ≡ none) × (j' ≡ j ++ new_row r ∷ []))
      ⊎ ((existing_for r j ≡ some s) × (validate_binding s r ≡ ok tt) × (j' ≡ j))
unfolding stage
stage_cases j r s j' h = ground arith

staged_as_prepared :
    (j : Journal) (r s : PreparedCommitRecord) (j' : Journal)
    → stage j r ≡ ok (s, j')
    → (not (state_is r.state prepared) || is_some r.receipt) ≡ false
unfolding stage
staged_as_prepared j r s j' h = ground arith

-- Staging is idempotent: where a record has been staged, staging it again leaves the journal as it
-- is and returns a row that is bound to the same receipt, call and digests.
pub stage_again :
    (j : Journal) (r s : PreparedCommitRecord) (j' : Journal)
    → stage j r ≡ ok (s, j')
    → (t : PreparedCommitRecord) × (stage j' r ≡ ok (t, j')) × (validate_binding t r ≡ ok tt)
stage_again j r s j' h = elim (stage_cases j r s j' h) [
  | inl (fresh, grown) ↦ (
    new_row r,
    stage_found j' r (new_row r) (staged_as_prepared j r s j' h)
        (subst (λ k. existing_for r k ≡ some (new_row r)) (sym grown) (existing_snoc j r fresh))
        (binding_ok r),
    binding_ok r,
  )
  | inr (found, bound, same) ↦ (
    s,
    stage_found j' r s (staged_as_prepared j r s j' h)
        (subst (λ k. existing_for r k ≡ some s) (sym same) found) bound,
    bound,
  )
]
