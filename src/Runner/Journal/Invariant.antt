-- ===== src/Runner/Journal/Invariant.antt =====
-- The journal keeps one row per receipt, call and idempotency key.
use desk_pilot_agent.Base.{
  ℕ, ◌≡◌, Bool, true, false, ◌||◌, none, List, [], ◌∷◌, ◌++◌, any_of, map, All, arith, inl, inr,
  ◌<◌, sym, subst, ◌⊎◌,
}
use desk_pilot_agent.Base.Text.{str_eq}
use desk_pilot_agent.Base.Result.{ok, Result-cases}
use desk_pilot_agent.Runner.Journal.{
  PreparedCommitRecord, Journal, same_key, find_row, existing_for, new_row, stage, Update, assign,
  progress, CommitAttemptState, state_is, mark_committing, mark_committed, mark_recovered_committed,
  mark_no_effect, mark_unknown,
}
use desk_pilot_agent.Runner.Journal.Operations.{
  table_after, advance, Operation, stage_op, committing_op, committed_op, recovered_op,
  no_effect_op, unknown_op, apply, apply_all,
}

-- Two rows that a uniqueness constraint of the table keeps apart.
unfoldable pub clash : PreparedCommitRecord → PreparedCommitRecord → Bool
clash a b = str_eq a.receipt_id b.receipt_id || str_eq a.call_id b.call_id || same_key a b

-- No two rows clash.
abbrev pub IsUnique : Journal → Type 0
IsUnique [] = Unit
IsUnique (r ∷ j) = All (λ s. clash r s ≡ false) j × IsUnique j

All-snoc :
    (r : PreparedCommitRecord) (j : Journal) (s : PreparedCommitRecord)
    → All (λ t. clash r t ≡ false) j
    → clash r s ≡ false
    → All (λ t. clash r t ≡ false) (j ++ s ∷ [])
All-snoc r [] s a h = (h, tt)
All-snoc r (t ∷ j) s (x, a) h = (x, All-snoc r j s a h)

IsUnique-snoc :
    (j : Journal) (s : PreparedCommitRecord)
    → IsUnique j
    → All (λ r. clash r s ≡ false) j
    → IsUnique (j ++ s ∷ [])
IsUnique-snoc [] s u h = (tt, tt)
IsUnique-snoc (r ∷ j) s (a, u) (h, hs) = (All-snoc r j s a h, IsUnique-snoc j s u hs)

-- A row that the searches of `stage` do not find clashes with none.
nothing_clashes :
    (j : Journal) (s : PreparedCommitRecord)
    → find_row (λ r. str_eq r.call_id s.call_id) j ≡ none
    → find_row (λ r. same_key r s) j ≡ none
    → find_row (λ r. str_eq r.receipt_id s.receipt_id) j ≡ none
    → All (λ r. clash r (new_row s) ≡ false) j
unfolding find_row clash same_key
nothing_clashes [] s p q r = tt
nothing_clashes (t ∷ j) s p q r =
    (ground arith, nothing_clashes j s (ground arith) (ground arith) (ground arith))

pub stage_table :
    (j : Journal) (s : PreparedCommitRecord) {r : PreparedCommitRecord} {j' : Journal}
    → stage j s ≡ ok (r, j')
    → (j' ≡ j) ⊎ (j' ≡ j ++ new_row s ∷ []) × All (λ t. clash t (new_row s) ≡ false) j
unfolding stage existing_for
stage_table j s h = ground (arith, nothing_clashes j s)

clash-assign :
    (u : Update) (now : ℕ) (r s : PreparedCommitRecord)
    → clash (assign u now r) (assign u now s) ≡ clash r s
unfolding assign clash same_key
clash-assign u now r s = ground arith

assign-All :
    (u : Update) (now : ℕ) (r : PreparedCommitRecord) (j : Journal)
    → All (λ s. clash r s ≡ false) j
    → All (λ s. clash (assign u now r) s ≡ false) (map (assign u now) j)
assign-All u now r [] a = tt
assign-All u now r (s ∷ j) (x, a) = (ground (arith, clash-assign u now r s), assign-All u now r j a)

assign-IsUnique :
    (u : Update) (now : ℕ) (j : Journal) → IsUnique j → IsUnique (map (assign u now) j)
assign-IsUnique u now [] h = tt
assign-IsUnique u now (r ∷ j) (a, h) = (assign-All u now r j a, assign-IsUnique u now j h)

-- Every state that an update may leave is behind the one it sets.
abbrev pub IsForward : Update → Type 0
IsForward u =
    (s : CommitAttemptState)
    → any_of (state_is s) u.from_states ≡ true
    → progress s < progress u.state

advance_table :
    (j : Journal) (u : Update) (now : ℕ)
    → (advance j u now ≡ j) ⊎ (advance j u now ≡ map (assign u now) j)
unfolding advance
advance_table j u now = ground arith

-- A call leaves the table, appends a row that clashes with none, or moves rows forward.
abbrev pub Change : Journal → Journal → ℕ → Type 0
Change j j' now =
    (j' ≡ j)
    ⊎ ((s : PreparedCommitRecord) × (j' ≡ j ++ s ∷ []) × All (λ r. clash r s ≡ false) j)
    ⊎ ((u : Update) × IsForward u × (j' ≡ map (assign u now) j))

advance-Change : (j : Journal) (u : Update) (now : ℕ) → IsForward u → Change j (advance j u now) now
advance-Change j u now f = elim (advance_table j u now) [
  | inl same ↦ inl same
  | inr moved ↦ inr (inr (u, f, moved))
]

stage-Change :
    (j : Journal) (s : PreparedCommitRecord) (now : ℕ) → Change j (table_after j (stage j s)) now
unfolding table_after
stage-Change j s now = elim (Result-cases (stage j s)) [
  | inl ((r, j'), done) ↦ elim (stage_table j s done) [
    | inl same ↦ inl (ground arith)
    | inr (grown, apart) ↦ inr (inl (new_row s, ground arith, apart))
  ]
  | inr (e, failed) ↦ inl (ground arith)
]

pub apply-Change : (j : Journal) (o : Operation) (now : ℕ) → Change j (apply j o now) now
unfolding apply progress any_of
apply-Change j (stage_op r) now = stage-Change j r now
apply-Change j (committing_op id started) now =
    advance-Change j (mark_committing id started) now (λ s h. ground arith)
apply-Change j (committed_op r) now = advance-Change j (mark_committed r) now (λ s h. ground arith)
apply-Change j (recovered_op r) now =
    advance-Change j (mark_recovered_committed r) now (λ s h. ground arith)
apply-Change j (no_effect_op id) now =
    advance-Change j (mark_no_effect id) now (λ s h. ground arith)
apply-Change j (unknown_op id) now = advance-Change j (mark_unknown id) now (λ s h. ground arith)

apply-IsUnique : (j : Journal) (o : Operation) (now : ℕ) → IsUnique j → IsUnique (apply j o now)
apply-IsUnique j o now u = elim (apply-Change j o now) [
  | inl same ↦ subst IsUnique (sym same) u
  | inr (inl (s, grown, apart)) ↦ subst IsUnique (sym grown) (IsUnique-snoc j s u apart)
  | inr (inr (w, f, moved)) ↦ subst IsUnique (sym moved) (assign-IsUnique w now j u)
]

-- Whatever the calls, in whatever order and at whatever times, a journal with one row per receipt,
-- one per call and one per Tool and idempotency key keeps that so; an empty one starts so.
pub apply_all-IsUnique :
    (j : Journal) (os : List (Operation × ℕ)) → IsUnique j → IsUnique (apply_all j os)
unfolding apply_all
apply_all-IsUnique j [] u = u
apply_all-IsUnique j ((o, now) ∷ os) u =
    apply_all-IsUnique (apply j o now) os (apply-IsUnique j o now u)
