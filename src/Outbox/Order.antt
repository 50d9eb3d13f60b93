-- ===== src/Outbox/Order.antt =====
-- The messages of a task are claimed in the order of its events.
use desk_pilot_agent.Base.{
  ℕ, suc, zero, ◌+◌, ◌≤◌, String, ◌≡◌, refl, Bool, true, false, not, ◌&&◌, ◌==◌, [], ◌∷◌, keep,
  length, any_of, All, arith, Bool-cases, inl, inr,
}
use mathlib.Core.List.{Mem, mem-cons_self, mem-cons_of_mem}
use desk_pilot_agent.Base.Text.{eq_iff}
use desk_pilot_agent.Outbox.Rows.{OutboxRow, Table, update_where, rowcount}
use desk_pilot_agent.Outbox.Publisher.{
  Publisher, ClaimedOutboxMessage, is_pending, is_claimable, has_earlier, goes_first, insert_row,
  sort_rows, take_rows, candidates, claim_each, claim_batch, claims_row, claimed_row,
}

module _ (P : OutboxRow → Type 0) where
  All-insert_row : (r : OutboxRow) (rows : Table) → P r → All P rows → All P (insert_row r rows)
  unfolding insert_row
  All-insert_row r [] p a = (p, tt)
  All-insert_row r (s ∷ rows) p (q, a) = elim (Bool-cases (goes_first s r)) [
    | inl first ↦ rw first (q, All-insert_row r rows p a)
    | inr later ↦ rw later (p, (q, a))
  ]

  All-sort_rows : (rows : Table) → All P rows → All P (sort_rows rows)
  unfolding sort_rows
  All-sort_rows [] a = tt
  All-sort_rows (r ∷ rows) (p, a) = All-insert_row r (sort_rows rows) p (All-sort_rows rows a)

  All-take_rows : (n : ℕ) (rows : Table) → All P rows → All P (take_rows n rows)
  unfolding take_rows
  All-take_rows zero rows a = tt
  All-take_rows (suc n) [] a = tt
  All-take_rows (suc n) (r ∷ rows) (p, a) = (p, All-take_rows n rows a)

  -- What a test and a membership give, holds of the rows that the test keeps.
  All-keep :
      (test : OutboxRow → Bool) (rows : Table)
      → ((r : OutboxRow) → Mem r rows → test r ≡ true → P r)
      → All P (keep test rows)
  unfolding keep
  All-keep test [] h = tt
  All-keep test (r ∷ rows) h =
      let rest = All-keep test rows (λ s m t. h s (mem-cons_of_mem r m) t) in
      elim (Bool-cases (test r)) [ inl t ↦ rw t (h r mem-cons_self t, rest) | inr f ↦ rw f rest ]

length-take_rows : (n : ℕ) (rows : Table) → length (take_rows n rows) ≤ n
unfolding take_rows
length-take_rows zero rows = omega arith
length-take_rows (suc n) [] = omega arith
length-take_rows (suc n) (r ∷ rows) = omega (arith, length-take_rows n rows)

-- A row of the table that may be claimed, with no pending message of an earlier event of its task.
pub record IsNext (now : ℕ) (rows : Table) (r : OutboxRow) : Type 0 where
  pub stored : Mem r rows
  pub free : is_claimable now r ≡ true
  pub first :
      All (λ s. s.task_id ≡ r.task_id → is_pending s ≡ true → r.event_seq ≤ s.event_seq) rows

none_earlier :
    (r : OutboxRow) (rows : Table)
    → has_earlier rows r ≡ false
    → All (λ s. s.task_id ≡ r.task_id → is_pending s ≡ true → r.event_seq ≤ s.event_seq) rows
unfolding has_earlier any_of
none_earlier r [] h = tt
none_earlier r (s ∷ rows) h =
    ((λ e p. ground (arith, eq_iff s.task_id r.task_id)), none_earlier r rows (ground arith))

candidates-IsNext :
    (p : Publisher) (now : ℕ) (rows : Table) → All (IsNext now rows) (candidates p now rows)
unfolding candidates
candidates-IsNext p now rows = All-take_rows (IsNext now rows) p.batch_size _ (
    All-sort_rows (IsNext now rows) _ (
      All-keep (IsNext now rows) _ rows (λ r m t. record {
        stored = m;
        free = ground arith;
        first = none_earlier r rows (ground arith);
      })))

-- A claimed message is that of a row with `P`.
abbrev pub Claims : (OutboxRow → Type 0) → ClaimedOutboxMessage → Type 0
Claims P m =
    (r : OutboxRow) × P r
    × (m.message_id ≡ r.message_id)
    × (m.fencing_token ≡ r.claim_fencing_token + 1)

claim_each-Claims :
    (P : OutboxRow → Type 0) (p : Publisher) (now : ℕ) (uuid : String → ℕ → String)
    (cs rows : Table)
    → All P cs
    → (length (claim_each p now uuid cs rows).0 ≤ length cs)
      × All (Claims P) (claim_each p now uuid cs rows).0
unfolding claim_each
claim_each-Claims P p now uuid [] rows a = (omega arith, tt)
claim_each-Claims P p now uuid (c ∷ cs) rows (q, a) =
    let (short, rest) =
      claim_each-Claims P p now uuid cs
        (update_where (claims_row now c)
          (claimed_row p now (uuid c.message_id now) (c.claim_fencing_token + 1)) rows)
        a in
    elim (Bool-cases (rowcount (claims_row now c) rows == 1)) [
      | inl one ↦ rw one (omega (arith, short), ((c, q, refl, refl), rest))
      | inr none_hit ↦ rw none_hit (omega (arith, short), rest)
    ]

-- A batch holds no more messages than its limit, and each is that of a row that is claimable when
-- the batch starts and whose task has no pending message of an earlier event: of every task only
-- the first message that is still to be published can be claimed. The claim's fencing token is the
-- successor of the row's.
pub claim_batch-IsNext :
    (p : Publisher) (now : ℕ) (uuid : String → ℕ → String) (rows : Table)
    → (length (claim_batch p now uuid rows).0 ≤ p.batch_size)
      × All (Claims (IsNext now rows)) (claim_batch p now uuid rows).0
unfolding claim_batch candidates
claim_batch-IsNext p now uuid rows =
    let (short, claims) =
      claim_each-Claims (IsNext now rows) p now uuid (candidates p now rows) rows
        (candidates-IsNext p now rows) in
    (
      omega (
        arith,
        short,
        length-take_rows p.batch_size
            (sort_rows (keep (λ r. is_claimable now r && not (has_earlier rows r)) rows)),
      ),
      claims,
    )
