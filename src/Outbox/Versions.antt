-- ===== src/Outbox/Versions.antt =====
-- No message is lost but by a clean-up of published ones, and none changes once it is published.
use desk_pilot_agent.Base.{
  ℕ, ◌+◌, ◌≤◌, ◌<◌, Option, none, some, String, ◌≡◌, refl, sym, subst, ◌∙◌, Bool, true, false, List,
  [], ◌∷◌, is_some, keep, arith, Bool-cases, inl, inr,
}
use mathlib.Core.List.{Mem, mem-cons_self, mem-cons_of_mem}
use desk_pilot_agent.Outbox.Rows.{OutboxRow, Table, changed, update_where}
use desk_pilot_agent.Outbox.Publisher.{
  Publisher, ClaimedOutboxMessage, is_pending, is_claimable, claimed_row, claims_row, claim_each,
  claim_batch, candidates,
}
use desk_pilot_agent.Outbox.Marks.{
  published_op, holds_claim, holds_live_claim, published_row, mark_published, failed_row,
  mark_failed, is_dead_letter, requeued_row, requeue_dead_letter, published_before,
  cleanup_published, OutboxOperation, claim_op, failed_op, requeue_op, cleanup_op, table_after,
  run_outbox,
}

-- A later version of a row: it carries the same message, its fencing token has not gone down, and
-- nothing of it has changed once it was published.
pub record Follows (old new : OutboxRow) : Type 0 where
  pub message : new.message_id ≡ old.message_id
  pub task : new.task_id ≡ old.task_id
  pub event : new.event_seq ≡ old.event_seq
  pub content : new.payload ≡ old.payload
  pub token : old.claim_fencing_token ≤ new.claim_fencing_token
  pub final : is_some old.published_at ≡ true → new ≡ old

-- The rows of a later table are versions of those of an earlier one, in order; only a row of which
-- a version was deleted may be missing.
pub data Versions (Deleted : OutboxRow → Type 0) : Table → Table → Type 0 where
  no_rows : Versions Deleted [] []
  kept :
      {r s : OutboxRow} {rs ss : Table}
      → Follows r s
      → Versions Deleted rs ss
      → Versions Deleted (r ∷ rs) (s ∷ ss)
  gone :
      {r s : OutboxRow} {rs ss : Table}
      → Follows r s
      → Deleted s
      → Versions Deleted rs ss
      → Versions Deleted (r ∷ rs) ss

-- A row that a clean-up of a run deletes: when the call is made, the row stands in the table that
-- the calls before it have left, published before the call's bound.
pub data Cleaned : List (OutboxOperation × ℕ) → Table → OutboxRow → Type 0 where
  now_cleaned :
      {older_than now published : ℕ} {os : List (OutboxOperation × ℕ)} {rows : Table}
      {r : OutboxRow}
      → Mem r rows
      → r.published_at ≡ some published
      → published < older_than
      → Cleaned ((cleanup_op older_than, now) ∷ os) rows r
  later_cleaned :
      {o : OutboxOperation} {now : ℕ} {os : List (OutboxOperation × ℕ)} {rows : Table}
      {r : OutboxRow}
      → Cleaned os (table_after o now rows) r
      → Cleaned ((o, now) ∷ os) rows r

Follows-refl : (r : OutboxRow) → Follows r r
Follows-refl r = record {
  message = refl;
  task = refl;
  event = refl;
  content = refl;
  token = ground arith;
  final = λ _. refl;
}

Follows-trans : {a b c : OutboxRow} → Follows a b → Follows b c → Follows a c
Follows-trans {a} {b} {c} f g = record {
  message = g.message ∙ f.message;
  task = g.task ∙ f.task;
  event = g.event ∙ f.event;
  content = g.content ∙ f.content;
  token = ground (arith, f.token, g.token);
  final = λ p.
      g.final (subst (λ (r : OutboxRow). is_some r.published_at ≡ true) (sym (f.final p)) p)
      ∙ f.final p;
}

Versions-refl : {P : OutboxRow → Type 0} (rows : Table) → Versions P rows rows
Versions-refl [] = no_rows
Versions-refl (r ∷ rows) = kept (Follows-refl r) (Versions-refl rows)

-- What was deleted on the way from the first table to the last.
Versions-trans :
    {P Q : OutboxRow → Type 0} {a b c : Table}
    → ((r : OutboxRow) → P r → Q r)
    → Versions P a b
    → Versions Q b c
    → Versions Q a c
Versions-trans sub no_rows w = w
Versions-trans sub (gone {s = s} f p v) w = gone f (sub s p) (Versions-trans sub v w)
Versions-trans sub (kept f v) (kept g w) = kept (Follows-trans f g) (Versions-trans sub v w)
Versions-trans sub (kept f v) (gone g p w) = gone (Follows-trans f g) p (Versions-trans sub v w)

Versions-map :
    {P Q : OutboxRow → Type 0} {a b : Table}
    → ((r : OutboxRow) → P r → Q r)
    → Versions P a b
    → Versions Q a b
Versions-map sub no_rows = no_rows
Versions-map sub (kept f v) = kept f (Versions-map sub v)
Versions-map sub (gone {s = s} f p v) = gone f (sub s p) (Versions-map sub v)

-- An update of rows that are not published, to later versions.
Versions-update_where :
    {P : OutboxRow → Type 0} (p : OutboxRow → Bool) (f : OutboxRow → OutboxRow) (rows : Table)
    → ((r : OutboxRow) → p r ≡ true → (is_some r.published_at ≡ false) × Follows r (f r))
    → Versions P rows (update_where p f rows)
unfolding update_where changed
Versions-update_where p f [] h = no_rows
Versions-update_where p f (r ∷ rows) h = elim (Bool-cases (p r)) [
  | inl hit ↦ rw hit (kept (h r hit).1 (Versions-update_where p f rows h))
  | inr miss ↦ rw miss (kept (Follows-refl r) (Versions-update_where p f rows h))
]

claimed_row-Follows :
    (p : Publisher) (now : ℕ) (delivery : String) (c r : OutboxRow)
    → claims_row now c r ≡ true
    → (is_some r.published_at ≡ false)
      × Follows r (claimed_row p now delivery (c.claim_fencing_token + 1) r)
unfolding claims_row is_claimable is_pending claimed_row
claimed_row-Follows p now delivery c r h = (
  ground arith,
  record {
    message = refl;
    task = refl;
    event = refl;
    content = refl;
    token = ground arith;
    final = λ published. absurd (ground arith);
  },
)

claim_each-Versions :
    {P : OutboxRow → Type 0} (p : Publisher) (now : ℕ) (uuid : String → ℕ → String)
    (cs rows : Table)
    → Versions P rows (claim_each p now uuid cs rows).1
unfolding claim_each
claim_each-Versions p now uuid [] rows = Versions-refl rows
claim_each-Versions p now uuid (c ∷ cs) rows =
    Versions-trans (λ r deleted. deleted)
      (Versions-update_where (claims_row now c) _ rows
        (λ r h. claimed_row-Follows p now (uuid c.message_id now) c r h))
      (claim_each-Versions p now uuid cs _)

published_row-Follows :
    (p : Publisher) (now : ℕ) (m : ClaimedOutboxMessage) (r : OutboxRow)
    → holds_claim p now m r ≡ true
    → (is_some r.published_at ≡ false) × Follows r (published_row now r)
unfolding holds_claim published_row
published_row-Follows p now m r h = (
  ground arith,
  record {
    message = refl;
    task = refl;
    event = refl;
    content = refl;
    token = ground arith;
    final = λ published. absurd (ground arith);
  },
)

failed_row-Follows :
    (p : Publisher) (now : ℕ) (m : ClaimedOutboxMessage) (e : String) (r : OutboxRow)
    → holds_live_claim p now m r ≡ true
    → (is_some r.published_at ≡ false) × Follows r (failed_row p now m e r)
unfolding holds_live_claim holds_claim failed_row
failed_row-Follows p now m e r h = (
  ground arith,
  record {
    message = refl;
    task = refl;
    event = refl;
    content = refl;
    token = ground arith;
    final = λ published. absurd (ground arith);
  },
)

requeued_row-Follows :
    (now : ℕ) (id : String) (r : OutboxRow)
    → is_dead_letter id r ≡ true
    → (is_some r.published_at ≡ false) × Follows r (requeued_row now r)
unfolding is_dead_letter requeued_row
requeued_row-Follows now id r h = (
  ground arith,
  record {
    message = refl;
    task = refl;
    event = refl;
    content = refl;
    token = ground arith;
    final = λ published. absurd (ground arith);
  },
)

published_cases :
    (older_than : ℕ) (published_at : Option ℕ)
    → published_before older_than published_at ≡ true
    → (t : ℕ) × (published_at ≡ some t) × (t < older_than)
unfolding published_before
published_cases older_than none h = cc
published_cases older_than (some t) h = (t, refl, ground arith)

cleanup-Versions :
    {P : OutboxRow → Type 0} (older_than : ℕ) (rows : Table)
    → ((r : OutboxRow) → Mem r rows → published_before older_than r.published_at ≡ true → P r)
    → Versions P rows (cleanup_published older_than rows)
unfolding cleanup_published keep
cleanup-Versions older_than [] h = no_rows
cleanup-Versions older_than (r ∷ rows) h =
    let rest = cleanup-Versions older_than rows (λ s m. h s (mem-cons_of_mem r m)) in
    elim (Bool-cases (published_before older_than r.published_at)) [
      | inl old ↦ rw old (gone (Follows-refl r) (h r mem-cons_self old) rest)
      | inr recent ↦ rw recent (kept (Follows-refl r) rest)
    ]

table_after-Versions :
    (o : OutboxOperation) (now : ℕ) (os : List (OutboxOperation × ℕ)) (rows : Table)
    → Versions (Cleaned ((o, now) ∷ os) rows) rows (table_after o now rows)
unfolding table_after claim_batch mark_published mark_failed requeue_dead_letter
table_after-Versions (claim_op p uuid) now os rows =
    claim_each-Versions p now uuid (candidates p now rows) rows
table_after-Versions (published_op p m) now os rows =
    Versions-update_where (holds_claim p now m) (published_row now) rows
      (published_row-Follows p now m)
table_after-Versions (failed_op p m e) now os rows =
    Versions-update_where (holds_live_claim p now m) (failed_row p now m e) rows
      (failed_row-Follows p now m e)
table_after-Versions (requeue_op id) now os rows =
    Versions-update_where (is_dead_letter id) (requeued_row now) rows (requeued_row-Follows now id)
table_after-Versions (cleanup_op older_than) now os rows =
    cleanup-Versions older_than rows (λ r m old.
      let (published, at, early) = published_cases older_than r.published_at old in
      now_cleaned m at early)

-- Whatever the calls of however many publishers that share the table: its rows afterwards are, in
-- order, versions of those before, with the same message, task, event number and payload and a
-- fencing token that has not gone down, and unchanged since they were published. A row is missing
-- only where a clean-up of the run found a version of it in the table as the calls before it had
-- left it, published before the clean-up's bound.
pub run_outbox-Versions :
    (os : List (OutboxOperation × ℕ)) (rows : Table)
    → Versions (Cleaned os rows) rows (run_outbox os rows)
unfolding run_outbox
run_outbox-Versions [] rows = Versions-refl rows
run_outbox-Versions ((o, now) ∷ os) rows =
    Versions-trans (λ r deleted. deleted) (table_after-Versions o now os rows)
      (Versions-map (λ r deleted. later_cleaned deleted)
        (run_outbox-Versions os (table_after o now rows)))
