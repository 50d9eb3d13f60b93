-- ===== src/Outbox/Fencing.antt =====
-- A claim that another has replaced has no effect any more.
use desk_pilot_agent.Base.{
  ℕ, ◌<◌, String, ◌≡◌, refl, Bool, false, List, [], ◌∷◌, keep, All, arith, ap,
}
use desk_pilot_agent.Base.Text.{eq_iff}
use desk_pilot_agent.Outbox.Rows.{OutboxRow, Table, changed, update_where, rowcount}
use desk_pilot_agent.Outbox.Publisher.{Publisher, ClaimedOutboxMessage}
use desk_pilot_agent.Outbox.Marks.{
  holds_claim, holds_live_claim, mark_published, failed_row, fenced, mark_failed, published_row,
  OutboxOperation, run_outbox,
}
use desk_pilot_agent.Outbox.Versions.{Versions, no_rows, kept, gone, run_outbox-Versions}

-- Every row of the message has been claimed again, or requeued, since.
abbrev pub IsStale : ClaimedOutboxMessage → Table → Type 0
IsStale m rows =
    All (λ r. r.message_id ≡ m.message_id → m.fencing_token < r.claim_fencing_token) rows

Versions-IsStale :
    {P : OutboxRow → Type 0} (m : ClaimedOutboxMessage) {a b : Table}
    → Versions P a b
    → IsStale m a
    → IsStale m b
Versions-IsStale m no_rows h = tt
Versions-IsStale m (kept f v) (h, hs) =
    ((λ e. ground (arith, h, f.message, f.token)), Versions-IsStale m v hs)
Versions-IsStale m (gone f p v) (h, hs) = Versions-IsStale m v hs

nothing_updated :
    (p : OutboxRow → Bool) (f : OutboxRow → OutboxRow) (rows : Table)
    → All (λ r. p r ≡ false) rows
    → (rowcount p rows ≡ 0) × (update_where p f rows ≡ rows)
unfolding rowcount update_where changed keep
nothing_updated p f [] h = (refl, refl)
nothing_updated p f (r ∷ rows) (h, hs) =
    let (n, same) = nothing_updated p f rows hs in rw h (n, ap (λ t. r ∷ t) same)

stale_holds_nothing :
    (p : Publisher) (now : ℕ) (m : ClaimedOutboxMessage) (rows : Table)
    → IsStale m rows
    → All (λ r. holds_claim p now m r ≡ false) rows
unfolding holds_claim
stale_holds_nothing p now m [] h = tt
stale_holds_nothing p now m (r ∷ rows) (h, hs) =
    (ground (arith, h, eq_iff r.message_id m.message_id), stale_holds_nothing p now m rows hs)

live_too :
    (p : Publisher) (now : ℕ) (m : ClaimedOutboxMessage) (rows : Table)
    → All (λ r. holds_claim p now m r ≡ false) rows
    → All (λ r. holds_live_claim p now m r ≡ false) rows
unfolding holds_live_claim
live_too p now m [] h = tt
live_too p now m (r ∷ rows) (h, hs) = (ground arith, live_too p now m rows hs)

-- Once the fencing token of a claimed message has been passed, then after any further calls, of
-- any publishers, marking the message as published or as failed under the old claim changes
-- nothing and reports that it was fenced.
pub stale_claim_fenced :
    (p : Publisher) (now : ℕ) (m : ClaimedOutboxMessage) (e : String)
    (os : List (OutboxOperation × ℕ)) (rows : Table)
    → IsStale m rows
    → (mark_published p now m (run_outbox os rows) ≡ (false, run_outbox os rows))
      × (mark_failed p now m e (run_outbox os rows) ≡ (fenced, run_outbox os rows))
unfolding mark_published mark_failed
stale_claim_fenced p now m e os rows h =
    let later : Table = run_outbox os rows in
    let unheld : All (λ r. holds_claim p now m r ≡ false) later =
      stale_holds_nothing p now m later (Versions-IsStale m (run_outbox-Versions os rows) h) in
    let (n, same) = nothing_updated (holds_claim p now m) (published_row now) later unheld in
    let (k, still) =
      nothing_updated (holds_live_claim p now m) (failed_row p now m e) later
        (live_too p now m later unheld) in
    (rw (n, same) refl, rw (k, still) refl)
