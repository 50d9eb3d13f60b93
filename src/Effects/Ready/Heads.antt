-- ===== src/Effects/Ready/Heads.antt =====
-- The head of a projection counts its rows, and its upkeep is never refused.
use desk_pilot_agent.Base.{
  ℕ, ◌+◌, ◌-◌, ◌≤◌, ◌==◌, ◌≡◌, refl, sym, ap, ◌∙◌, Bool, false, not, ◌||◌, some, List, [], ◌∷◌, map,
  keep, length, ltb, arith,
}
use desk_pilot_agent.Base.Json.{Json, Hashing}
use desk_pilot_agent.Base.Result.{ok}
use desk_pilot_agent.Tasks.Events.{TaskEvent}
use desk_pilot_agent.Effects.Leases.{Graph}
use desk_pilot_agent.Effects.Dag.{EffectDag}
use desk_pilot_agent.Effects.Ready.{ReadyNode, ReadyState, Projection, count_ready}
use desk_pilot_agent.Effects.Ready.Upkeep.{
  is_stale, validate_state, changes, chain_proof, counted_state, next_state, advance,
}
use desk_pilot_agent.Effects.Ready.Counters.{row_id}

-- The head is that of the last event, and counts the rows.
pub record Heads (seq : ℕ) (rows : List ReadyNode) (s : ReadyState) : Type 0 where
  pub event : s.event_seq ≡ seq
  pub version : s.membership_version ≡ 1
  pub projected : s.projected_node_count ≡ length (map row_id rows)
  pub ready : s.ready_node_count ≡ count_ready rows

-- What a loop gains and loses.
changes_balance :
    (t : ReadyNode → Bool) (f : ReadyNode → ReadyNode) (rows : List ReadyNode)
    → (count_ready rows + (changes t f rows).gained
        ≡ count_ready (map f rows) + (changes t f rows).lost)
      × ((changes t f rows).lost ≤ count_ready rows)
unfolding changes count_ready keep
changes_balance t f [] = (refl, omega arith)
changes_balance t f (r ∷ rs) =
    let (balance, bound) = changes_balance t f rs in (ground arith, ground arith)

count_bound : (rows : List ReadyNode) → count_ready rows ≤ length (map row_id rows)
unfolding count_ready keep
count_bound [] = omega arith
count_bound (r ∷ rs) = ground (arith, count_bound rs)

next_head :
    (h : Hashing) (g : Graph) (s : ReadyState) (event : TaskEvent) (mutation : Json)
    (t : ReadyNode → Bool) (f : ReadyNode → ReadyNode) (rows : List ReadyNode) (at seq : ℕ)
    → map row_id (map f rows) ≡ map row_id rows
    → Heads seq rows s
    → (n : ReadyState) × (next_state h g s event mutation (changes t f rows) at ≡ ok n)
      × Heads event.seq (map f rows) n
unfolding next_state validate_state counted_state
next_head h g s event mutation t f rows at seq ids head =
    let c = changes t f rows in
    let counted = counted_state s event c in
    let (balance, bound) = changes_balance t f rows in
    let few = count_bound rows in
    let few' = count_bound (map f rows) in
    let fine : (not (s.membership_version == 1) || ltb s.projected_node_count s.ready_node_count)
        ≡ false =
      rw (head.version, head.projected, head.ready) (ground arith) in
    let room : ltb (s.ready_node_count + c.gained) c.lost ≡ false = rw head.ready (ground arith) in
    let count : s.ready_node_count + c.gained - c.lost ≡ count_ready (map f rows) =
      rw head.ready (omega (arith, balance, bound)) in
    let fine' : (not (s.membership_version == 1)
          || ltb s.projected_node_count (s.ready_node_count + c.gained - c.lost))
        ≡ false =
      rw (head.version, head.projected, count, ← ids) (ground arith) in
    (
      record counted {
        content_digest =
            h.sha256_digest (chain_proof g counted event mutation c.rows s.content_digest);
        updated_at = at;
      },
      rw (fine, room, fine') refl,
      record {
        event = refl;
        version = head.version;
        projected = head.projected ∙ ap length (sym ids);
        ready = count;
      },
    )

pub current :
    (seq : ℕ) (rows : List ReadyNode) (p : Projection) (s : ReadyState)
    → p.state ≡ some s
    → Heads seq rows s
    → is_stale p.state seq ≡ false
unfolding is_stale
current seq rows p s there head = rw (there, is_stale, head.event, head.version) (ground arith)

pub valid :
    (seq : ℕ) (rows : List ReadyNode) (s : ReadyState) → Heads seq rows s → validate_state s ≡ ok tt
unfolding validate_state
valid seq rows s head =
    let few = count_bound rows in
    let fine : (not (s.membership_version == 1) || ltb s.projected_node_count s.ready_node_count)
        ≡ false =
      rw (head.version, head.projected, head.ready) (ground arith) in
    rw fine refl

pub advanced :
    (h : Hashing) (d : EffectDag) (p : Projection) (s : ReadyState) (event : TaskEvent)
    (mutation : Json) (t : ReadyNode → Bool) (f : ReadyNode → ReadyNode) (rows : List ReadyNode)
    (at seq : ℕ)
    → p.state ≡ some s
    → map row_id (map f rows) ≡ map row_id rows
    → Heads seq rows s
    → (q : Projection) × (advance h d
          (record p { rows = map f rows })
          event
          seq
          mutation
          (changes t f rows)
          at
        ≡ ok q)
      × (n : ReadyState) × (q.state ≡ some n)
      × (q.rows ≡ map f rows)
      × Heads event.seq (map f rows) n
unfolding advance
advanced h d p s event mutation t f rows at seq there ids head =
    let (n, made, next) = next_head h d.graph s event mutation t f rows at seq ids head in
    let stale = current seq rows p s there head in
    (
      record { state = some n; rows = map f rows },
      rw (there, stale, made) refl,
      n,
      refl,
      refl,
      next,
    )
