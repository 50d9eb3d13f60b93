-- ===== src/Effects/Ready/Upkeep.antt =====
-- backend/src/deskpilot/application/task_service.py: how the projection of the ready nodes moves on
-- from event to event, and what the operations that change its rows share. The loops over a set of rows
-- go by ordinal here.
use desk_pilot_agent.Base.{
  ℕ, ◌+◌, ◌-◌, String, Bool, true, false, not, ◌&&◌, ◌||◌, ◌==◌, Option, none, some, List, [], map,
  keep, all_of, is_some, length, ltb, if◌then◌else◌,
}
use desk_pilot_agent.Base.Json.{Json, Hashing, end, field, str, num, obj}
use desk_pilot_agent.Base.Result.{Result, ok, ◌>>=◌, ◌>>◌, raise_if}
use desk_pilot_agent.Tasks.Events.{TaskEvent}
use desk_pilot_agent.Effects.Leases.{Graph}
use desk_pilot_agent.Effects.Dag.{EffectEdge, EffectDag, EffectError, ready_set_rejected, find_node}
use desk_pilot_agent.Effects.Ready.{
  ReadyNode, ReadyState, Projection, membership, digested, find_row, proofs_of, rebuild,
}

-- The head is not that of the event before.
unfoldable pub is_stale : Option ReadyState → ℕ → Bool
is_stale none expected = true
is_stale (some s) expected = not (s.event_seq == expected) || not (s.membership_version == 1)

-- `_validate_effect_ready_projection_state`
unfoldable pub validate_state : ReadyState → Result EffectError (Unit {0})
validate_state s =
    raise_if (not (s.membership_version == 1) || ltb s.projected_node_count s.ready_node_count)
      ready_set_rejected

-- The rows that were changed, and how many of them are ready that were not, and the reverse.
pub record Changes : Type 0 where
  pub rows : List ReadyNode
  pub gained : ℕ
  pub lost : ℕ

abbrev pub no_changes : Changes
no_changes = record { rows = []; gained = 0; lost = 0 }

pub chain_proof : Graph → ReadyState → TaskEvent → Json → List ReadyNode → String → Json
unfolding proofs_of
chain_proof g s event mutation changed previous = obj (
    field "schema_version" (str "deskpilot.effect-ready-projection-chain.v2") (
      field "graph_id" (str g.graph_id) (
        field "previous_digest" (str previous) (
          field "projection_revision" (num s.revision) (
            field "event_id" (str event.event_id) (
              field "event_seq" (num event.seq) (
                field "projected_node_count" (num s.projected_node_count) (
                  field "ready_node_count" (num s.ready_node_count) (
                    field "mutation" mutation
                      (field "changed_rows" (proofs_of changed) end))))))))))

abbrev pub differs : Bool → Bool → Bool
differs true b = not b
differs false b = b

-- What is counted of a loop that changes rows.
unfoldable pub changes : (ReadyNode → Bool) → (ReadyNode → ReadyNode) → List ReadyNode → Changes
changes is_changed f rows = record {
  rows = map f (keep is_changed rows);
  gained = length (keep (λ (r : ReadyNode). not r.membership_ready && (f r).membership_ready) rows);
  lost = length (keep (λ (r : ReadyNode). r.membership_ready && not (f r).membership_ready) rows);
}

abbrev pub targets_of : List EffectEdge → List String
targets_of = map (λ (e : EffectEdge). e.to_node_id)

-- Every target has its row and its node.
unfoldable pub all_known : EffectDag → List ReadyNode → List String → Bool
unfolding all_of find_row find_node
all_known d rows = all_of (λ id. is_some (find_row id rows) && is_some (find_node id d.nodes))

-- The head with the event and the count of ready nodes.
unfoldable pub counted_state : ReadyState → TaskEvent → Changes → ReadyState
counted_state s event c = record s {
  revision = s.revision + 1;
  event_seq = event.seq;
  ready_node_count = s.ready_node_count + c.gained - c.lost;
}

module _ (h : Hashing) where
  -- The head that follows another; a count below 0 is refused.
  unfoldable pub next_state :
      Graph → ReadyState → TaskEvent → Json → Changes → ℕ → Result EffectError ReadyState
  unfolding validate_state counted_state chain_proof
  next_state g s event mutation c at = do
    validate_state s
    raise_if (ltb (s.ready_node_count + c.gained) c.lost) ready_set_rejected
    let counted = counted_state s event c
    validate_state counted
    ok (record counted {
      content_digest =
          h.sha256_digest (chain_proof g counted event mutation c.rows s.content_digest);
      updated_at = at;
    })

  -- `_advance_effect_dag_ready_projection`
  unfoldable pub advance :
      EffectDag → Projection → TaskEvent → ℕ → Json → Changes → ℕ → Result EffectError Projection
  unfolding is_stale next_state rebuild
  advance d p event expected mutation c at = elim p.state [
    | none ↦ rebuild h d p at
    | some s ↦
        if is_stale p.state expected
        then rebuild h d p at
        else (next_state d.graph s event mutation c at >>= λ next.
            ok (record p { state = some next }))
  ]

  -- The membership of a row is computed again, and the row's digest where it changed.
  unfoldable pub refreshed : EffectDag → ℕ → Bool → ReadyNode → ReadyNode
  unfolding find_node membership digested
  refreshed d at counted r = elim (find_node r.node_id d.nodes) [
    | none ↦ r
    | some n ↦
        let ready =
          membership n r.remaining_predecessors r.unresolved_branches r.branch_rejected at in
        if counted || differs ready r.membership_ready
        then digested h
            (record r { membership_ready = ready; revision = r.revision + 1; updated_at = at })
        else r
  ]
