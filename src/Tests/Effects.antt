-- ===== src/Tests/Effects.antt =====
-- Runs of the leases of an effect graph.
use desk_pilot_agent.Base.{ℕ, ◌+◌, ◌≡◌, ◌⊎◌, refl, true, false, none, some, arith}
use desk_pilot_agent.Base.Result.{ok, err}
use desk_pilot_agent.Effects.GraphStatus.{EffectGraphStatus, forward_mode}
use desk_pilot_agent.Effects.Leases.{
  Graph, fence_rejected, owned_by, lease_free, holds_lease, taken, acquire_lease, renew_lease,
  release_lease, assert_lease,
}
use desk_pilot_agent.Effects.Fences.{same_row, stale_fence_rejected, acquire_lease-exclusive}

-- A graph whose lease, of fence 1, has expired.
abbrev graph : Graph
graph = record {
  graph_id = "g";
  schema_version = "deskpilot.tool-effect-graph.v2";
  status = EffectGraphStatus.active;
  execution_mode = forward_mode;
  cancel_requested_at = none;
  last_event_seq = 3;
  revision = 4;
  lease_owner_id = some "old";
  lease_acquired_at = some 1;
  lease_heartbeat_at = some 1;
  lease_expires_at = some 5;
  fencing_token = 1;
  updated_at = 1;
}

abbrev taken_over : Graph
taken_over = taken graph graph "new" 9 2000000

graph_taken : acquire_lease (some graph) graph "new" 2000000 9 9 ≡ ok taken_over
unfolding acquire_lease owned_by lease_free desk_pilot_agent.Effects.Leases.no_lease
graph_taken = refl

acquire_lease-exclusive_example :
    (taken_over.lease_expires_at ≡ some 2000009)
    × (owned_by taken_over.lease_owner_id "new" ≡ true)
    × ((holds_lease graph "new" graph.fencing_token 9 ≡ true)
          × (taken_over.fencing_token ≡ graph.fencing_token)
        ⊎ (lease_free graph 9 ≡ true) × (taken_over.fencing_token ≡ graph.fencing_token + 1))
acquire_lease-exclusive_example =
    acquire_lease-exclusive graph graph taken_over "new" 2000000 9 9 same_row graph_taken

stale_fence_rejected_example :
    (assert_lease taken_over "old" 1 10 ≡ err fence_rejected)
    × (release_lease (some graph) taken_over "old" 1 10 ≡ (false, taken_over))
    × ((ttl : ℕ) (h' : Graph) → ¬ (renew_lease (some graph) taken_over "old" 1 ttl 10 10 ≡ ok h'))
stale_fence_rejected_example =
    stale_fence_rejected taken_over taken_over graph "old" 1 10 10 same_row (ground arith)
