-- ===== src/Effects/Leases.antt =====
-- backend/src/deskpilot/application/task_service.py: the leases of an effect graph, which let one
-- dispatcher at a time work on it. A call reads the graph's row and then updates it if it still
-- satisfies the update's conditions: the two rows are separate arguments, since other transactions
-- may come between. `now` is the clock that the call read, `at` that of the update.
use desk_pilot_agent.Base.{
  ℕ, ◌+◌, ◌*◌, String, Bool, true, false, not, ◌&&◌, ◌==◌, Option, none, some, ltb, leb, length,
  if◌then◌else◌,
}
use desk_pilot_agent.Base.Text.{str_eq}
use desk_pilot_agent.Effects.GraphStatus.{EffectGraphStatus, EffectExecutionMode}
use desk_pilot_agent.Base.Json.{codes}
use desk_pilot_agent.Base.Result.{Result, ok, err, raise_if}

-- `ToolEffectGraphRecord`, but for its task, `current_node_id` and `failure_node_id`, which effect
-- DAGs do not use, and the time it was created.
pub record Graph : Type 0 where
  pub graph_id : String
  pub schema_version : String
  pub status : EffectGraphStatus
  pub execution_mode : EffectExecutionMode
  pub cancel_requested_at : Option ℕ
  pub last_event_seq : ℕ
  pub revision : ℕ
  pub lease_owner_id : Option String
  pub lease_acquired_at : Option ℕ
  pub lease_heartbeat_at : Option ℕ
  pub lease_expires_at : Option ℕ
  pub fencing_token : ℕ
  pub updated_at : ℕ

pub data LeaseError : Type 0 where
  owner_invalid ttl_invalid graph_not_found lease_unavailable fence_rejected : LeaseError

abbrev second : ℕ
second = 1000000

-- `1 <= ttl_seconds <= 3_600`
unfoldable pub ttl_valid : ℕ → Bool
ttl_valid ttl = leb second ttl && leb ttl (3600 * second)

-- `1 <= len(owner_id) <= 80`
owner_valid : String → Bool
unfolding codes
owner_valid owner = leb 1 (length (codes owner)) && leb (length (codes owner)) 80

unfoldable pub owned_by : Option String → String → Bool
owned_by none owner = false
owned_by (some o) owner = str_eq o owner

-- `lease_expires_at > at`
unfoldable pub live_at : Option ℕ → ℕ → Bool
live_at none at = false
live_at (some t) at = ltb at t

-- `lease_owner_id IS NULL OR lease_expires_at IS NULL OR lease_expires_at <= at`
unfoldable pub no_lease : Option String → Option ℕ → ℕ → Bool
no_lease (some _) (some t) at = leb t at
no_lease _ _ at = true

unfoldable pub lease_free : Graph → ℕ → Bool
lease_free g at = no_lease g.lease_owner_id g.lease_expires_at at

-- The row has this owner and fence, and its lease is live.
unfoldable pub holds_lease : Graph → String → ℕ → ℕ → Bool
holds_lease g owner token at =
    owned_by g.lease_owner_id owner && g.fencing_token == token && live_at g.lease_expires_at at

-- The row of a lease that is extended, and that of one that is taken.
abbrev pub extended : Graph → ℕ → ℕ → Graph
extended g now ttl = record g {
  lease_heartbeat_at = some now;
  lease_expires_at = some (now + ttl);
  updated_at = now;
}

abbrev pub taken : Graph → Graph → String → ℕ → ℕ → Graph
taken seen g owner now ttl = record g {
  lease_owner_id = some owner;
  lease_acquired_at = some now;
  lease_heartbeat_at = some now;
  lease_expires_at = some (now + ttl);
  fencing_token = seen.fencing_token + 1;
  revision = seen.revision + 1;
  updated_at = now;
}

-- `acquire_effect_graph_lease`
unfoldable pub acquire_lease : Option Graph → Graph → String → ℕ → ℕ → ℕ → Result LeaseError Graph
unfolding owner_valid ttl_valid
acquire_lease found g owner ttl now at =
    if not (owner_valid owner)
    then err owner_invalid
    else if not (ttl_valid ttl)
    then err ttl_invalid
    else elim found [
      | none ↦ err graph_not_found
      | some seen ↦
          if owned_by seen.lease_owner_id owner
            && live_at seen.lease_expires_at now
            && ltb 0 seen.fencing_token
          then (if holds_lease g owner seen.fencing_token at
              then ok (extended g now ttl)
              else err lease_unavailable)
          else if g.revision == seen.revision && lease_free g at
          then ok (taken seen g owner now ttl)
          else err lease_unavailable
    ]

-- `renew_effect_graph_lease`
unfoldable pub renew_lease : Option Graph → Graph → String → ℕ → ℕ → ℕ → ℕ → Result LeaseError Graph
unfolding ttl_valid
renew_lease found g owner token ttl now at =
    if not (ttl_valid ttl) then err ttl_invalid else elim found [
      | none ↦ err graph_not_found
      | some _ ↦
          if holds_lease g owner token at then ok (extended g now ttl) else err fence_rejected
    ]

abbrev pub released_lease : Graph → ℕ → Graph
released_lease g now = record g {
  lease_owner_id = none;
  lease_acquired_at = none;
  lease_heartbeat_at = none;
  lease_expires_at = none;
  revision = g.revision + 1;
  updated_at = now;
}

-- `release_effect_graph_lease`, with the row it leaves.
unfoldable pub release_lease : Option Graph → Graph → String → ℕ → ℕ → Bool × Graph
release_lease none g owner token now = (false, g)
release_lease (some _) g owner token now =
    if owned_by g.lease_owner_id owner && g.fencing_token == token
    then (true, released_lease g now)
    else (false, g)

-- `_assert_effect_graph_lease`
unfoldable pub assert_lease : Graph → String → ℕ → ℕ → Result LeaseError (Unit {0})
assert_lease g owner token at = raise_if (not (holds_lease g owner token at)) fence_rejected
