-- ===== src/Effects/Ready/Expiry.antt =====
-- backend/src/deskpilot/application/task_service.py: `_reconcile_expired_effect_ready_memberships`,
-- by which the nodes whose claims have expired become ready again.
use desk_pilot_agent.Base.{
  ℕ, ◌+◌, String, ◌≡◌, refl, subst, Bool, true, false, not, ◌&&◌, ◌||◌, ◌==◌, none, some, List, [],
  ◌∷◌, map, any_of, keep, length, ltb, leb, is_some, if◌then◌else◌, if_lem, if_cases, option_cases,
  inl, inr,
}
use desk_pilot_agent.Base.Text.{str_eq}
use desk_pilot_agent.Base.Json.{Json, Hashing, end, field, str, num, obj}
use desk_pilot_agent.Base.Result.{
  Result, ok, err, ◌>>=◌, ◌>>◌, raise_if, traverse, bind_ok, raise_if_ok, ok_injective,
}
use desk_pilot_agent.Effects.NodeStatus.{is_pending, is_active}
use desk_pilot_agent.Effects.Leases.{Graph}
use desk_pilot_agent.Effects.Dag.{EffectNode, EffectDag, EffectError, ready_set_rejected, find_node}
use desk_pilot_agent.Effects.Ready.{
  ReadyNode, ReadyState, Projection, membership, digested, proofs_of,
}
use desk_pilot_agent.Effects.Ready.Upkeep.{validate_state}
use desk_pilot_agent.Effects.Ready.Counters.{IsExact, Same, Same-refl, map-IsExact}

-- A claim that has expired at the time.
unfoldable pub claim_ended : EffectNode → ℕ → Bool
claim_ended n time =
    is_some n.claim_owner_id && elim n.claim_expires_at [ none ↦ false | some t ↦ leb t time ]

-- The rows that the query selects: nothing but the claim kept the node from being ready.
unfoldable pub is_expired : EffectDag → ℕ → ReadyNode → Bool
unfolding find_node claim_ended
is_expired d time r = elim (find_node r.node_id d.nodes) [
  | none ↦ false
  | some n ↦
      (is_pending n.status || is_active n.status)
      && claim_ended n time
      && not r.membership_ready
      && not r.branch_rejected
      && r.remaining_predecessors == 0
      && r.unresolved_branches == 0
]

-- `.order_by(ToolEffectNodeRecord.claim_expires_at)`
expiry_of : EffectDag → ReadyNode → ℕ
unfolding find_node
expiry_of d r = elim (find_node r.node_id d.nodes) [
  | none ↦ 0
  | some n ↦ elim n.claim_expires_at [ none ↦ 0 | some t ↦ t ]
]

insert_row : EffectDag → ReadyNode → List ReadyNode → List ReadyNode
unfolding expiry_of
insert_row d r [] = r ∷ []
insert_row d r (s ∷ ss) =
    let rest = insert_row d r ss in
    if ltb (expiry_of d s) (expiry_of d r) then s ∷ rest else r ∷ s ∷ ss

unfoldable pub by_expiry : EffectDag → List ReadyNode → List ReadyNode
unfolding insert_row
by_expiry d [] = []
by_expiry d (r ∷ rs) = insert_row d r (by_expiry d rs)

expiry_proof : Graph → ReadyState → String → ℕ → List ReadyNode → Json
unfolding proofs_of
expiry_proof g s previous time changed = obj (
    field "schema_version" (str "deskpilot.effect-ready-projection-expiry.v1") (
      field "graph_id" (str g.graph_id) (
        field "previous_digest" (str previous) (
          field "projection_revision" (num s.revision) (
            field "event_seq" (num s.event_seq) (
              field "database_time" (num time) (
                field "projected_node_count" (num s.projected_node_count) (
                  field "ready_node_count" (num s.ready_node_count)
                    (field "changed_rows" (proofs_of changed) end)))))))))

-- The head is the one that the caller has seen.
unfoldable pub is_seen : Graph → ReadyState → ReadyState → Bool
is_seen g seen s =
    s.event_seq == g.last_event_seq
    && s.revision == seen.revision
    && str_eq s.content_digest seen.content_digest

-- The head with the nodes that are ready again.
unfoldable pub recounted : ReadyState → List ReadyNode → ReadyState
recounted s expired = record s {
  revision = s.revision + 1;
  ready_node_count = s.ready_node_count + length expired;
}

module _ (h : Hashing) where
  -- The body of the loop over the rows: the digest and the membership are checked.
  unfoldable pub check_expired : EffectDag → ℕ → ReadyNode → Result EffectError (Unit {0})
  unfolding digested find_node membership
  check_expired d time r =
      raise_if (not (str_eq r.proof_digest (digested h r).proof_digest)) ready_set_rejected
      >> elim (find_node r.node_id d.nodes) [
        | none ↦ err ready_set_rejected
        | some n ↦
            raise_if
              (not (
                membership n r.remaining_predecessors r.unresolved_branches r.branch_rejected time))
              ready_set_rejected
      ]

  unfoldable pub revived : ℕ → ReadyNode → ReadyNode
  unfolding digested
  revived at r =
      digested h (record r { membership_ready = true; revision = r.revision + 1; updated_at = at })

  unfoldable pub revived_row : EffectDag → ℕ → ℕ → ReadyNode → ReadyNode
  unfolding is_expired revived
  revived_row d time at r = if is_expired d time r then revived at r else r

  -- The head after the loop.
  unfoldable pub revive :
      EffectDag → Projection → ReadyState → ℕ → ℕ → List ReadyNode → Result EffectError Projection
  unfolding traverse check_expired by_expiry revived revived_row recounted validate_state
      expiry_proof
  revive d p s time at expired = do
    _ ← traverse (check_expired d time) expired
    let counted = recounted s expired
    validate_state counted
    let changed = map (revived at) (by_expiry d expired)
    ok (record {
      state = some (record counted {
        content_digest =
            h.sha256_digest (expiry_proof d.graph counted s.content_digest time changed);
        updated_at = at;
      });
      rows = map (revived_row d time at) p.rows;
    })

  -- `_reconcile_expired_effect_ready_memberships`, with the head that the caller has seen.
  unfoldable pub reconcile_expired :
      EffectDag → Projection → ReadyState → ℕ → ℕ → Result EffectError Projection
  unfolding is_seen validate_state any_of keep is_expired revive
  reconcile_expired d p seen time at = elim p.state [
    | none ↦ err ready_set_rejected
    | some s ↦ do
      raise_if (not (is_seen d.graph seen s)) ready_set_rejected
      validate_state s
      (if not (any_of (is_expired d time) p.rows)
          then ok p
          else revive d p s time at (keep (is_expired d time) p.rows))
  ]

revived_row-Same :
    (h : Hashing) (d : EffectDag) (time at : ℕ) (r : ReadyNode) → Same r (revived_row h d time at r)
unfolding revived_row revived digested
revived_row-Same h d time at r =
    if_lem (Same r) (is_expired d time r) _ r
      (record { id = refl; graph = refl; remaining = refl; unresolved = refl; rejected = refl })
      (Same-refl r)

revive-IsExact :
    (h : Hashing) (d : EffectDag) (p q : Projection) (s : ReadyState) (time at : ℕ)
    (expired : List ReadyNode)
    → IsExact d p.rows
    → revive h d p s time at expired ≡ ok q
    → IsExact d q.rows
unfolding revive
revive-IsExact h d p q s time at expired exact made =
    let (_, _, h1) = bind_ok (traverse (check_expired h d time) expired) _ made in
    let (_, _, h2) = bind_ok (validate_state (recounted s expired)) _ h1 in
    subst (λ (x : Projection). IsExact d x.rows) (ok_injective h2)
      (map-IsExact d (revived_row h d time at) (revived_row-Same h d time at) p.rows exact)

-- The counters stay.
pub reconcile_expired-IsExact :
    (h : Hashing) (d : EffectDag) (p q : Projection) (seen : ReadyState) (time at : ℕ)
    → IsExact d p.rows
    → reconcile_expired h d p seen time at ≡ ok q
    → IsExact d q.rows
unfolding reconcile_expired
reconcile_expired-IsExact h d p q seen time at exact made =
    elim (option_cases p.state (err ready_set_rejected) _ made) [
      | inl refused ↦ cc
      | inr (s, h1) ↦
          let (_, h2) = raise_if_ok (not (is_seen d.graph seen s)) ready_set_rejected _ h1 in
          let (_, _, h3) = bind_ok (validate_state s) _ h2 in
          elim (if_cases (not (any_of (is_expired d time) p.rows)) (ok p) _ h3) [
            | inl same ↦ subst (λ (x : Projection). IsExact d x.rows) (ok_injective same) exact
            | inr revived ↦
                revive-IsExact h d p q s time at (keep (is_expired d time) p.rows) exact revived
          ]
    ]
