-- ===== src/Effects/Fences.antt =====
-- The fences of a graph's leases, under any interleaving of the calls.
use desk_pilot_agent.Base.{
  ℕ, ◌+◌, ◌≤◌, ◌<◌, String, ◌≡◌, refl, true, false, Option, some, arith, ◌⊎◌,
}
use desk_pilot_agent.Base.Text.{eq_refl}
use desk_pilot_agent.Base.Result.{ok, err}
use desk_pilot_agent.Effects.Leases.{
  Graph, fence_rejected, owned_by, lease_free, holds_lease, acquire_lease, renew_lease,
  release_lease, assert_lease,
}

-- The rows that a graph goes through. An acquisition may have read any row between.
pub data Runs : Graph → Graph → Type 0 where
  same_row : {g : Graph} → Runs g g
  acquires :
      {g h' : Graph} (seen h : Graph) (owner : String) (ttl now at : ℕ)
      → Runs g seen
      → Runs seen h
      → acquire_lease (some seen) h owner ttl now at ≡ ok h'
      → Runs g h'
  renews :
      {g h' : Graph} (seen h : Graph) (owner : String) (token ttl now at : ℕ)
      → Runs g h
      → renew_lease (some seen) h owner token ttl now at ≡ ok h'
      → Runs g h'
  releases :
      {g : Graph} (seen h : Graph) (owner : String) (token now : ℕ)
      → Runs g h
      → Runs g (release_lease (some seen) h owner token now).1

-- Neither the fence nor the revision goes down, and the fence grows only with the revision.
pub record Evolves (g h : Graph) : Type 0 where
  pub fence : g.fencing_token ≤ h.fencing_token
  pub later : g.revision ≤ h.revision
  pub tied : g.revision ≡ h.revision → g.fencing_token ≡ h.fencing_token

Evolves-trans : {g h i : Graph} → Evolves g h → Evolves h i → Evolves g i
Evolves-trans {g} {h} {i} p q = record {
  fence = ground (arith, p.fence, q.fence);
  later = ground (arith, p.later, q.later);
  tied = λ e. ground (arith, p.later, q.later, p.tied, q.tied);
}

acquire_lease-Evolves :
    (seen h : Graph) (owner : String) (ttl now at : ℕ) {h' : Graph}
    → Evolves seen h
    → acquire_lease (some seen) h owner ttl now at ≡ ok h'
    → Evolves h h'
unfolding acquire_lease
acquire_lease-Evolves seen h owner ttl now at {h'} e q = record {
  fence = ground (arith, e.fence, e.tied);
  later = ground (arith, e.later);
  tied = λ same. ground (arith, e.tied);
}

renew_lease-Evolves :
    (found : Option Graph) (h : Graph) (owner : String) (token ttl now at : ℕ) {h' : Graph}
    → renew_lease found h owner token ttl now at ≡ ok h'
    → Evolves h h'
unfolding renew_lease
renew_lease-Evolves found h owner token ttl now at q = record {
  fence = ground arith;
  later = ground arith;
  tied = λ same. ground arith;
}

release_lease-Evolves :
    (found : Option Graph) (h : Graph) (owner : String) (token now : ℕ)
    → Evolves h (release_lease found h owner token now).1
unfolding release_lease
release_lease-Evolves found h owner token now = record {
  fence = ground arith;
  later = ground arith;
  tied = λ same. ground arith;
}

Runs-Evolves : {g h : Graph} → Runs g h → Evolves g h
Runs-Evolves same_row = record { fence = ground arith; later = ground arith; tied = λ _. refl }
Runs-Evolves (acquires seen h owner ttl now at r s q) =
    Evolves-trans (Evolves-trans (Runs-Evolves r) (Runs-Evolves s))
      (acquire_lease-Evolves seen h owner ttl now at (Runs-Evolves s) q)
Runs-Evolves (renews seen h owner token ttl now at r q) =
    Evolves-trans (Runs-Evolves r) (renew_lease-Evolves (some seen) h owner token ttl now at q)
Runs-Evolves (releases seen h owner token now r) =
    Evolves-trans (Runs-Evolves r) (release_lease-Evolves (some seen) h owner token now)

-- A fence that a graph has passed never works again, whatever calls come between, in any
-- interleaving: work under it is refused, and it can be neither renewed nor released.
pub stale_fence_rejected :
    (g h seen : Graph) (owner : String) (token now at : ℕ)
    → Runs g h
    → token < g.fencing_token
    → (assert_lease h owner token at ≡ err fence_rejected)
      × (release_lease (some seen) h owner token now ≡ (false, h))
      × ((ttl : ℕ) (h' : Graph) → ¬ (renew_lease (some seen) h owner token ttl now at ≡ ok h'))
unfolding assert_lease release_lease renew_lease holds_lease
stale_fence_rejected g h seen owner token now at r old =
    let e : Evolves g h = Runs-Evolves r in
    (ground (arith, e.fence), ground (arith, e.fence), λ ttl h' q. ground (arith, e.fence))

-- A lease is given to one owner at a time: an acquisition, with whatever row it had read before,
-- succeeds only where the owner itself holds the live lease, which keeps its fence, or where the
-- lease was free, and then with a new and greater fence. The owner holds the lease afterwards, for
-- the time that was asked for.
pub acquire_lease-exclusive :
    (seen h h' : Graph) (owner : String) (ttl now at : ℕ)
    → Runs seen h
    → acquire_lease (some seen) h owner ttl now at ≡ ok h'
    → (h'.lease_expires_at ≡ some (now + ttl))
      × (owned_by h'.lease_owner_id owner ≡ true)
      × ((holds_lease h owner h.fencing_token at ≡ true) × (h'.fencing_token ≡ h.fencing_token)
          ⊎ (lease_free h at ≡ true) × (h'.fencing_token ≡ h.fencing_token + 1))
unfolding acquire_lease holds_lease owned_by
acquire_lease-exclusive seen h h' owner ttl now at r q =
    let e : Evolves seen h = Runs-Evolves r in
    (ground arith, ground (arith, eq_refl owner), ground (arith, e.tied))
