-- ===== src/Runner/Ipc/Acceptance.antt =====
-- Which envelopes the verifier accepts.
use desk_pilot_agent.Base.Text.Sets.{eq_of_str_eq}
use desk_pilot_agent.Base.{
  ℕ, ◌+◌, ◌-◌, ◌≤◌, ◌<◌, ◌≡◌, refl, ◌↔◌, true, false, Option, none, some, arith,
}
use desk_pilot_agent.Base.Text.{str_eq, eq_iff}
use desk_pilot_agent.Base.Result.{ok}
use desk_pilot_agent.Runner.Ipc.{
  TimedCommand, IpcPayload, startup_nonce_of, timed_of, SignedIpcEnvelope, unexpired, has_nonce,
  consume, Verifier, check_timed, verify,
}

-- What the freshness checks ask of a command at `now`.
pub record IsFresh (v : Verifier) (c : TimedCommand) (now : ℕ) : Type 0 where
  pub issued : c.issued_at ≤ now + v.clock_skew
  pub live : now < c.expires_at
  pub short : c.expires_at - c.issued_at ≤ v.max_command_ttl
  pub unused : has_nonce c.nonce (unexpired now v.guard) ≡ false

abbrev pub TimedFresh : Verifier → Option TimedCommand → ℕ → Type 0
TimedFresh v none now = Unit
TimedFresh v (some c) now = IsFresh v c now

check_timed_ok :
    (v : Verifier) (p : IpcPayload) (o : Option TimedCommand) (now : ℕ)
    → ((check_timed v p o now).0 ≡ ok p) ↔ TimedFresh v o now
unfolding check_timed consume
check_timed_ok v p none now = (λ _. tt, λ _. refl)
check_timed_ok v p (some c) now =
    (λ h. ground arith, λ f. ground (arith, f.issued, f.live, f.short, f.unused))

verify_ok :
    (v : Verifier) (envelope : SignedIpcEnvelope) (now : ℕ)
    → (verify v envelope now).0 ≡ ok envelope.payload
    → (envelope.key_id ≡ v.key_id)
      × (envelope.signature ≡ v.signature_for envelope.payload)
      × (startup_nonce_of envelope.payload ≡ v.startup_nonce)
      × TimedFresh v (timed_of envelope.payload) now
unfolding verify
verify_ok v envelope now h =
    let key : str_eq envelope.key_id v.key_id ≡ true = ground arith in
    let signed : str_eq envelope.signature (v.signature_for envelope.payload) ≡ true =
      ground arith in
    let session : str_eq (startup_nonce_of envelope.payload) v.startup_nonce ≡ true =
      ground arith in
    (
      eq_of_str_eq _ _ key,
      eq_of_str_eq _ _ signed,
      eq_of_str_eq _ _ session,
      (check_timed_ok v envelope.payload (timed_of envelope.payload) now).0
          (rw (key, signed, session) at h),
    )

verify_accepts :
    (v : Verifier) (envelope : SignedIpcEnvelope) (now : ℕ)
    → envelope.key_id ≡ v.key_id
    → envelope.signature ≡ v.signature_for envelope.payload
    → startup_nonce_of envelope.payload ≡ v.startup_nonce
    → TimedFresh v (timed_of envelope.payload) now
    → (verify v envelope now).0 ≡ ok envelope.payload
unfolding verify
verify_accepts v envelope now key signed session fresh =
    rw
      (
        (eq_iff envelope.key_id v.key_id).1 key,
        (eq_iff envelope.signature (v.signature_for envelope.payload)).1 signed,
        (eq_iff (startup_nonce_of envelope.payload) v.startup_nonce).1 session,
      )
      ((check_timed_ok v envelope.payload (timed_of envelope.payload) now).1 fresh)

-- An envelope is accepted exactly when it is signed under the verifier's key by the verifier's own
-- signature of the payload, belongs to its session, and, where it is a command, was not issued
-- ahead of the clock skew, has not expired, lives no longer than allowed and has an unused nonce.
pub verify_ok_iff :
    (v : Verifier) (envelope : SignedIpcEnvelope) (now : ℕ)
    → ((verify v envelope now).0 ≡ ok envelope.payload) ↔ (
        (envelope.key_id ≡ v.key_id)
        × (envelope.signature ≡ v.signature_for envelope.payload)
        × (startup_nonce_of envelope.payload ≡ v.startup_nonce)
        × TimedFresh v (timed_of envelope.payload) now)
unfolding verify
verify_ok_iff v envelope now =
    (λ h. verify_ok v envelope now h, λ f. verify_accepts v envelope now f.0 f.1 f.2 f.3)
