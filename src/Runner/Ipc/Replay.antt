-- ===== src/Runner/Ipc/Replay.antt =====
-- A command is accepted at most once in the life of a verifier.
use desk_pilot_agent.Base.{
  ℕ, ◌≤◌, ◌<◌, String, ◌≡◌, ◌⊎◌, inl, inr, ◌≢◌, true, Option, none, some, List, [], ◌∷◌, arith,
}
use desk_pilot_agent.Base.Text.{eq_iff}
use desk_pilot_agent.Base.Result.{ok}
use desk_pilot_agent.Runner.Ipc.{
  TimedCommand, IpcPayload, timed_of, SignedIpcEnvelope, Guard, unexpired, has_nonce, consume,
  Verifier, check_timed, verify, verify_all,
}

-- The guard still knows the nonce, until `expiry`.
abbrev Stored : String → ℕ → Guard → Type 0
Stored nonce expiry [] = ⊥
Stored nonce expiry ((k, e) ∷ g) = ((k ≡ nonce) × (e ≡ expiry)) ⊎ Stored nonce expiry g

-- Either the command has expired by `now`, or the guard knows its nonce.
abbrev Remembered : String → ℕ → ℕ → Guard → Type 0
Remembered nonce expiry now g = (expiry ≤ now) ⊎ Stored nonce expiry g

Stored-unexpired :
    (nonce : String) (expiry now : ℕ) (g : Guard)
    → now < expiry
    → Stored nonce expiry g
    → Stored nonce expiry (unexpired now g)
unfolding unexpired
Stored-unexpired nonce expiry now [] h s = s
Stored-unexpired nonce expiry now ((k, e) ∷ g) h (inl p) = ground arith
Stored-unexpired nonce expiry now ((k, e) ∷ g) h (inr p) =
    ground (arith, Stored-unexpired nonce expiry now g h p)

has_nonce-Stored :
    (nonce : String) (expiry : ℕ) (g : Guard) → Stored nonce expiry g → has_nonce nonce g ≡ true
unfolding has_nonce
has_nonce-Stored nonce expiry [] s = absurd s
has_nonce-Stored nonce expiry ((k, e) ∷ g) (inl p) = ground (arith, eq_iff nonce k)
has_nonce-Stored nonce expiry ((k, e) ∷ g) (inr p) =
    ground (arith, has_nonce-Stored nonce expiry g p)

consume_keeps :
    (g : Guard) (n nonce : String) (e expiry now : ℕ)
    → Remembered nonce expiry now g
    → Remembered nonce expiry now (consume g n e now).1
unfolding consume
consume_keeps g n nonce e expiry now r = ground (arith, Stored-unexpired nonce expiry now g)

check_timed_keeps :
    (v : Verifier) (p : IpcPayload) (o : Option TimedCommand) (nonce : String) (expiry now : ℕ)
    → Remembered nonce expiry now v.guard
    → Remembered nonce expiry now (check_timed v p o now).1.guard
unfolding check_timed consume
check_timed_keeps v p none nonce expiry now r = r
check_timed_keeps v p (some c) nonce expiry now r =
    ground (arith, Stored-unexpired nonce expiry now v.guard)

verify_keeps :
    (v : Verifier) (envelope : SignedIpcEnvelope) (nonce : String) (expiry now : ℕ)
    → Remembered nonce expiry now v.guard
    → Remembered nonce expiry now (verify v envelope now).1.guard
unfolding verify
verify_keeps v envelope nonce expiry now r =
    ground
      (arith, check_timed_keeps v envelope.payload (timed_of envelope.payload) nonce expiry now r)

-- The times of a series do not go back, from `start` to `now`.
abbrev pub Onward : ℕ → List (SignedIpcEnvelope × ℕ) → ℕ → Type 0
Onward start [] now = start ≤ now
Onward start ((_, time) ∷ rest) now = (start ≤ time) × Onward time rest now

verify_all_keeps :
    (v : Verifier) (steps : List (SignedIpcEnvelope × ℕ)) (nonce : String) (expiry start now : ℕ)
    → Onward start steps now
    → Remembered nonce expiry start v.guard
    → Remembered nonce expiry now (verify_all v steps).guard
unfolding verify_all
verify_all_keeps v [] nonce expiry start now o r = ground arith
verify_all_keeps v ((envelope, time) ∷ rest) nonce expiry start now o r =
    let later : Remembered nonce expiry time v.guard = ground arith in
    verify_all_keeps (verify v envelope time).1 rest nonce expiry time now o.1
      (verify_keeps v envelope nonce expiry time later)

accepted_Stored :
    (v : Verifier) (p : IpcPayload) (c : TimedCommand) (now : ℕ) {q : IpcPayload}
    → (check_timed v p (some c) now).0 ≡ ok q
    → Stored c.nonce c.expires_at (check_timed v p (some c) now).1.guard
unfolding check_timed consume
accepted_Stored v p c now h = ground arith

accepted_timed :
    (v : Verifier) (envelope : SignedIpcEnvelope) (c : TimedCommand) (now : ℕ) {q : IpcPayload}
    → timed_of envelope.payload ≡ some c
    → (verify v envelope now).0 ≡ ok q
    → verify v envelope now ≡ check_timed v envelope.payload (some c) now
unfolding verify
accepted_timed v envelope c now t h = ground arith

refused :
    (v : Verifier) (p : IpcPayload) (c : TimedCommand) (expiry now : ℕ) {q : IpcPayload}
    → c.expires_at ≤ expiry
    → Remembered c.nonce expiry now v.guard
    → (check_timed v p (some c) now).0 ≢ ok q
unfolding check_timed consume
refused v p c expiry now early r a = ground (
  arith,
  Stored-unexpired c.nonce expiry now v.guard,
  has_nonce-Stored c.nonce expiry (unexpired now v.guard),
)

-- Once a command has been accepted, then whatever envelopes are verified after it, at times that do
-- not go back, no command with its nonce and an expiry no later than its own is accepted.
pub no_second_acceptance :
    (v : Verifier) (first second : SignedIpcEnvelope) (c d : TimedCommand)
    → (steps : List (SignedIpcEnvelope × ℕ)) (start now : ℕ) (p q : IpcPayload)
    → timed_of first.payload ≡ some c
    → timed_of second.payload ≡ some d
    → d.nonce ≡ c.nonce
    → d.expires_at ≤ c.expires_at
    → (verify v first start).0 ≡ ok p
    → Onward start steps now
    → (verify (verify_all (verify v first start).1 steps) second now).0 ≢ ok q
no_second_acceptance v first second c d steps start now p q tc td same early a onward b =
    let stored : Stored c.nonce c.expires_at (verify v first start).1.guard =
      rw (accepted_timed v first c start tc a)
        (accepted_Stored v first.payload c start (rw (accepted_timed v first c start tc a) at a)) in
    let w : Verifier = verify_all (verify v first start).1 steps in
    let known : Remembered d.nonce c.expires_at now w.guard = rw same (
      verify_all_keeps (verify v first start).1 steps c.nonce c.expires_at start now onward
        (inr stored)) in
    refused w second.payload d c.expires_at now early known
      (rw (accepted_timed w second d now td b) at b)
