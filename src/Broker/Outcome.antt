-- ===== src/Broker/Outcome.antt =====
-- What the waiting turn is told when its confirmation is resolved or cancelled.
use compshare_agent.Prelude.{
  ℕ, String, true, false, Option, none, some, ◌≡◌, refl, sym, ap, ◌∙◌, arith, ok, if◌then◌else◌,
  inl, inr, ◌↔◌, Bool-cases, Option-cases,
}
use compshare_agent.Broker.{
  Owner, ConfirmDecision, no_decision, Chan, open_chan, PendingConfirm, Delivery, ConfirmBroker,
  find, delete, set_chan, claim_resolution, settled, take_claim, deliver, no_error, deliver_claimed,
  resolve, cancel, Reason, user_confirmed, user_declined, broker_cancelled, Arm, channel_ready,
  context_done, timer_fired, wait_for_confirmation_outcome, told,
}
use compshare_agent.Broker.Sound.{IsSound}
use compshare_agent.Broker.Safety.{pending-open, sent-open, closed-open}
use compshare_agent.Broker.Claims.{
  accepted, claim-accepted, allowed, claim_resolution_iff, find-delete,
}

set_chan-same : (a : ℕ) (c : Chan) (chans : ℕ → Chan) → set_chan a c chans a ≡ c
unfolding set_chan
set_chan-same a c chans = ground arith

told-buffer :
    (a : ℕ) (b : ConfirmBroker) (d : ConfirmDecision)
    → (b.chans a).buffer ≡ some d
    → told (wait_for_confirmation_outcome channel_ready a b)
      ≡ some (d, if d.confirmed then user_confirmed else user_declined)
unfolding told wait_for_confirmation_outcome
told-buffer a b d e = rw (e, told) refl

told-closed :
    (a : ℕ) (b : ConfirmBroker)
    → (b.chans a).buffer ≡ none
    → (b.chans a).closed ≡ true
    → told (wait_for_confirmation_outcome channel_ready a b) ≡ some (no_decision, broker_cancelled)
unfolding told wait_for_confirmation_outcome
told-closed a b e f = rw (e, f, told) refl

-- The broker after an accepted claim was delivered.
abbrev delivered : String → PendingConfirm → ConfirmDecision → ConfirmBroker → ConfirmBroker
delivered id p d b = record b {
  pending = delete id b.pending;
  chans = set_chan p.ch (record { buffer = some (settled d); closed = true }) b.chans;
}

-- The broker after a pending confirmation was cancelled.
abbrev cancelled : String → PendingConfirm → ConfirmBroker → ConfirmBroker
cancelled id p b = record b {
  pending = delete id b.pending;
  chans = set_chan p.ch (record { buffer = none; closed = true }) b.chans;
}

deliver-accepted :
    (id : String) (d : ConfirmDecision) (b : ConfirmBroker) (p : PendingConfirm)
    → b.chans p.ch ≡ open_chan
    → deliver 0 (accepted id p d b) ≡ ok (delivered id p d b)
unfolding deliver take_claim
deliver-accepted id d b p fresh = rw (deliver, fresh, sent-open (settled d)) refl

resolve-accepted :
    (id : String) (owner : Owner) (d : ConfirmDecision) (b : ConfirmBroker) (p : PendingConfirm)
    → b.chans p.ch ≡ open_chan
    → claim_resolution id owner d b
      ≡ (accepted id p d b, ok (record { ch = p.ch; decision = settled d }))
    → resolve id owner d b ≡ ok (delivered id p d b, none)
unfolding resolve deliver_claimed no_error
resolve-accepted id owner d b p fresh e =
    rw (e, resolve) (ap no_error (deliver-accepted id d b p fresh))

cancel-pending :
    (id : String) (b : ConfirmBroker) (p : PendingConfirm)
    → b.chans p.ch ≡ open_chan
    → find id b.pending ≡ some p
    → cancel id b ≡ ok (cancelled id p b)
unfolding cancel
cancel-pending id b p fresh e = rw (e, cancel) (rw (fresh, closed-open) refl)

-- A decision that the broker accepts reaches the turn that waits on the confirmation's channel: of
-- a sound broker, Resolve returns without an error, and the wait then ends with the decision as it
-- was given, without overrides where it is a refusal, and with its reason.
pub resolve-wait :
    (id : String) (owner : Owner) (d : ConfirmDecision) (b : ConfirmBroker) (c : Delivery)
    → IsSound b
    → (claim_resolution id owner d b).1 ≡ ok c
    → (after : ConfirmBroker) × (resolve id owner d b ≡ ok (after, none))
      × (told (wait_for_confirmation_outcome channel_ready c.ch after)
          ≡ some (settled d, if (settled d).confirmed then user_confirmed else user_declined))
resolve-wait id owner d b c sound h =
    let a = (claim_resolution_iff id owner d b c).0 h in
    let p = a.entry in
    let fresh = pending-open id b p sound a.found in
    let same : p.ch ≡ c.ch = ap (λ (x : Delivery). x.ch) a.given in
    let done = claim-accepted id owner d b p a.found (allowed p owner d a.owned a.offered) in
    let chan = set_chan-same p.ch (record { buffer = some (settled d); closed = true }) b.chans in
    (
      delivered id p d b,
      resolve-accepted id owner d b p fresh done,
      rw (← same) (told-buffer p.ch (delivered id p d b) (settled d) (rw chan refl)),
    )

-- Of a sound broker, Cancel of a pending confirmation returns, the confirmation is no longer
-- pending, and the turn that waits on its channel is told that the broker cancelled it, unconfirmed.
pub cancel-wait :
    (id : String) (b : ConfirmBroker) (p : PendingConfirm)
    → IsSound b
    → find id b.pending ≡ some p
    → (after : ConfirmBroker) × (cancel id b ≡ ok after)
      × (find id after.pending ≡ none)
      × (told (wait_for_confirmation_outcome channel_ready p.ch after)
          ≡ some (no_decision, broker_cancelled))
cancel-wait id b p sound e =
    let fresh = pending-open id b p sound e in
    let chan = set_chan-same p.ch (record { buffer = none; closed = true }) b.chans in
    (
      cancelled id p b,
      cancel-pending id b p fresh e,
      find-delete id b.pending,
      told-closed p.ch (cancelled id p b) (rw chan refl) (rw chan refl),
    )

told-open :
    (a : ℕ) (b : ConfirmBroker)
    → (b.chans a).buffer ≡ none
    → (b.chans a).closed ≡ false
    → told (wait_for_confirmation_outcome channel_ready a b) ≡ none
unfolding told wait_for_confirmation_outcome
told-open a b e f = rw (e, f, told) refl

reason_of-confirmed :
    (d e : ConfirmDecision) (reason : Reason)
    → ◌≡◌ {A = Option (ConfirmDecision × Reason)}
        (some (e, if e.confirmed then user_confirmed else user_declined))
        (some (d, reason))
    → (d.confirmed ≡ true) ↔ (reason ≡ user_confirmed)
reason_of-confirmed d e reason h = elim (Bool-cases e.confirmed) [
  | inl c ↦ (λ x. ground (arith, h, c, x), λ x. ground (arith, h, c, x))
  | inr c ↦ (λ x. ground (arith, h, c, x), λ x. ground (arith, h, c, x))
]

-- However the wait ends, it gives a confirmed decision exactly when its reason is that the user
-- confirmed: a cancelled broker, a lost client and a timeout never count as consent.
told-confirmed_iff :
    (arm : Arm) (a : ℕ) (b : ConfirmBroker) (d : ConfirmDecision) (reason : Reason)
    → told (wait_for_confirmation_outcome arm a b) ≡ some (d, reason)
    → (d.confirmed ≡ true) ↔ (reason ≡ user_confirmed)
unfolding told wait_for_confirmation_outcome
told-confirmed_iff context_done a b d reason h =
    (λ c. ground (arith, h, c), λ c. ground (arith, h, c))
told-confirmed_iff timer_fired a b d reason h =
    (λ c. ground (arith, h, c), λ c. ground (arith, h, c))
told-confirmed_iff channel_ready a b d reason h = elim (Option-cases (b.chans a).buffer) [
  | inr (e, f) ↦ reason_of-confirmed d e reason (sym (told-buffer a b e f) ∙ h)
  | inl f ↦ elim (Bool-cases (b.chans a).closed) [
    | inl c ↦ (
      λ x. ground (arith, h, told-closed a b f c, x),
      λ x. ground (arith, h, told-closed a b f c, x),
    )
    | inr c ↦ (λ x. ground (arith, h, told-open a b f c), λ x. ground (arith, h, told-open a b f c))
  ]
]
