-- ===== src/Broker/Safety.antt =====
-- No sequence of operations of the broker sends on a closed channel, blocks on a send or closes a
-- channel twice: a channel that the map or a claim can still reach is open and empty, and is
-- reached in one way.
use compshare_agent.Prelude.{
  ℕ, ◌<◌, String, true, none, some, List, [], ◌∷◌, ◌≡◌, refl, ap, arith, Except, ok, err, ◌==◌, inl,
  inr, Bool-cases, Option-cases,
}
use compshare_agent.Broker.{
  ConfirmDecision, Chan, open_chan, PendingConfirm, Delivery, ConfirmBroker, new_confirm_broker,
  BrokerError, Panic, find, delete, set_chan, send, close, claim_resolution, send_and_close,
  take_claim, deliver, resolve, cancel, Arm, channel_ready, context_done, timer_fired,
  wait_for_confirmation_outcome, Step, registers, claims_resolution, delivers, resolves, cancels,
  waits, step, steps, no_error, deliver_claimed, drop_error, after_wait,
}
use compshare_agent.Broker.Sound.{
  in_pending, in_claims, uses, IsSound, in_pending-find, in_claims-take, set_chan-IsSound,
  register-IsSound, claim_resolution-IsSound,
}

-- An operation that returns, and leaves a sound broker.
abbrev pub Returns : Except Panic ConfirmBroker → Type 0
Returns (ok b) = IsSound b
Returns (err e) = ⊥

pub used-open : (b : ConfirmBroker) (a : ℕ) → IsSound b → 0 < uses a b → b.chans a ≡ open_chan
used-open b a sound used = ((sound a).1 used).1

pub sent-open :
    (d : ConfirmDecision)
    → send_and_close d open_chan ≡ ok (record { buffer = some d; closed = true })
unfolding send_and_close send close
sent-open d = refl

pub closed-open : close open_chan ≡ ok (record { buffer = none; closed = true })
unfolding close
closed-open = refl

deliver-Returns : (n : ℕ) (b : ConfirmBroker) → IsSound b → Returns (deliver n b)
unfolding deliver uses
deliver-Returns n b sound = elim (Option-cases (take_claim n b.claims)) [
  | inl e ↦ rw (e, deliver) sound
  | inr ((c, rest), e) ↦
      (let taken = λ (a : ℕ). in_claims-take a n b.claims c rest e in
        rw (e, used-open b c.ch sound (ground (arith, taken c.ch)), sent-open c.decision, deliver)
          (set_chan-IsSound b
            (record b {
              claims = rest;
              chans = set_chan c.ch (record { buffer = some c.decision; closed = true }) b.chans;
            })
            c.ch (record { buffer = some c.decision; closed = true }) sound refl refl
            (λ a. ground (arith, taken a))))
]

cancel-Returns : (id : String) (b : ConfirmBroker) → IsSound b → Returns (cancel id b)
unfolding cancel uses
cancel-Returns id b sound = elim (Option-cases (find id b.pending)) [
  | inl e ↦ rw (e, cancel) sound
  | inr (p, e) ↦
      (let gone = λ (a : ℕ). in_pending-find a id b.pending p e in
        rw (e, used-open b p.ch sound (ground (arith, gone p.ch)), closed-open, cancel)
          (set_chan-IsSound b
            (record b {
              pending = delete id b.pending;
              chans = set_chan p.ch (record { buffer = none; closed = true }) b.chans;
            })
            p.ch (record { buffer = none; closed = true }) sound refl refl
            (λ a. ground (arith, gone a))))
]

buffered-not_open : (c : Chan) (d : ConfirmDecision) → c ≡ open_chan → c.buffer ≡ some d → ⊥
buffered-not_open c d h k = ground (arith, ap (λ (x : Chan). x.buffer) h)

taken-IsSound :
    (b : ConfirmBroker) (a : ℕ) (c : Chan) (d : ConfirmDecision)
    → (b.chans a).buffer ≡ some d
    → IsSound b
    → IsSound (record b { chans = set_chan a c b.chans })
unfolding uses set_chan
taken-IsSound b a c d e sound x = ((sound x).0, λ used. (((sound x).1 used).0, untouched used))
  where
    untouched : 0 < uses x b → set_chan a c b.chans x ≡ open_chan
    untouched used = elim (Bool-cases (a == x)) [
      | inr other ↦ rw other ((sound x).1 used).1
      | inl own ↦
          (let same : a ≡ x = ground (arith, own) in
            absurd (buffered-not_open (b.chans a) d (rw same ((sound x).1 used).1) e))
    ]

-- A broker that was sound stays so when a decision is taken out of a channel.
waits-IsSound :
    (arm : Arm) (a : ℕ) (b : ConfirmBroker)
    → IsSound b
    → IsSound (after_wait b (wait_for_confirmation_outcome arm a b))
unfolding after_wait wait_for_confirmation_outcome uses set_chan
waits-IsSound context_done a b sound = sound
waits-IsSound timer_fired a b sound = sound
waits-IsSound channel_ready a b sound = elim (Option-cases (b.chans a).buffer) [
  | inl e ↦ elim (Bool-cases (b.chans a).closed) [
    | inl f ↦ rw (e, f, after_wait) sound
    | inr f ↦ rw (e, f, after_wait) sound
  ]
  | inr (d, e) ↦
      rw (e, after_wait) (taken-IsSound b a (record (b.chans a) { buffer = none }) d e sound)
]

no_error-Returns : (x : Except Panic ConfirmBroker) → Returns x → Returns (drop_error (no_error x))
unfolding no_error drop_error
no_error-Returns (ok b) h = h
no_error-Returns (err p) h = h

deliver_claimed-Returns :
    (x : ConfirmBroker × Except BrokerError Delivery)
    → IsSound x.0
    → Returns (drop_error (deliver_claimed x))
unfolding drop_error deliver_claimed
deliver_claimed-Returns (b, err e) h = h
deliver_claimed-Returns (b, ok c) h = no_error-Returns (deliver 0 b) (deliver-Returns 0 b h)

-- One operation.
pub step-Returns : (e : Step) (b : ConfirmBroker) → IsSound b → Returns (step e b)
unfolding step resolve
step-Returns (registers id session_id owner form) b sound =
    register-IsSound id session_id owner form b sound
step-Returns (claims_resolution id owner d) b sound = claim_resolution-IsSound id owner d b sound
step-Returns (delivers n) b sound = deliver-Returns n b sound
step-Returns (resolves id owner d) b sound =
    deliver_claimed-Returns (claim_resolution id owner d b)
      (claim_resolution-IsSound id owner d b sound)
step-Returns (cancels id) b sound = cancel-Returns id b sound
step-Returns (waits arm a) b sound = waits-IsSound arm a b sound

then-Returns :
    (es : List Step) (x : Except Panic ConfirmBroker)
    → ((b : ConfirmBroker) → IsSound b → Returns (steps es b))
    → Returns x
    → Returns (elim x [ ok b ↦ steps es b | err p ↦ err p ])
then-Returns es (ok b) rest h = rest b h
then-Returns es (err p) rest h = h

-- In any sequence of operations, starting from a sound broker, no operation sends on a closed
-- channel, blocks on a send or closes a closed channel, and the broker stays sound.
pub steps-Returns : (es : List Step) (b : ConfirmBroker) → IsSound b → Returns (steps es b)
unfolding steps
steps-Returns [] b sound = sound
steps-Returns (e ∷ es) b sound =
    then-Returns es (step e b) (steps-Returns es) (step-Returns e b sound)

pub new_confirm_broker-IsSound : IsSound new_confirm_broker
unfolding uses in_pending in_claims
new_confirm_broker-IsSound a = (omega arith, λ used. ground (arith, used))

pub pending-open :
    (id : String) (b : ConfirmBroker) (p : PendingConfirm)
    → IsSound b
    → find id b.pending ≡ some p
    → b.chans p.ch ≡ open_chan
unfolding uses
pending-open id b p sound e =
    used-open b p.ch sound (ground (arith, in_pending-find p.ch id b.pending p e))
