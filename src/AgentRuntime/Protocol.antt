-- ===== src/AgentRuntime/Protocol.antt =====
-- The events of a turn and its outcome.
use compshare_agent.Prelude.{
  ℕ, zero, suc, ◌+◌, ◌-◌, ◌<◌, Bool, true, false, Option, none, some, List, [], ◌∷◌, ◌++◌, Except,
  ok, err, leb, str_eq, eq_iff, ◌≡◌, ◌≢◌, refl, sym, inl, inr, arith, Option-cases, Bool-cases, ◌∙◌,
  append-nil, append_assoc,
}
use compshare_agent.Workflow.Types.{GoError}
use compshare_agent.AgentRuntime.{
  finish_final_answer, finish_round_limit, event_round_started, event_finished, Event, event,
  Result, Driver, reported_all, Surroundings, Turn, RunError, round_limit, cause, continue_result,
  with_reason, emit, finish, finish_if, settle, call_driver, run_rounds, run,
}

module _ {W : Type 0} (s : Surroundings W) (driver : Driver W) where
  -- The rounds with the indices from `i` up to `n`, which take the state from `w` to `u`, and their
  -- events: in each the driver is called and does not fail, and each but the last of a turn asks for
  -- another.
  pub data Rounds : ℕ → W → ℕ → W → List Event → Type 0 where
    no_more : {i : ℕ} {w : W} → Rounds i w i w []
    round :
        {i n : ℕ} {w u : W} {r : Result} {rest : List Event}
        → s.context_error w ≡ none
        → (driver i w).2 ≡ ok r
        → r.done ≡ false
        → Rounds (suc i) (driver i w).0 n u rest
        → Rounds i w n u (event event_round_started i ∷ reported_all i (driver i w).1 ++ rest)

  -- What ends a turn after `n` rounds, in the state `w`: the events that follow, the result and the
  -- error.
  pub data Ends (max_rounds n : ℕ) (w : W) : List Event → Result → Option RunError → Type 0 where
    -- The next round gives an answer.
    answered :
        {r : Result}
        → n < max_rounds
        → s.context_error w ≡ none
        → (driver n w).2 ≡ ok r
        → r.done ≡ true
        → (with_reason r).reason ≢ ""
        → Ends max_rounds n w
            (event event_round_started n ∷ reported_all n (driver n w).1
              ++ record (event event_finished n) { finish_reason = (with_reason r).reason } ∷ [])
            (with_reason r)
            none
    -- The driver fails in the next round.
    failed :
        {e : GoError}
        → n < max_rounds
        → s.context_error w ≡ none
        → (driver n w).2 ≡ err e
        → Ends max_rounds n w
            (event event_round_started n ∷ reported_all n (driver n w).1)
            continue_result
            (some (cause e))
    -- The turn is cancelled before the next round.
    cancelled :
        {e : GoError}
        → n < max_rounds
        → s.context_error w ≡ some e
        → Ends max_rounds n w [] continue_result (some (cause e))
    limited :
        n ≡ max_rounds
        → Ends max_rounds n w
            (record (event event_finished (max_rounds - 1)) { finish_reason = finish_round_limit }
              ∷ [])
            (record continue_result { reason = finish_round_limit })
            (some round_limit)

  -- The rounds from `i` on, of a turn in the state `w`, and what ends it. The events are appended to
  -- `before`, if there is an observer.
  pub record Follows (max_rounds i : ℕ) (w : W) (before : List Event)
      (x : Turn W × Result × Option RunError) : Type 0 where
    pub count : ℕ
    pub last : W
    pub body : List Event
    pub tail : List Event
    pub appended : x.0.events ≡ before ++ (body ++ tail)
    pub rounds : Rounds i w count last body
    pub ends : Ends max_rounds count last tail x.1 x.2

with_reason-ne : (r : Result) → (with_reason r).reason ≢ ""
with_reason-ne r = elim (Bool-cases (str_eq r.reason "")) [
  | inl e ↦ rw e (λ h. ground (arith, eq_iff finish_final_answer "", h))
  | inr e ↦ rw e (λ h. ground (arith, eq_iff r.reason "", h))
]

module _ {W : Type 0} (s : Surroundings W) (seen : s.observed ≡ true) (driver : Driver W) where
  emit-events : (es : List Event) (t : Turn W) → (emit s es t).events ≡ t.events ++ es
  unfolding emit
  emit-events es t = simp seen

  call_driver-events :
      (i : ℕ) (t : Turn W)
      → (call_driver s driver i t).0.events
        ≡ t.events ++ (event event_round_started i ∷ reported_all i (driver i t.world).1)
  unfolding call_driver emit
  call_driver-events i t = rw seen (
      append_assoc t.events (event event_round_started i ∷ [])
        (reported_all i (driver i t.world).1))

  call_driver-world :
      (i : ℕ) (t : Turn W) → (call_driver s driver i t).0.world ≡ (driver i t.world).0
  unfolding call_driver emit
  call_driver-world i t = rw seen refl

  call_driver-result : (i : ℕ) (t : Turn W) → (call_driver s driver i t).1 ≡ (driver i t.world).2
  unfolding call_driver emit
  call_driver-result i t = rw seen refl

  finish_if-Follows :
      (max_rounds i : ℕ) (t : Turn W) (again : Turn W → Turn W × Result × Option RunError)
      (u : Turn W) (r : Result) (done : Bool)
      → i < max_rounds
      → s.context_error t.world ≡ none
      → (driver i t.world).2 ≡ ok r
      → r.done ≡ done
      → u.events ≡ t.events ++ (event event_round_started i ∷ reported_all i (driver i t.world).1)
      → u.world ≡ (driver i t.world).0
      → Follows s driver max_rounds (suc i) u.world u.events (again u)
      → Follows s driver max_rounds i t.world t.events (finish_if s done i again u r)
  unfolding finish_if finish
  finish_if-Follows max_rounds i t again u r true below alive gave d events world f = record {
    count = i;
    last = t.world;
    body = [];
    tail =
        event event_round_started i ∷ reported_all i (driver i t.world).1
        ++ record (event event_finished i) { finish_reason = (with_reason r).reason } ∷ [];
    appended = emit-events _ u ∙ simp (events, append_assoc);
    rounds = no_more;
    ends = answered below alive gave d (with_reason-ne r);
  }
  finish_if-Follows max_rounds i t again u r false below alive gave d events world f = record {
    count = f.count;
    last = f.last;
    body = event event_round_started i ∷ reported_all i (driver i t.world).1 ++ f.body;
    tail = f.tail;
    appended = f.appended ∙ simp (events, append_assoc);
    rounds = round alive gave d (rw (sym world) f.rounds);
    ends = f.ends;
  }

  settle-Follows :
      (max_rounds i : ℕ) (t : Turn W) (again : Turn W → Turn W × Result × Option RunError)
      (u : Turn W) (result : Except GoError Result)
      → i < max_rounds
      → s.context_error t.world ≡ none
      → (driver i t.world).2 ≡ result
      → u.events ≡ t.events ++ (event event_round_started i ∷ reported_all i (driver i t.world).1)
      → u.world ≡ (driver i t.world).0
      → ((v : Turn W) → Follows s driver max_rounds (suc i) v.world v.events (again v))
      → Follows s driver max_rounds i t.world t.events (settle s i again (u, result))
  unfolding settle
  settle-Follows max_rounds i t again u (err e) below alive gave events world follows = record {
    count = i;
    last = t.world;
    body = [];
    tail = event event_round_started i ∷ reported_all i (driver i t.world).1;
    appended = events;
    rounds = no_more;
    ends = failed below alive gave;
  }
  settle-Follows max_rounds i t again u (ok r) below alive gave events world follows =
      finish_if-Follows max_rounds i t again u r r.done below alive gave refl events world
        (follows u)

  run_rounds-Follows :
      (max_rounds left i : ℕ) (t : Turn W)
      → i + left ≡ max_rounds
      → Follows s driver max_rounds i t.world t.events (run_rounds s max_rounds left i driver t)
  unfolding run_rounds finish
  run_rounds-Follows max_rounds zero i t total = record {
    count = i;
    last = t.world;
    body = [];
    tail =
        record (event event_finished (max_rounds - 1)) { finish_reason = finish_round_limit } ∷ [];
    appended = emit-events _ t;
    rounds = no_more;
    ends = limited (omega arith);
  }
  run_rounds-Follows max_rounds (suc left) i t total =
      elim (Option-cases (s.context_error t.world)) [
        | inr (e, h) ↦
            rw (h, run_rounds)
              (record {
                count = i;
                last = t.world;
                body = [];
                tail = [];
                appended = sym (append-nil t.events);
                rounds = no_more;
                ends = cancelled (omega arith) h;
              })
        | inl h ↦
            (let called = call_driver s driver i t in
              rw (h, run_rounds)
                (settle-Follows max_rounds i t (run_rounds s max_rounds left (suc i) driver)
                  called.0 called.1 (omega arith) h (sym (call_driver-result i t))
                  (call_driver-events i t) (call_driver-world i t)
                  (λ v. run_rounds-Follows max_rounds left (suc i) v (omega arith))))
      ]

  run_lem :
      (max_rounds : ℕ) (t : Turn W)
      → 0 < max_rounds
      → s.driver ≡ some driver
      → run s max_rounds t ≡ run_rounds s max_rounds max_rounds 0 driver t
  unfolding run
  run_lem max_rounds t some_round given =
      let positive : leb max_rounds 0 ≡ false = ground arith in rw (positive, given, run) refl

  -- A run of a runtime with a driver and an observer, within its bound, is a turn of whole rounds: it
  -- appends to the events those of rounds 0, 1, … in order, each its start and then what the driver
  -- reported in it, called in the state that the round before left. Each of them is not cancelled and
  -- its driver asks for another. The turn then ends in one of four ways: the next round gives an
  -- answer, which is the result, with a reason that is not empty, and whose end is the last event; the
  -- driver fails in the next round, with its error and no event of an end; the turn is cancelled, with
  -- that error and no more events; or there were `max_rounds` rounds, and the last event and the error
  -- say so.
  pub run-Follows :
      (max_rounds : ℕ) (t : Turn W)
      → 0 < max_rounds
      → s.driver ≡ some driver
      → Follows s driver max_rounds 0 t.world t.events (run s max_rounds t)
  run-Follows max_rounds t some_round given =
      rw (run_lem max_rounds t some_round given)
        (run_rounds-Follows max_rounds max_rounds 0 t (omega arith))
