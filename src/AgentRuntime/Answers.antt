-- ===== src/AgentRuntime/Answers.antt =====
-- The answer of a turn: the first that its driver gives.
use compshare_agent.Prelude.{
  ℕ, zero, suc, ◌+◌, ◌≤◌, ◌<◌, Bool, true, false, Option, none, some, List, Except, ok, err, leb,
  ◌≡◌, refl, ap, inl, inr, ◌∙◌, arith, Bool-cases,
}
use compshare_agent.Workflow.Types.{GoError}
use compshare_agent.AgentRuntime.{
  Result, Driver, Event, Surroundings, Turn, RunError, with_reason, finish_if, settle, call_driver,
  emit, run_rounds, run,
}

module _ {W : Type 0} (s : Surroundings W) (driver : Driver W) where
  -- The rounds from `i` up to `n` are not cancelled and ask for another: the state goes from `w` to
  -- `u`.
  pub data Continues : ℕ → W → ℕ → W → Type 0 where
    here : {i : ℕ} {w : W} → Continues i w i w
    next :
        {i n : ℕ} {w u : W} {r : Result}
        → s.context_error w ≡ none
        → (driver i w).2 ≡ ok r
        → r.done ≡ false
        → Continues (suc i) (driver i w).0 n u
        → Continues i w n u

  emit-world : (es : List Event) (t : Turn W) → (emit s es t).world ≡ t.world
  unfolding emit
  emit-world es t = elim (Bool-cases s.observed) [ inl e ↦ simp e | inr e ↦ simp e ]

  call_driver-lem :
      (i : ℕ) (t : Turn W)
      → ((call_driver s driver i t).0.world ≡ (driver i t.world).0)
        × ((call_driver s driver i t).1 ≡ (driver i t.world).2)
  unfolding call_driver emit
  call_driver-lem i t = elim (Bool-cases s.observed) [
    | inl e ↦ rw e (refl, refl)
    | inr e ↦ rw e (refl, refl)
  ]

  settle_ok :
      (i : ℕ) (again : Turn W → Turn W × Result × Option RunError)
      (x : Turn W × Except GoError Result) (r : Result)
      → x.1 ≡ ok r
      → settle s i again x ≡ finish_if s r.done i again x.0 r
  unfolding settle
  settle_ok i again (t, err e) r h = cc
  settle_ok i again (t, ok q) r h =
      let same : q ≡ r = cc in ap (λ (r : Result). finish_if s r.done i again t r) same

  -- A round that is not cancelled and gives the result `r`.
  run_rounds-ok :
      (max_rounds left i : ℕ) (t : Turn W) (r : Result)
      → s.context_error t.world ≡ none
      → (driver i t.world).2 ≡ ok r
      → run_rounds s max_rounds (suc left) i driver t
        ≡ finish_if s r.done i
            (run_rounds s max_rounds left (suc i) driver)
            (call_driver s driver i t).0
            r
  unfolding run_rounds
  run_rounds-ok max_rounds left i t r alive gave =
      rw (alive, run_rounds)
        (settle_ok i (run_rounds s max_rounds left (suc i) driver) (call_driver s driver i t) r
          ((call_driver-lem i t).1 ∙ gave))

  abbrev Answered : Result → Turn W × Result × Option RunError → Type 0
  Answered r x = (x.1 ≡ with_reason r) × (x.2 ≡ none)

  finish_if-Answered :
      (done : Bool) (i : ℕ) (again : Turn W → Turn W × Result × Option RunError) (t : Turn W)
      (r : Result)
      → done ≡ true
      → Answered r (finish_if s done i again t r)
  unfolding finish_if
  finish_if-Answered true i again t r h = (refl, refl)
  finish_if-Answered false i again t r h = cc

  finish_if_more :
      (done : Bool) (i : ℕ) (again : Turn W → Turn W × Result × Option RunError) (t : Turn W)
      (r : Result)
      → done ≡ false
      → finish_if s done i again t r ≡ again t
  unfolding finish_if
  finish_if_more true i again t r h = cc
  finish_if_more false i again t r h = refl

  Continues-le : {i n : ℕ} {w u : W} → Continues i w n u → i ≤ n
  Continues-le here = omega arith
  Continues-le (next alive gave more c) = omega (arith, Continues-le c)

  run_rounds-Answered :
      (max_rounds left i : ℕ) (t : Turn W) (r : Result) {n : ℕ} {w u : W}
      → Continues i w n u
      → t.world ≡ w
      → n < i + left
      → s.context_error u ≡ none
      → (driver n u).2 ≡ ok r
      → r.done ≡ true
      → Answered r (run_rounds s max_rounds left i driver t)
  run_rounds-Answered max_rounds zero i t r c at within alive gave done =
      absurd (omega (arith, Continues-le c))
  run_rounds-Answered max_rounds (suc left) i t r here at within alive gave done =
      rw
        (run_rounds-ok max_rounds left i t r (ap s.context_error at ∙ alive)
          (ap (λ w. (driver i w).2) at ∙ gave))
        (finish_if-Answered r.done i (run_rounds s max_rounds left (suc i) driver)
          (call_driver s driver i t).0 r done)
  run_rounds-Answered max_rounds (suc left) i t r (next {r = q} ok_w more_r not_done c) at within
        alive gave done =
      rw
        (run_rounds-ok max_rounds left i t q (ap s.context_error at ∙ ok_w)
            (ap (λ w. (driver i w).2) at ∙ more_r)
          ∙ finish_if_more q.done i (run_rounds s max_rounds left (suc i) driver)
              (call_driver s driver i t).0 q not_done)
        (run_rounds-Answered max_rounds left (suc i) (call_driver s driver i t).0 r c
          ((call_driver-lem i t).0 ∙ ap (λ w. (driver i w).0) at) (omega arith) alive gave done)

  -- A turn whose driver gives an answer in some round below the bound, after rounds that are not
  -- cancelled, do not fail and ask for another, ends with that answer and no error. Its reason is
  -- kept, or is that of a final answer if it is empty.
  pub run-answers :
      (max_rounds n : ℕ) (t : Turn W) (u : W) (r : Result)
      → s.driver ≡ some driver
      → Continues 0 t.world n u
      → n < max_rounds
      → s.context_error u ≡ none
      → (driver n u).2 ≡ ok r
      → r.done ≡ true
      → ((run s max_rounds t).1 ≡ with_reason r) × ((run s max_rounds t).2 ≡ none)
  unfolding run
  run-answers max_rounds n t u r given c within alive gave done =
      let positive : leb max_rounds 0 ≡ false = ground arith in
      rw (positive, given, run)
        (run_rounds-Answered max_rounds max_rounds 0 t r c refl (omega arith) alive gave done)
