-- ===== src/Workflow/Failures.antt =====
-- How a run of internal/workflow/engine.go ends: it completes, or it names the step that stopped it
-- and says whether execution had been authorized.
use compshare_agent.Prelude.{
  ℕ, zero, suc, Bool, true, false, some, List, [], ◌∷◌, ◌≡◌, refl, ap, ◌∙◌, arith, inl, inr, ◌⊎◌,
  length, drop, Has, here, there, Bool-cases,
}
use compshare_agent.Value.{Fields}
use compshare_agent.Workflow.Types.{confirm, Step, Definition, StepFailure}
use compshare_agent.Workflow.Progress.{Env, Progress}
use compshare_agent.Workflow.Run.{any_confirm, run_step, finish, continue_if, run_steps, start, run}
use compshare_agent.Workflow.Stops.{SaysWhere, run_step-StopsRecorded}

drop_next :
    (i : ℕ) (xs : List Step) (s : Step) (ss : List Step) → drop i xs ≡ s ∷ ss → drop (suc i) xs ≡ ss
drop_next i [] s ss h = ground (arith, h, nothing i)
  where
    nothing : (n : ℕ) → ◌≡◌ {A = List Step} (drop n []) []
    nothing zero = refl
    nothing (suc n) = refl
drop_next zero (x ∷ xs) s ss h = ground (arith, h)
drop_next (suc i) (x ∷ xs) s ss h = drop_next i xs s ss h

module _ {W : Type 0} (env : Env W) (def : Definition) where
  -- From the steps `steps` at the index `i`, in the state `p`, the loop runs each of them with
  -- success up to the steps `rest` at the index `n`, in the state `q`.
  pub data Reaches : ℕ → List Step → Progress W → ℕ → List Step → Progress W → Type 0 where
    arrived : {i : ℕ} {steps : List Step} {p : Progress W} → Reaches i steps p i steps p
    next :
        {i n : ℕ} {s : Step} {ss rest : List Step} {p q : Progress W}
        → (run_step env def s i (length def.steps) p).1 ≡ true
        → Reaches (suc i) ss (run_step env def s i (length def.steps) p).0 n rest q
        → Reaches i (s ∷ ss) p n rest q

  -- The run gets to the step `step` at `index`, in the state `before`, and that step ends it.
  pub record StopsAt (params : Fields) (w : W) : Type 0 where
    pub index : ℕ
    pub step : Step
    pub rest : List Step
    pub before : Progress W
    pub reached : Reaches 0 def.steps (start env params w) index (step ∷ rest) before
    pub stopped : (run_step env def step index (length def.steps) before).1 ≡ false

  -- The run passes every step.
  pub record Completes (params : Fields) (w : W) : Type 0 where
    pub after : ℕ
    pub last : Progress W
    pub reached : Reaches 0 def.steps (start env params w) after [] last

  -- The deferred write of the contract.
  abbrev pub with_contract : Progress W → Progress W
  with_contract p = let r = p.result in record p { result = record r { contract = p.sealed } }

  Reaches-drop :
      {i n : ℕ} {steps rest : List Step} {p q : Progress W}
      → Reaches i steps p n rest q
      → drop i def.steps ≡ steps
      → drop n def.steps ≡ rest
  Reaches-drop arrived h = h
  Reaches-drop (next {i} {n} {s} {ss} passed r) h = Reaches-drop r (drop_next i def.steps s ss h)

  continue_if-true :
      (rest : Progress W → Progress W) (x : Progress W × Bool)
      → x.1 ≡ true
      → continue_if env rest x ≡ rest x.0
  unfolding continue_if
  continue_if-true rest (q, true) h = refl
  continue_if-true rest (q, false) h = cc

  continue_if-false :
      (rest : Progress W → Progress W) (x : Progress W × Bool)
      → x.1 ≡ false
      → continue_if env rest x ≡ x.0
  unfolding continue_if
  continue_if-false rest (q, true) h = cc
  continue_if-false rest (q, false) h = refl

  Reaches-run_steps :
      {i n : ℕ} {steps rest : List Step} {p q : Progress W}
      → Reaches i steps p n rest q
      → run_steps env def steps i (length def.steps) p
        ≡ run_steps env def rest n (length def.steps) q
  unfolding run_steps
  Reaches-run_steps arrived = refl
  Reaches-run_steps (next {i} {n} {s} {ss} {rest} {p} passed r) =
      continue_if-true (run_steps env def ss (suc i) (length def.steps))
        (run_step env def s i (length def.steps) p) passed
      ∙ Reaches-run_steps r

  run-StopsAt :
      (params : Fields) (w : W) (stop : StopsAt params w)
      → run env def params w
        ≡ with_contract (run_step env def stop.step stop.index (length def.steps) stop.before).0
  unfolding run run_steps
  run-StopsAt params w stop = ap with_contract (
      Reaches-run_steps stop.reached
      ∙ continue_if-false (run_steps env def stop.rest (suc stop.index) (length def.steps))
          (run_step env def stop.step stop.index (length def.steps) stop.before) stop.stopped)

  run-Completes :
      (params : Fields) (w : W) (done : Completes params w)
      → run env def params w ≡ with_contract (finish env def done.last)
  unfolding run run_steps
  run-Completes params w done = ap with_contract (Reaches-run_steps done.reached)

  StopsAt-SaysWhere :
      (params : Fields) (w : W) (stop : StopsAt params w)
      → SaysWhere stop.step stop.rest (run env def params w)
  StopsAt-SaysWhere params w stop = rw (run-StopsAt params w stop) (
      run_step-StopsRecorded env def stop.step stop.rest stop.index (length def.steps) stop.before
        (Reaches-drop stop.reached refl) stop.stopped)

  -- How the loop goes on from the steps `steps` at `i`, in the state `p`.
  abbrev GoesOn : List Step → ℕ → Progress W → Type 0
  GoesOn steps i p =
      ((n : ℕ) × (q : Progress W) × Reaches i steps p n [] q)
      ⊎ ((n : ℕ) × (s : Step) × (rest : List Step) × (q : Progress W) × Reaches i steps p n
            (s ∷ rest) q
          × ((run_step env def s n (length def.steps) q).1 ≡ false))

  goes_on : (steps : List Step) (i : ℕ) (p : Progress W) → GoesOn steps i p
  goes_on [] i p = inl (i, p, arrived)
  goes_on (s ∷ ss) i p = elim (Bool-cases (run_step env def s i (length def.steps) p).1) [
    | inr stopped ↦ inr (i, s, ss, p, arrived, stopped)
    | inl passed ↦ elim (goes_on ss (suc i) (run_step env def s i (length def.steps) p).0) [
      | inl (n, q, r) ↦ inl (n, q, next passed r)
      | inr (n, t, rest, q, r, stopped) ↦ inr (n, t, rest, q, next passed r, stopped)
    ]
  ]

  -- Every run either passes all its steps and succeeds, or gets to a step that ends it. In the second
  -- case the run's state is that of this step, and the recorded failure names this step and says that
  -- execution was authorized exactly when a contract is in force and no confirmation gate is left
  -- among this step and those after it. The result carries the contract in force at the end.
  pub run-HasEnded :
      (params : Fields) (w : W)
      → let p = run env def params w in
        ((Completes params w × (p.result.success ≡ true))
          ⊎ ((stop : StopsAt params w) × (p
                ≡ with_contract
                    (run_step env def stop.step stop.index (length def.steps) stop.before).0)
              × SaysWhere stop.step stop.rest p))
        × (p.result.contract ≡ p.sealed)
  unfolding run finish
  run-HasEnded params w = (
    elim (goes_on def.steps 0 (start env params w)) [
      | inl (n, q, r) ↦
          (let done : Completes params w = record { after = n; last = q; reached = r } in
            inl (done, ap (λ p. p.result.success) (run-Completes params w done)))
      | inr (n, s, rest, q, r, h) ↦
          (let stop : StopsAt params w = record {
            index = n;
            step = s;
            rest = rest;
            before = q;
            reached = r;
            stopped = h;
          } in
            inr (stop, run-StopsAt params w stop, StopsAt-SaysWhere params w stop))
    ],
    refl,
  )

  any_confirm-Has :
      (steps : List Step) → Has (λ s. s.type ≡ confirm) steps → any_confirm steps ≡ true
  unfolding any_confirm
  any_confirm-Has [] x = elim x [ ]
  any_confirm-Has (s ∷ ss) (here h) = rw h refl
  any_confirm-Has (s ∷ ss) (there h) = ground (arith, any_confirm-Has ss h)

  -- If a run gets to a step that ends it, and that step or one after it is a confirmation gate, the
  -- run's failure names that step and says that execution was not authorized: not when the user
  -- declines a gate, and not when a step before a gate fails, even after an earlier gate.
  pub gate_left-IsUnauthorized :
      (params : Fields) (w : W) (stop : StopsAt params w)
      → Has (λ s. s.type ≡ confirm) (stop.step ∷ stop.rest)
      → (f : StepFailure) × ((run env def params w).result.failure ≡ some f)
        × (f.step ≡ stop.step.name)
        × (f.execution_authorized ≡ false)
  gate_left-IsUnauthorized params w stop left =
      let (f, recorded, named, authorized) = StopsAt-SaysWhere params w stop in
      let unpassed = any_confirm-Has (stop.step ∷ stop.rest) left in
      (f, recorded, named, ground (arith, authorized, unpassed))
