-- ===== src/Workflow/ConfirmStep.antt =====
-- internal/workflow/engine.go: runConfirmStep. Its loop has one round more than the edits that are
-- still allowed.
use compshare_agent.Prelude.{
  ℕ, zero, suc, Bool, true, false, Option, none, some, [], ◌∷◌, Except, ok, err, ltb, if◌then◌else◌,
  length,
}
use compshare_agent.Value.{Fields}
use compshare_agent.Workflow.Form.{
  ConfirmForm, Overrides, validate_overrides, form_default_overrides,
}
use compshare_agent.Workflow.Types.{
  GoError, confirm, Step, Definition, submit_revalidate, submit_continue, Message, user_cancelled,
  too_many_edits, edits_unsupported, args_failed, promote_failed, bad_edit, bad_default,
  edit_rejected, default_rejected, succeeded, waiting, cancelled, ConfirmResolution,
}
use compshare_agent.Workflow.Progress.{
  Env, Progress, run_hook, emit, summarize, stop_at, fail_stop, set_missing_slots,
}
use compshare_agent.Workflow.Revalidate.{
  Rerun, rerun_ok, rerun_failed, rerun_error, revalidate_from,
}

-- `maxConfirmEdits`.
abbrev pub max_confirm_edits : ℕ
max_confirm_edits = 3

module _ {W : Type 0} where
  -- The closure `failStop` of runConfirmStep.
  unfoldable pub refuse : Step → ℕ → ℕ → Message → Progress W → Progress W × Bool
  unfolding fail_stop
  refuse step i total told p = (fail_stop step i total confirm "" told p, false)

  unfoldable pub cancel : Step → ℕ → ℕ → Progress W → Progress W × Bool
  unfolding emit summarize stop_at
  cancel step i total p = (
    stop_at step user_cancelled (
        summarize step cancelled none
          (emit step i total confirm cancelled "" none (some user_cancelled) p)),
    false,
  )

  unfoldable pub accept : Step → ℕ → ℕ → Progress W → Progress W × Bool
  unfolding emit summarize
  accept step i total p =
      (summarize step succeeded none (emit step i total confirm succeeded "" none none p), true)

  -- The closure `pass` of runConfirmStep.
  unfoldable pub pass : Step → ℕ → ℕ → Progress W → Progress W × Bool
  unfolding accept refuse
  pass step i total p = elim step.promote_on_confirm [
    | none ↦ accept step i total p
    | some promote ↦
        (let (q, failed) = run_hook promote p in
          elim failed [
            | none ↦ accept step i total q
            | some e ↦ refuse step i total (promote_failed step.name e) q
          ])
  ]

  -- A card confirmed as it stands: a step of a guided form takes the shown defaults.
  unfoldable pub pass_with_defaults : Step → ℕ → ℕ → ConfirmForm → Progress W → Progress W × Bool
  unfolding pass refuse
  pass_with_defaults step i total form p = elim step.confirm_submit_mode [
    | submit_revalidate ↦ pass step i total p
    | submit_continue ↦ elim step.apply_overrides [
      | none ↦ pass step i total p
      | some apply ↦
          (let defaults = form_default_overrides form in
            if ltb 0 (length defaults)
            then elim (validate_overrides form defaults) [
              | some e ↦ refuse step i total (bad_default e) p
              | none ↦
                  (let (q, failed) = run_hook (apply defaults) p in
                    elim failed [
                      | some e ↦ refuse step i total (default_rejected e) q
                      | none ↦ pass step i total q
                    ])
            ]
            else pass step i total p)
    ]
  ]

module _ {W : Type 0} (env : Env W) where
  unfoldable pub after_rerun :
      Step → ℕ → ℕ → (Progress W → Progress W × Bool) → Progress W × Rerun → Progress W × Bool
  unfolding refuse
  after_rerun step i total again (q, rerun_ok) = again q
  after_rerun step i total again (q, rerun_failed) = (q, false)
  after_rerun step i total again (q, rerun_error told) = refuse step i total told q

  unfoldable pub after_apply :
      Definition
      → Step
      → ℕ
      → ℕ
      → (Progress W → Progress W × Bool)
      → Progress W × Option GoError
      → Progress W × Bool
  unfolding pass refuse revalidate_from after_rerun
  after_apply def step i total again (q, some e) = refuse step i total (edit_rejected e) q
  after_apply def step i total again (q, none) = elim step.confirm_submit_mode [
    | submit_continue ↦ pass step i total q
    | submit_revalidate ↦ after_rerun step i total again (revalidate_from env def step i total q)
  ]

  -- Confirmed with overrides: validate, apply, revalidate, and ask again.
  unfoldable pub edit :
      Definition
      → Step
      → ℕ
      → ℕ
      → ConfirmForm
      → Overrides
      → (Progress W → Progress W × Bool)
      → Progress W
      → Progress W × Bool
  unfolding refuse after_apply
  edit def step i total form overrides again p = elim (validate_overrides form overrides) [
    | some e ↦ refuse step i total (bad_edit e) p
    | none ↦ elim step.apply_overrides [
      | none ↦ refuse step i total edits_unsupported p
      | some apply ↦ after_apply def step i total again (run_hook (apply overrides) p)
    ]
  ]

  unfoldable pub resolve_answer :
      Step
      → ℕ
      → ℕ
      → ConfirmForm
      → (Overrides → Progress W → Progress W × Bool)
      → Progress W × ConfirmResolution
      → Progress W × Bool
  unfolding cancel pass_with_defaults
  resolve_answer step i total form edited (q, answer) =
      if answer.confirmed
      then elim answer.overrides [
        | [] ↦ pass_with_defaults step i total form q
        | o ∷ os ↦ edited (o ∷ os) q
      ]
      else cancel step i total q

  unfoldable pub plain_gate : Definition → Step → ℕ → ℕ → Fields → Progress W → Progress W × Bool
  unfolding cancel pass
  plain_gate def step i total args p = elim env.confirm_fn [
    | none ↦ cancel step i total p
    | some ask ↦
        (let (w, agreed) = ask p.world def.name args in
          let q = record p { world = w } in
          if agreed then pass step i total q else cancel step i total q)
  ]

  -- The form of the card: none where a half is missing or BuildForm fails.
  unfoldable pub build_form : Step → Progress W → Progress W × Option ConfirmForm
  build_form step p = elim env.confirm_edits_fn [
    | none ↦ (p, none)
    | some ask ↦ elim step.build_form [
      | none ↦ (p, none)
      | some build ↦
          (let (q, built) = run_hook build p in
            elim built [ err e ↦ (q, none) | ok form ↦ (q, form) ])
    ]
  ]

  unfoldable pub present :
      Definition
      → Step
      → ℕ
      → ℕ
      → Fields
      → (ConfirmForm → Overrides → Progress W → Progress W × Bool)
      → Progress W × Option ConfirmForm
      → Progress W × Bool
  unfolding plain_gate resolve_answer emit
  present def step i total args edited (q, none) =
      plain_gate def step i total args (emit step i total confirm waiting "" (some args) none q)
  present def step i total args edited (q, some form) =
      let shown = emit step i total confirm waiting "" (some args) none q in
      elim env.confirm_edits_fn [
        | none ↦ plain_gate def step i total args shown
        | some ask ↦
            (let (w, answer) = ask shown.world def.name args form in
              resolve_answer step i total form (edited form) (record shown { world = w }, answer))
      ]

  unfoldable pub ask_once :
      Definition
      → Step
      → ℕ
      → ℕ
      → (ConfirmForm → Overrides → Progress W → Progress W × Bool)
      → Progress W × Except GoError Fields
      → Progress W × Bool
  unfolding refuse set_missing_slots build_form present
  ask_once def step i total edited (q, err e) =
      refuse step i total (args_failed step.name e) (set_missing_slots e q)
  ask_once def step i total edited (q, ok args) =
      present def step i total args edited (build_form step q)

  -- The loop of runConfirmStep, with `left` edits still allowed.
  unfoldable pub confirm_loop : ℕ → Definition → Step → ℕ → ℕ → Progress W → Progress W × Bool
  unfolding refuse ask_once edit
  confirm_loop zero def step i total p =
      ask_once def step i total (λ form overrides q. refuse step i total too_many_edits q)
        (run_hook step.build_args p)
  confirm_loop (suc left) def step i total p =
      ask_once def step i total
        (λ form overrides q.
          edit def step i total form overrides (confirm_loop left def step i total) q)
        (run_hook step.build_args p)

  -- Engine.runConfirmStep: no contract is in force from here on.
  unfoldable pub run_confirm_step : Definition → Step → ℕ → ℕ → Progress W → Progress W × Bool
  unfolding confirm_loop
  run_confirm_step def step i total p =
      confirm_loop max_confirm_edits def step i total (record p { sealed = none })
