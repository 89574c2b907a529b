-- ===== src/Workflow/SealedCalls/Gate.antt =====
-- A confirmation gate under the seal.
use compshare_agent.Prelude.{
  ℕ, zero, suc, String, Bool, true, false, Option, none, some, [], ◌∷◌, Except, ok, err, ◌≡◌, refl,
  ltb, length, inl, inr, Option-cases, Bool-cases,
}
use compshare_agent.Value.{Fields}
use compshare_agent.Workflow.Form.{
  ConfirmForm, Overrides, validate_overrides, form_default_overrides,
}
use compshare_agent.Workflow.Types.{
  GoError, Hook, too_many_edits, Step, Definition, submit_revalidate, submit_continue,
  ConfirmSubmitMode, ConfirmResolution,
}
use compshare_agent.Workflow.Progress.{Env, Progress, run_hook}
use compshare_agent.Workflow.Revalidate.{
  Rerun, rerun_ok, rerun_failed, rerun_error, revalidate_from,
}
use compshare_agent.Workflow.ConfirmStep.{
  max_confirm_edits, refuse, pass, pass_with_defaults, after_rerun, after_apply, edit,
  resolve_answer, plain_gate, build_form, present, ask_once, confirm_loop, run_confirm_step,
}
use compshare_agent.Workflow.SealedCalls.{Inv}
use compshare_agent.Workflow.SealedCalls.Rerun.{Keeps, revalidate_from-Inv}

module _ {W : Type 0} (env : Env W) (def : Definition) where
  pass-Inv : (step : Step) (i total : ℕ) → Keeps env def (pass step i total)
  unfolding pass
  pass-Inv step i total p h = elim (Option-cases step.promote_on_confirm) [
    | inl e ↦ rw (e, pass) h
    | inr (promote, e) ↦ elim (Option-cases (run_hook promote p).1) [
      | inl d ↦ rw (e, d, pass) h
      | inr (x, d) ↦ rw (e, d, pass) h
    ]
  ]

  apply_default-Inv :
      (step : Step) (i total : ℕ) (form : ConfirmForm) (apply : Overrides → Hook (Option GoError))
      → step.confirm_submit_mode ≡ submit_continue
      → step.apply_overrides ≡ some apply
      → Keeps env def (pass_with_defaults step i total form)
  unfolding pass_with_defaults
  apply_default-Inv step i total form apply mode e p h =
      let defaults = form_default_overrides form in
      elim (Bool-cases (ltb 0 (length defaults))) [
        | inr d ↦ rw (mode, e, d, pass_with_defaults) (pass-Inv step i total p h)
        | inl d ↦ elim (Option-cases (validate_overrides form defaults)) [
          | inr (x, f) ↦ rw (mode, e, d, f, pass_with_defaults) h
          | inl f ↦ elim (Option-cases (run_hook (apply defaults) p).1) [
            | inr (x, g) ↦ rw (mode, e, d, f, g, pass_with_defaults) h
            | inl g ↦
                rw (mode, e, d, f, g, pass_with_defaults)
                  (pass-Inv step i total (run_hook (apply defaults) p).0 h)
          ]
        ]
      ]

  pass_with_defaults-Inv :
      (step : Step) (i total : ℕ) (form : ConfirmForm)
      → Keeps env def (pass_with_defaults step i total form)
  unfolding pass_with_defaults
  pass_with_defaults-Inv step i total form p h = by_mode step.confirm_submit_mode refl
    where
      by_mode :
          (mode : ConfirmSubmitMode)
          → step.confirm_submit_mode ≡ mode
          → Inv env def (pass_with_defaults step i total form p).0
      by_mode submit_revalidate e = rw (e, pass_with_defaults) (pass-Inv step i total p h)
      by_mode submit_continue e = elim (Option-cases step.apply_overrides) [
        | inl d ↦ rw (e, d, pass_with_defaults) (pass-Inv step i total p h)
        | inr (apply, d) ↦ apply_default-Inv step i total form apply e d p h
      ]

  after_rerun-Inv :
      (step : Step) (i total : ℕ) (again : Progress W → Progress W × Bool) (q : Progress W)
      (outcome : Rerun)
      → Keeps env def again
      → Inv env def q
      → Inv env def (after_rerun env step i total again (q, outcome)).0
  unfolding after_rerun
  after_rerun-Inv step i total again q rerun_ok keep h = keep q h
  after_rerun-Inv step i total again q rerun_failed keep h = h
  after_rerun-Inv step i total again q (rerun_error told) keep h = h

  after_apply-Inv :
      (step : Step) (i total : ℕ) (again : Progress W → Progress W × Bool) (q : Progress W)
      (failed : Option GoError)
      → Keeps env def again
      → Inv env def q
      → Inv env def (after_apply env def step i total again (q, failed)).0
  unfolding after_apply
  after_apply-Inv step i total again q (some e) keep h = h
  after_apply-Inv step i total again q none keep h = by_mode step.confirm_submit_mode refl
    where
      by_mode :
          (mode : ConfirmSubmitMode)
          → step.confirm_submit_mode ≡ mode
          → Inv env def (after_apply env def step i total again (q, none)).0
      by_mode submit_continue e = rw (e, after_apply) (pass-Inv step i total q h)
      by_mode submit_revalidate e =
          rw (e, after_apply)
            (after_rerun-Inv step i total again (revalidate_from env def step i total q).0
              (revalidate_from env def step i total q).1 keep
              (revalidate_from-Inv env def step i total q h))

  edit-Inv :
      (step : Step) (i total : ℕ) (form : ConfirmForm) (overrides : Overrides)
      (again : Progress W → Progress W × Bool)
      → Keeps env def again
      → Keeps env def (edit env def step i total form overrides again)
  unfolding edit
  edit-Inv step i total form overrides again keep p h =
      elim (Option-cases (validate_overrides form overrides)) [
        | inr (x, e) ↦ rw (e, edit) h
        | inl e ↦ elim (Option-cases step.apply_overrides) [
          | inl d ↦ rw (e, d, edit) h
          | inr (apply, d) ↦
              rw (e, d, edit)
                (after_apply-Inv step i total again (run_hook (apply overrides) p).0
                  (run_hook (apply overrides) p).1 keep h)
        ]
      ]

  resolve_answer-Inv :
      (step : Step) (i total : ℕ) (form : ConfirmForm)
      (edited : Overrides → Progress W → Progress W × Bool) (q : Progress W) (confirmed : Bool)
      (overrides : Overrides)
      → ((o : Overrides) → Keeps env def (edited o))
      → Inv env def q
      → Inv env def
          (resolve_answer env step i total form edited
            (q, record { confirmed = confirmed; overrides = overrides })).0
  unfolding resolve_answer
  resolve_answer-Inv step i total form edited q false overrides keep h = h
  resolve_answer-Inv step i total form edited q true [] keep h =
      pass_with_defaults-Inv step i total form q h
  resolve_answer-Inv step i total form edited q true (o ∷ os) keep h = keep (o ∷ os) q h

  plain_gate-Inv :
      (step : Step) (i total : ℕ) (args : Fields)
      → Keeps env def (plain_gate env def step i total args)
  unfolding plain_gate
  plain_gate-Inv step i total args p h = elim (Option-cases env.confirm_fn) [
    | inl e ↦ rw (e, plain_gate) h
    | inr (ask, e) ↦ elim (Bool-cases (ask p.world def.name args).1) [
      | inl d ↦
          rw (e, d, plain_gate)
            (pass-Inv step i total (record p { world = (ask p.world def.name args).0 }) h)
      | inr d ↦ rw (e, d, plain_gate) h
    ]
  ]

  build_form-Inv : (step : Step) → Keeps env def (build_form env step)
  unfolding build_form
  build_form-Inv step p h = elim (Option-cases env.confirm_edits_fn) [
    | inl e ↦ rw (e, build_form) h
    | inr (ask, e) ↦ elim (Option-cases step.build_form) [
      | inl d ↦ rw (e, d, build_form) h
      | inr (build, d) ↦ by_result ask e build d (run_hook build p).1 refl
    ]
  ]
    where
      by_result :
          (ask : W → String → Fields → ConfirmForm → W × ConfirmResolution)
          → env.confirm_edits_fn ≡ some ask
          → (build : Hook (Except GoError (Option ConfirmForm))) → step.build_form ≡ some build
          → (built : Except GoError (Option ConfirmForm)) → (run_hook build p).1 ≡ built
          → Inv env def (build_form env step p).0
      by_result ask e build d (err x) f = rw (e, d, f, build_form) h
      by_result ask e build d (ok form) f = rw (e, d, f, build_form) h

  present-Inv :
      (step : Step) (i total : ℕ) (args : Fields)
      (edited : ConfirmForm → Overrides → Progress W → Progress W × Bool) (q : Progress W)
      (form : Option ConfirmForm)
      → ((f : ConfirmForm) (o : Overrides) → Keeps env def (edited f o))
      → Inv env def q
      → Inv env def (present env def step i total args edited (q, form)).0
  unfolding present
  present-Inv step i total args edited q none keep h = plain_gate-Inv step i total args _ h
  present-Inv step i total args edited q (some form) keep h =
      elim (Option-cases env.confirm_edits_fn) [
        | inl e ↦ rw (e, present) (plain_gate-Inv step i total args _ h)
        | inr (ask, e) ↦
            rw (e, present) (resolve_answer-Inv step i total form (edited form) _ _ _ (keep form) h)
      ]

  ask_once-Inv :
      (step : Step) (i total : ℕ)
      (edited : ConfirmForm → Overrides → Progress W → Progress W × Bool) (q : Progress W)
      (args : Except GoError Fields)
      → ((f : ConfirmForm) (o : Overrides) → Keeps env def (edited f o))
      → Inv env def q
      → Inv env def (ask_once env def step i total edited (q, args)).0
  unfolding ask_once
  ask_once-Inv step i total edited q (err e) keep h = h
  ask_once-Inv step i total edited q (ok args) keep h =
      present-Inv step i total args edited (build_form env step q).0 (build_form env step q).1 keep
        (build_form-Inv step q h)

  confirm_loop-Inv :
      (left : ℕ) (step : Step) (i total : ℕ)
      → Keeps env def (confirm_loop env left def step i total)
  unfolding confirm_loop
  confirm_loop-Inv zero step i total p h =
      ask_once-Inv step i total (λ f o q. refuse step i total too_many_edits q)
        (run_hook step.build_args p).0 (run_hook step.build_args p).1 (λ f o q k. k) h
  confirm_loop-Inv (suc left) step i total p h =
      ask_once-Inv step i total
        (λ f o q. edit env def step i total f o (confirm_loop env left def step i total) q)
        (run_hook step.build_args p).0 (run_hook step.build_args p).1
        (λ f o.
          edit-Inv step i total f o (confirm_loop env left def step i total)
            (confirm_loop-Inv left step i total))
        h

  pub run_confirm_step-Inv :
      (step : Step) (i total : ℕ) → Keeps env def (run_confirm_step env def step i total)
  unfolding run_confirm_step
  run_confirm_step-Inv step i total p h =
      confirm_loop-Inv max_confirm_edits step i total _ (tt, h.1)
