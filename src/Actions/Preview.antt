-- ===== src/Actions/Preview.antt =====
-- What the user is shown of a resolved action.
use mathlib.Core.Path.{subst}
use compshare_agent.Prelude.{
  String, true, false, some, List, [], ◌∷◌, ◌≡◌, refl, inl, inr, Bool-cases, Pointwise, nil, cons,
  ap, sym, ◌∙◌,
}
use compshare_agent.Actions.Types.{
  Floats, Any, text, Strings, ActionProposal, FieldSpec, Arguments, OperationSpec,
  ConfirmationPreview, Resolver,
}
use compshare_agent.Actions.Judge.{find, Adjudication, nothing_judged}
use compshare_agent.Actions.Resolve.{
  is_sensitive, no_problem, preview_value, preview_arguments, take_slots, settle_groups,
  missing_fields, check_contract, conclude, resolve_fields, lookup_spec, resolve,
}

-- An argument as it is shown: a sensitive one without its value, any other as it is.
pub record IsShown {F : Type 0} (fields : List (String × FieldSpec)) (shown given : String × Any F)
    : Type 0 where
  pub same_name : shown.0 ≡ given.0
  pub sensitive :
      (field : FieldSpec)
      → find given.0 fields ≡ some field
      → is_sensitive field.codec ≡ true
      → shown.1 ≡ text "[REDACTED]"
  pub plain :
      (field : FieldSpec)
      → find given.0 fields ≡ some field
      → is_sensitive field.codec ≡ false
      → shown.1 ≡ given.1

module _ {F : Type 0} where
  preview-IsShown :
      (fields : List (String × FieldSpec)) (args : Arguments F)
      → Pointwise (IsShown fields) (preview_arguments fields args) args
  unfolding preview_arguments preview_value
  preview-IsShown fields [] = nil
  preview-IsShown fields ((name, value) ∷ args) =
      cons
        (record {
          same_name = refl;
          sensitive = λ field e s. ap (λ o. preview_value o value) e ∙ rw s refl;
          plain = λ field e s. ap (λ o. preview_value o value) e ∙ rw s refl;
        })
        (preview-IsShown fields args)

  conclude-preview :
      (spec : OperationSpec F) (proposal : ActionProposal F) (missing : List String)
      (args : Arguments F) (a : Adjudication F) (preview : ConfirmationPreview F)
      → let result = conclude spec proposal missing args a in
        result.confirmation ≡ some preview
        → (result.ready_for_confirmation ≡ true)
          × (preview.operation ≡ proposal.operation)
          × Pointwise (IsShown spec.fields) preview.arguments result.arguments
  unfolding conclude
  conclude-preview spec proposal missing args a preview h =
      elim (Bool-cases (no_problem missing a)) [
        | inr e ↦ (let g = (rw e at h) in cc)
        | inl e ↦
            (let shown : ConfirmationPreview F = record {
              operation = proposal.operation;
              arguments = preview_arguments spec.fields args;
            } in
              let g : some shown ≡ some preview = (rw e at h) in
              let same : shown ≡ preview = cc in
              (
                e,
                sym (ap (λ (p : ConfirmationPreview F). p.operation) same),
                subst
                    (λ (p : ConfirmationPreview F).
                      Pointwise (IsShown spec.fields) p.arguments args)
                    same (preview-IsShown spec.fields args),
              ))
      ]

module _ (floats : Floats) (lib : Strings) (r : Resolver floats.Float) where
  open floats use {Float}

  -- A confirmation is shown only of a proposal that is ready for it, for the operation that was
  -- proposed. It shows the names of all arguments in their order, and no value of a sensitive field.
  pub confirmation-IsShown :
      (proposal : ActionProposal Float) (spec : OperationSpec Float)
      (preview : ConfirmationPreview Float)
      → lookup_spec floats lib r proposal.operation r.catalog ≡ some spec
      → (resolve floats lib r proposal).confirmation ≡ some preview
      → ((resolve floats lib r proposal).ready_for_confirmation ≡ true)
        × (preview.operation ≡ proposal.operation)
        × Pointwise
            (IsShown spec.fields)
            preview.arguments
            (resolve floats lib r proposal).arguments
  unfolding resolve resolve_fields
  confirmation-IsShown proposal spec preview known =
      let taken = take_slots floats lib r spec.fields proposal.slots nothing_judged in
      let x = settle_groups floats lib r taken.grouped ([], taken) in
      let missing = missing_fields spec.fields x.0 x.1.adjudicated in
      rw (known, resolve)
        (conclude-preview spec proposal missing x.0
          (check_contract spec.validate_resolved missing x.0 x.1) preview)
