-- ===== src/Actions/Ready.antt =====
-- When a proposal is ready for the user's confirmation.
use mathlib.Core.Path.{subst}
use compshare_agent.Prelude.{
  String, Bool, true, Option, none, some, List, [], ◌≡◌, ◌↔◌, refl, inl, inr, Bool-cases,
  Option-cases, All, Has, Pointwise, All-diagonal, All-map, append-ne-nil, ◌∙◌, ap,
}
use compshare_agent.Actions.Types.{
  Floats, Strings, SlotCandidate, ActionProposal, Arguments, OperationSpec, Resolver,
}
use compshare_agent.Actions.Judge.{Adjudication, nothing_judged, reject}
use compshare_agent.Actions.Resolve.{
  take_slots, settle_groups, missing_fields, no_problem, check_contract, conclude, resolve_fields,
  lookup_spec, resolve,
}
use compshare_agent.Actions.Slots.{IsAccepted}
use compshare_agent.Actions.Grounded.{IsGroup}
use compshare_agent.Actions.Grouping.{
  with_name, group_all, members-group_all, All-members, All-with_name, firsts, accept_all,
  accept_all_lem,
}
use compshare_agent.Actions.Clean.{
  IsClean, take_slots-IsClean, take_slots-accept_all, Agrees, HasJson, Agrees-json, json-Agrees,
  settle_groups-Agrees, settle_groups-IsClean,
}
use compshare_agent.Actions.Supplied.{
  no_problem-IsClean, IsClean-no_problem, missing_fields_iff, group_all-All, has_argument_iff,
}

module _ (floats : Floats) (lib : Strings) (r : Resolver floats.Float) where
  open floats use {Float}

  -- The candidates of each name have one JSON text.
  abbrev pub Agree : List (SlotCandidate Float) → Type 0
  Agree cs =
      (name : String) → (json : String) × All (λ c. c.name ≡ name → HasJson floats lib r json c) cs

  Agree-iff :
      (cs : List (SlotCandidate Float))
      → All (λ (name, ds). Agrees floats lib r ds) (group_all cs []) ↔ Agree cs
  Agree-iff cs = (
    λ h name.
        (let agrees = All-members (Agrees floats lib r) name (group_all cs []) h tt in
          let (json, same) =
            Agrees-json floats lib r (with_name name cs)
              (subst (Agrees floats lib r) (members-group_all name cs []) agrees) in
          (json, All-with_name (HasJson floats lib r json) name cs same)),
    λ h.
        (let P = λ (c : SlotCandidate Float). HasJson floats lib r (h c.name).0 c in
          let each =
            All-diagonal
              (λ (name : String) (c : SlotCandidate Float).
                c.name ≡ name → HasJson floats lib r (h name).0 c)
              (λ c. c.name) cs (λ name. (h name).1) in
          let ps = All-map _ P (λ c f. f refl) cs each in
          All-map (IsGroup P) (λ (name, ds). Agrees floats lib r ds)
            (λ (name, ds) g. json-Agrees floats lib r (h name).0 ds (
              All-map _ (HasJson floats lib r (h name).0)
                (λ c (same, p). subst (λ n. HasJson floats lib r (h n).0 c) same p) ds g))
            (group_all cs []) (group_all-All P cs [] ps tt)),
  )

  -- Nothing keeps a proposal from the user: every slot is accepted, as one of `candidates`; those of
  -- one name agree; each required field has one; and the operation's own check, if it has one,
  -- passes.
  pub record IsComplete (spec : OperationSpec Float) (slots : List (SlotCandidate Float))
      (args : Arguments Float) : Type 0 where
    pub candidates : List (SlotCandidate Float)
    pub each_accepted : Pointwise (IsAccepted floats lib r spec.fields) candidates slots
    pub agree : Agree candidates
    pub supplied :
        All
          (λ (name, field). field.required ≡ true → Has (λ c. c.name ≡ name) candidates)
          spec.fields
    pub valid :
        (validate : Arguments Float → Option String)
        → spec.validate_resolved ≡ some validate
        → validate args ≡ none

  -- The state in which every candidate of `cs` was accepted and nothing else was done.
  abbrev clean_with : List (SlotCandidate Float) → Adjudication Float
  clean_with cs = record nothing_judged { grouped = group_all cs [] }

  settled :
      (taken : Adjudication Float) (cs : List (SlotCandidate Float))
      → taken ≡ accept_all cs nothing_judged
      → All (λ (name, ds). Agrees floats lib r ds) (group_all cs [])
      → settle_groups floats lib r taken.grouped ([], taken)
        ≡ (firsts (group_all cs []), clean_with cs)
  settled taken cs e agree =
      ap (λ (t : Adjudication Float). settle_groups floats lib r t.grouped ([], t))
        (e ∙ accept_all_lem cs nothing_judged)
      ∙ settle_groups-Agrees floats lib r (group_all cs []) [] (clean_with cs) agree

  check_contract-IsClean :
      (check : Option (Arguments Float → Option String)) (missing : List String)
      (args : Arguments Float) (a : Adjudication Float)
      → missing ≡ []
      → IsClean (check_contract check missing args a)
      → IsClean a
        × ((validate : Arguments Float → Option String)
            → check ≡ some validate
            → validate args ≡ none)
  unfolding check_contract reject
  check_contract-IsClean none missing args a none_missing h = (h, λ validate e. cc)
  check_contract-IsClean (some check) missing args a none_missing h =
      elim (Bool-cases (no_problem missing a)) [
        | inr e ↦
            (let clean = (rw (e, check_contract) at h) in
              absurd (cc (IsClean-no_problem missing a none_missing clean)))
        | inl e ↦ elim (Option-cases (check args)) [
          | inr (told, d) ↦
              (let clean = (rw (e, d, check_contract) at h) in
                absurd (append-ne-nil a.rejected told clean.none_rejected))
          | inl d ↦ (
            (no_problem-IsClean missing a e).1,
            λ validate same.
                (let f : check ≡ validate = cc in
                  subst (λ (g : Arguments Float → Option String). g args ≡ none) f d),
          )
        ]
      ]

  -- The test of Resolve for a proposal of which the groups gave `x`.
  abbrev ready_of : OperationSpec Float → Arguments Float × Adjudication Float → Bool
  ready_of spec (args, a) =
      let missing = missing_fields spec.fields args a.adjudicated in
      no_problem missing (check_contract spec.validate_resolved missing args a)

  ready_of_clean :
      (spec : OperationSpec Float) (args : Arguments Float) (cs : List (SlotCandidate Float))
      → missing_fields spec.fields args [] ≡ []
      → ((validate : Arguments Float → Option String)
          → spec.validate_resolved ≡ some validate
          → validate args ≡ none)
      → ready_of spec (args, clean_with cs) ≡ true
  unfolding check_contract
  ready_of_clean spec args cs none_missing valid = elim (Option-cases spec.validate_resolved) [
    | inl e ↦ simp (none_missing, e)
    | inr (validate, e) ↦ simp (none_missing, e, valid validate e)
  ]

  -- What the groups of a proposal give.
  abbrev settle_slots :
      OperationSpec Float → List (SlotCandidate Float) → Arguments Float × Adjudication Float
  settle_slots spec slots =
      let taken = take_slots floats lib r spec.fields slots nothing_judged in
      settle_groups floats lib r taken.grouped ([], taken)

  ready-IsComplete :
      (spec : OperationSpec Float) (slots : List (SlotCandidate Float))
      → ready_of spec (settle_slots spec slots) ≡ true
      → IsComplete spec slots (settle_slots spec slots).0
  ready-IsComplete spec slots ready =
      let taken = take_slots floats lib r spec.fields slots nothing_judged in
      let x = settle_slots spec slots in
      let missing = missing_fields spec.fields x.0 x.1.adjudicated in
      let (none_missing, clean_end) =
        no_problem-IsClean missing (check_contract spec.validate_resolved missing x.0 x.1) ready in
      let (clean, valid) =
        check_contract-IsClean spec.validate_resolved missing x.0 x.1 none_missing clean_end in
      let (clean_taken, agrees) =
        settle_groups-IsClean floats lib r taken.grouped ([], taken) clean in
      let (_, (cs, accepts, e)) =
        take_slots-IsClean floats lib r spec.fields slots nothing_judged clean_taken in
      let groups : taken.grouped ≡ group_all cs [] =
        ap (λ (a : Adjudication Float). a.grouped) (e ∙ accept_all_lem cs nothing_judged) in
      let agree = subst (All (λ (name, ds). Agrees floats lib r ds)) groups agrees in
      let same = settled taken cs e agree in
      record {
        candidates = cs;
        each_accepted = accepts;
        agree = (Agree-iff cs).0 agree;
        supplied =
            All-map _ _ (λ (name, field) f required. (has_argument_iff name cs).0 (f required))
              spec.fields
              ((missing_fields_iff spec.fields (firsts (group_all cs []))).0 (
                subst
                  (λ (y : Arguments Float × Adjudication Float).
                    missing_fields spec.fields y.0 y.1.adjudicated ≡ [])
                  same none_missing));
        valid = valid;
      }

  IsComplete-ready :
      (spec : OperationSpec Float) (slots : List (SlotCandidate Float))
      → IsComplete spec slots (settle_slots spec slots).0
      → ready_of spec (settle_slots spec slots) ≡ true
  IsComplete-ready spec slots c =
      let taken = take_slots floats lib r spec.fields slots nothing_judged in
      let cs = c.candidates in
      let same =
        settled taken cs
          (take_slots-accept_all floats lib r spec.fields cs slots nothing_judged c.each_accepted)
          ((Agree-iff cs).1 c.agree) in
      ap (ready_of spec) same
      ∙ ready_of_clean spec (firsts (group_all cs [])) cs
          ((missing_fields_iff spec.fields (firsts (group_all cs []))).1 (
            All-map _ _ (λ (name, field) f required. (has_argument_iff name cs).1 (f required))
              spec.fields c.supplied))
          (subst
            (λ (y : Arguments Float × Adjudication Float).
              (validate : Arguments Float → Option String)
              → spec.validate_resolved ≡ some validate
              → validate y.0 ≡ none)
            same c.valid)

  -- A proposal of an operation of the catalog is ready for confirmation exactly when every slot is
  -- accepted, those of one name agree, each required field is supplied, and the operation's own
  -- check of the arguments, if it has one, passes.
  pub ready_iff :
      (proposal : ActionProposal Float) (spec : OperationSpec Float)
      → lookup_spec floats lib r proposal.operation r.catalog ≡ some spec
      → let result = resolve floats lib r proposal in
        (result.ready_for_confirmation ≡ true) ↔ IsComplete spec proposal.slots result.arguments
  unfolding resolve resolve_fields conclude
  ready_iff proposal spec known =
      rw (known, resolve)
        (ready-IsComplete spec proposal.slots, IsComplete-ready spec proposal.slots)
