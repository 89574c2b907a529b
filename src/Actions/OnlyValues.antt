-- ===== src/Actions/OnlyValues.antt =====
-- internal/actionresolver/resolver.go: proposals in which nothing but values is refused.
use compshare_agent.Prelude.{
  String, Bool, true, false, Option, none, some, List, [], ◌∷◌, ◌++◌, ◌≡◌, refl, err, inl, inr,
  Bool-cases, Option-cases, All, append-ne-nil,
}
use compshare_agent.Actions.Types.{
  Floats, Strings, SlotCandidate, FieldSpec, Arguments, RejectionKind, invalid_value, unknown_field,
  target_not_exist, operation_contract, RejectedProblem, ValueError, dependency_error,
  ambiguity_error, plain_error, Resolver,
}
use compshare_agent.Actions.Codecs.{◌+++◌, normalize_value}
use compshare_agent.Actions.Judge.{
  find, Adjudication, reject, judge, refuse_value, accept, settle_target,
}
use compshare_agent.Actions.Resolve.{
  take_slot, take_slots, all_same, settle_group, settle_groups, no_problem, check_contract,
}
use compshare_agent.Actions.Slots.{
  IsAccepted, Taken, accepted, unknown_name, refused_value, refused_target, failed_target,
  take_slot-Taken,
}

abbrev is_dependency : ValueError → Bool
is_dependency (dependency_error detail) = true
is_dependency (ambiguity_error detail candidates) = false
is_dependency (plain_error detail) = false

-- Values that the form can collect again are all that was refused.
pub record OnlyValues {F : Type 0} (a : Adjudication F) : Type 0 where
  pub all_values : All (λ (p : RejectedProblem). p.kind ≡ invalid_value) a.rejected_problems
  pub no_failures : a.dependency_failures ≡ []

All-init :
    {A : Type 0} (P : A → Type 0) (xs : List A) (x : A) → All P (xs ++ x ∷ []) → All P xs × P x
All-init P [] x ps = (tt, ps.0)
All-init P (y ∷ ys) x ps = let (rest, p) = All-init P ys x ps.1 in ((ps.0, rest), p)

module _ (floats : Floats) (lib : Strings) (r : Resolver floats.Float) where
  open floats use {Float}

  module _ (fields : List (String × FieldSpec)) where
    -- A slot that is accepted, or that names a field whose codec refuses its value, and not for want
    -- of a catalog.
    pub data Correctable (slot : SlotCandidate Float) : Type 0 where
      good : (c : SlotCandidate Float) → IsAccepted floats lib r fields c slot → Correctable slot
      bad_value :
          (field : FieldSpec) (e : ValueError)
          → find (lib.trim_space slot.name) fields ≡ some field
          → normalize_value floats lib r field slot.value ≡ err e
          → is_dependency e ≡ false
          → Correctable slot

    refuse_value-OnlyValues :
        (name : String) (e : ValueError) (a : Adjudication Float)
        → OnlyValues (refuse_value name e a)
        → (is_dependency e ≡ false) × OnlyValues a
    unfolding refuse_value
    refuse_value-OnlyValues name (dependency_error detail) a h =
        absurd (append-ne-nil a.dependency_failures _ h.no_failures)
    refuse_value-OnlyValues name (ambiguity_error detail cs) a h =
        (refl, record { all_values = h.all_values; no_failures = h.no_failures })
    refuse_value-OnlyValues name (plain_error detail) a h = (
      refl,
      record {
        all_values = (All-init _ a.rejected_problems _ h.all_values).0;
        no_failures = h.no_failures;
      },
    )

    -- `reject` with another kind is seen.
    reject-OnlyValues :
        (slot : String) (kind : RejectionKind) (told : String) (a : Adjudication Float)
        → OnlyValues (reject slot kind told a)
        → (kind ≡ invalid_value) × OnlyValues a
    unfolding reject
    reject-OnlyValues slot kind told a h =
        let (rest, same) = All-init _ a.rejected_problems _ h.all_values in
        (same, record { all_values = rest; no_failures = h.no_failures })

    Taken-OnlyValues :
        (slot : SlotCandidate Float) (a : Adjudication Float) {b : Adjudication Float}
        → Taken floats lib r fields slot a b
        → OnlyValues b
        → OnlyValues a × Correctable slot
    unfolding accept settle_target judge
    Taken-OnlyValues slot a (accepted c t) h =
        (record { all_values = h.all_values; no_failures = h.no_failures }, good c t)
    Taken-OnlyValues slot a (unknown_name t) h =
        let wrong : unknown_field ≡ invalid_value =
          (reject-OnlyValues (lib.trim_space slot.name) unknown_field
            ("unknown slot " +++ lib.trim_space slot.name) a h).0 in
        cc
    Taken-OnlyValues slot a (refused_value field e t u) h =
        let (known, rest) = refuse_value-OnlyValues (lib.trim_space slot.name) e a h in
        (rest, bad_value field e t u known)
    Taken-OnlyValues slot a (refused_target c) h =
        let wrong : target_not_exist ≡ invalid_value =
          (reject-OnlyValues c.name target_not_exist
            (c.name +++ ": target existence could not be confirmed") a
            (record { all_values = h.all_values; no_failures = h.no_failures })).0 in
        cc
    Taken-OnlyValues slot a (failed_target c) h =
        absurd (append-ne-nil a.dependency_failures _ h.no_failures)

    pub take_slots-OnlyValues :
        (slots : List (SlotCandidate Float)) (a : Adjudication Float)
        → OnlyValues (take_slots floats lib r fields slots a)
        → OnlyValues a × All Correctable slots
    unfolding take_slots
    take_slots-OnlyValues [] a h = (h, tt)
    take_slots-OnlyValues (slot ∷ slots) a h =
        let (before, rest) = take_slots-OnlyValues slots (take_slot floats lib r fields slot a) h in
        let (first, this) =
          Taken-OnlyValues slot a (take_slot-Taken floats lib r fields slot a) before in
        (first, (this, rest))

  settle_group-OnlyValues :
      (name : String) (cs : List (SlotCandidate Float)) (x : Arguments Float × Adjudication Float)
      → OnlyValues (settle_group floats lib r name cs x).1
      → OnlyValues x.1
  unfolding settle_group judge
  settle_group-OnlyValues name [] x h = h
  settle_group-OnlyValues name (c ∷ cs) (args, a) h =
      elim (Bool-cases (all_same floats lib r c.value cs)) [
        | inl e ↦ rw (e, settle_group) at h
        | inr e ↦
            (let g = (rw (e, settle_group) at h) in
              record { all_values = g.all_values; no_failures = g.no_failures })
      ]

  pub settle_groups-OnlyValues :
      (groups : List (String × List (SlotCandidate Float)))
      (x : Arguments Float × Adjudication Float)
      → OnlyValues (settle_groups floats lib r groups x).1
      → OnlyValues x.1
  unfolding settle_groups
  settle_groups-OnlyValues [] x h = h
  settle_groups-OnlyValues ((name, cs) ∷ groups) x h =
      settle_group-OnlyValues name cs x
        (settle_groups-OnlyValues groups (settle_group floats lib r name cs x) h)

  pub check_contract-OnlyValues :
      (check : Option (Arguments Float → Option String)) (missing : List String)
      (args : Arguments Float) (a : Adjudication Float)
      → OnlyValues (check_contract check missing args a)
      → OnlyValues a
  unfolding check_contract
  check_contract-OnlyValues none missing args a h = h
  check_contract-OnlyValues (some check) missing args a h =
      elim (Bool-cases (no_problem missing a)) [
        | inr e ↦ rw (e, check_contract) at h
        | inl e ↦ elim (Option-cases (check args)) [
          | inl d ↦ rw (e, d, check_contract) at h
          | inr (told, d) ↦
              (let g = (rw (e, d, check_contract) at h) in
                (reject-OnlyValues [] "" operation_contract told a g).1)
        ]
      ]
