-- ===== src/Actions/Grounded.antt =====
-- Where the arguments of a resolved action come from.
use mathlib.Core.Path.{subst}
use compshare_agent.Prelude.{
  String, some, List, [], ◌∷◌, ◌≡◌, refl, str_eq, eq_iff, inl, inr, Bool-cases, All, All-snoc,
  All-Has, Has, sym,
}
use compshare_agent.Actions.Types.{
  Floats, Any, Strings, SlotCandidate, ActionProposal, FieldSpec, Arguments, OperationSpec,
  ValueError, dependency_error, ambiguity_error, plain_error, Resolver,
}
use compshare_agent.Actions.Judge.{
  Adjudication, nothing_judged, reject, judge, refuse_value, append_group, accept, settle_target,
}
use compshare_agent.Actions.Resolve.{
  take_slot, take_slots, all_same, settle_group, settle_groups, resolve_fields, lookup_spec,
  conclude, resolve,
}
use compshare_agent.Actions.Slots.{
  IsAccepted, Taken, accepted, unknown_name, refused_value, refused_target, failed_target,
  take_slot-Taken,
}

module _ {F : Type 0} (P : SlotCandidate F → Type 0) where
  -- The members of a group have its name, and the property.
  abbrev pub IsGroup : String × List (SlotCandidate F) → Type 0
  IsGroup (name, cs) = All (λ c. (c.name ≡ name) × P c) cs

  pub append_group-All :
      (c : SlotCandidate F) (groups : List (String × List (SlotCandidate F)))
      → P c
      → All IsGroup groups
      → All IsGroup (append_group c groups)
  unfolding append_group
  append_group-All c [] p g = (((refl, p), tt), tt)
  append_group-All c ((name, cs) ∷ groups) p g = elim (Bool-cases (str_eq name c.name)) [
    | inl e ↦
        rw e
          (All-snoc (λ c. (c.name ≡ name) × P c) cs c g.0 (sym ((eq_iff name c.name).0 e), p), g.1)
    | inr e ↦ rw e (g.0, append_group-All c groups p g.1)
  ]

  refuse_value-grouped :
      (name : String) (e : ValueError) (a : Adjudication F)
      → (refuse_value name e a).grouped ≡ a.grouped
  unfolding refuse_value
  refuse_value-grouped name (dependency_error detail) a = refl
  refuse_value-grouped name (ambiguity_error detail cs) a = refl
  refuse_value-grouped name (plain_error detail) a = refl

  -- Arguments by what they are the candidates of.
  abbrev IsArgument : String × Any F → Type 0
  IsArgument (name, value) = P (record { name = name; value = value })

module _ (floats : Floats) (lib : Strings) (r : Resolver floats.Float) where
  open floats use {Float}

  module _ (fields : List (String × FieldSpec)) (P : SlotCandidate Float → Type 0) where
    Taken-grouped :
        (slot : SlotCandidate Float) (a : Adjudication Float) {b : Adjudication Float}
        → ((c : SlotCandidate Float) → IsAccepted floats lib r fields c slot → P c)
        → Taken floats lib r fields slot a b
        → All (IsGroup P) a.grouped
        → All (IsGroup P) b.grouped
    unfolding accept reject settle_target judge
    Taken-grouped slot a ps (accepted c t) g = append_group-All P c a.grouped (ps c t) g
    Taken-grouped slot a ps (unknown_name t) g = g
    Taken-grouped slot a ps (refused_value field e t u) g = rw refuse_value-grouped g
    Taken-grouped slot a ps (refused_target c) g = g
    Taken-grouped slot a ps (failed_target c) g = g

    take_slots-grouped :
        (slots : List (SlotCandidate Float)) (a : Adjudication Float)
        → All
            (λ slot. (c : SlotCandidate Float) → IsAccepted floats lib r fields c slot → P c)
            slots
        → All (IsGroup P) a.grouped
        → All (IsGroup P) (take_slots floats lib r fields slots a).grouped
    unfolding take_slots
    take_slots-grouped [] a ps g = g
    take_slots-grouped (slot ∷ slots) a ps g =
        take_slots-grouped slots (take_slot floats lib r fields slot a) ps.1
          (Taken-grouped slot a ps.0 (take_slot-Taken floats lib r fields slot a) g)

    settle_group-All :
        (name : String) (cs : List (SlotCandidate Float)) (x : Arguments Float × Adjudication Float)
        → IsGroup P (name, cs)
        → All (IsArgument P) x.0
        → All (IsArgument P) (settle_group floats lib r name cs x).0
    unfolding settle_group
    settle_group-All name [] x g done = done
    settle_group-All name (c ∷ cs) (args, a) g done =
        elim (Bool-cases (all_same floats lib r c.value cs)) [
          | inl e ↦
              rw (e, settle_group)
                (All-snoc (IsArgument P) args (name, c.value) done
                  (subst (λ n. P (record { name = n; value = c.value })) g.0.0 g.0.1))
          | inr e ↦ rw (e, settle_group) done
        ]

    settle_groups-All :
        (groups : List (String × List (SlotCandidate Float)))
        (x : Arguments Float × Adjudication Float)
        → All (IsGroup P) groups
        → All (IsArgument P) x.0
        → All (IsArgument P) (settle_groups floats lib r groups x).0
    unfolding settle_groups
    settle_groups-All [] x g done = done
    settle_groups-All ((name, cs) ∷ groups) x g done =
        settle_groups-All groups (settle_group floats lib r name cs x) g.1
          (settle_group-All name cs x g.0 done)

  -- Every argument of a resolved action is what a slot of the proposal becomes: the slot's trimmed
  -- name is the argument's and names a field of the operation, the field's codec makes the value of
  -- the slot's, and a target is accepted by the verifier.
  pub resolve-IsGrounded :
      (proposal : ActionProposal Float) (spec : OperationSpec Float)
      → lookup_spec floats lib r proposal.operation r.catalog ≡ some spec
      → All
          (λ (name, value).
            Has
              (IsAccepted floats lib r spec.fields (record { name = name; value = value }))
              proposal.slots)
          (resolve floats lib r proposal).arguments
  unfolding resolve resolve_fields conclude
  resolve-IsGrounded proposal spec known =
      let P =
        λ (c : SlotCandidate Float). Has (IsAccepted floats lib r spec.fields c) proposal.slots in
      let taken = take_slots floats lib r spec.fields proposal.slots nothing_judged in
      rw (known, resolve)
        (settle_groups-All spec.fields P taken.grouped ([], taken)
          (take_slots-grouped spec.fields P proposal.slots nothing_judged
            (All-Has (IsAccepted floats lib r spec.fields) proposal.slots) tt)
          tt)
