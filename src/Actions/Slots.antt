-- ===== src/Actions/Slots.antt =====
-- What Resolve does with one slot of a proposal.
use compshare_agent.Prelude.{
  String, true, none, some, List, ◌≡◌, refl, Except, ok, err, inl, inr, Bool-cases, Option-cases,
  arith,
}
use compshare_agent.Actions.Types.{
  Floats, Any, Strings, SlotCandidate, FieldSpec, unknown_field, TargetVerdict, target_reject,
  target_accept, target_dependency_failure, ValueError, Resolver,
}
use compshare_agent.Actions.Codecs.{◌+++◌, normalize_value}
use compshare_agent.Actions.Judge.{find, Adjudication, reject, refuse_value, accept, settle_target}
use compshare_agent.Actions.Resolve.{adjudicate_target, take_value, take_named, take_slot}

module _ (floats : Floats) (lib : Strings) (r : Resolver floats.Float) where
  open floats use {Float}

  -- The candidate is what a slot becomes: its name is trimmed and names a field, its value is what
  -- the field's codec makes of the slot's, and the verifier accepts it if the field is a target.
  pub record IsAccepted (fields : List (String × FieldSpec)) (c : SlotCandidate Float)
      (slot : SlotCandidate Float) : Type 0 where
    pub field : FieldSpec
    pub named : lib.trim_space slot.name ≡ c.name
    pub found : find c.name fields ≡ some field
    pub normal : normalize_value floats lib r field slot.value ≡ ok c.value
    pub allowed : field.target ≡ true → adjudicate_target floats lib r c ≡ target_accept

  module _ (fields : List (String × FieldSpec)) (slot : SlotCandidate Float)
      (a : Adjudication Float) where
    -- The ways in which a slot changes the adjudication.
    pub data Taken : Adjudication Float → Type 0 where
      accepted : (c : SlotCandidate Float) → IsAccepted fields c slot → Taken (accept c a)
      unknown_name :
          find (lib.trim_space slot.name) fields ≡ none
          → Taken (
              reject
                (lib.trim_space slot.name)
                unknown_field
                ("unknown slot " +++ lib.trim_space slot.name)
                a)
      refused_value :
          (field : FieldSpec) (e : ValueError)
          → find (lib.trim_space slot.name) fields ≡ some field
          → normalize_value floats lib r field slot.value ≡ err e
          → Taken (refuse_value (lib.trim_space slot.name) e a)
      refused_target : (c : SlotCandidate Float) → Taken (settle_target target_reject c a)
      failed_target :
          (c : SlotCandidate Float) → Taken (settle_target target_dependency_failure c a)

    settle_target-Taken :
        (c : SlotCandidate Float) (field : FieldSpec)
        → lib.trim_space slot.name ≡ c.name
        → find c.name fields ≡ some field
        → normalize_value floats lib r field slot.value ≡ ok c.value
        → (verdict : TargetVerdict) → adjudicate_target floats lib r c ≡ verdict
        → Taken (settle_target verdict c a)
    unfolding settle_target
    settle_target-Taken c field named found normal target_reject judged = refused_target c
    settle_target-Taken c field named found normal target_dependency_failure judged =
        failed_target c
    settle_target-Taken c field named found normal target_accept judged = accepted c (record {
      field = field;
      named = named;
      found = found;
      normal = normal;
      allowed = λ t. judged;
    })

    take_value-Taken :
        (field : FieldSpec) (v : Except ValueError (Any Float))
        → find (lib.trim_space slot.name) fields ≡ some field
        → normalize_value floats lib r field slot.value ≡ v
        → Taken (take_value floats lib r field (lib.trim_space slot.name) v a)
    unfolding take_value
    take_value-Taken field (err e) found normal = refused_value field e found normal
    take_value-Taken field (ok value) found normal =
        let c : SlotCandidate Float = record { name = lib.trim_space slot.name; value = value } in
        elim (Bool-cases field.target) [
          | inl t ↦ simp t (
              settle_target-Taken c field refl found normal (adjudicate_target floats lib r c) refl)
          | inr t ↦ simp t (
              accepted c (record {
                field = field;
                named = refl;
                found = found;
                normal = normal;
                allowed = λ u. absurd (ground (arith, t, u));
              }))
        ]

    pub take_slot-Taken : Taken (take_slot floats lib r fields slot a)
    unfolding take_slot take_named
    take_slot-Taken = elim (Option-cases (find (lib.trim_space slot.name) fields)) [
      | inl e ↦ rw (e, take_named) (unknown_name e)
      | inr (field, e) ↦
          rw (e, take_named)
            (take_value-Taken field (normalize_value floats lib r field slot.value) e refl)
    ]
