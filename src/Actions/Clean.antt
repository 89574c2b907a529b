-- ===== src/Actions/Clean.antt =====
-- The slots and the groups of a proposal with which nothing is wrong.
use mathlib.Core.Path.{subst}
use compshare_agent.Prelude.{
  String, true, List, [], ◌∷◌, ◌++◌, ◌≡◌, ◌↔◌, refl, Except, ok, err, eq_iff, inl, inr, Bool-cases,
  arith, All, Pointwise, nil, cons, All-map, append_assoc, append-nil, append-ne-nil, ◌∙◌, sym, ap,
}
use compshare_agent.Actions.Types.{
  Floats, Any, Strings, SlotCandidate, FieldSpec, Arguments, ValueError, dependency_error,
  ambiguity_error, plain_error, target_accept, Resolver,
}
use compshare_agent.Actions.Codecs.{normalize_value}
use compshare_agent.Actions.Judge.{Adjudication, reject, judge, refuse_value, accept, settle_target}
use compshare_agent.Actions.Resolve.{
  adjudicate_target, take_value, take_named, take_slot, take_slots, same_value, all_same,
  settle_group, settle_groups,
}
use compshare_agent.Actions.Slots.{
  IsAccepted, Taken, accepted, unknown_name, refused_value, refused_target, failed_target,
  take_slot-Taken,
}
use compshare_agent.Actions.Grouping.{firsts, accept_all}

-- Nothing is wrong so far.
pub record IsClean {F : Type 0} (a : Adjudication F) : Type 0 where
  pub no_conflicts : a.conflicts ≡ []
  pub none_rejected : a.rejected ≡ []
  pub no_failures : a.dependency_failures ≡ []

module _ (floats : Floats) (lib : Strings) (r : Resolver floats.Float) where
  open floats use {Float}

  refuse_value-not-IsClean :
      (name : String) (e : ValueError) (a : Adjudication Float)
      → ¬ (IsClean (refuse_value name e a))
  unfolding refuse_value
  refuse_value-not-IsClean name (dependency_error detail) a h =
      append-ne-nil a.dependency_failures _ h.no_failures
  refuse_value-not-IsClean name (ambiguity_error detail cs) a h =
      append-ne-nil a.conflicts _ h.no_conflicts
  refuse_value-not-IsClean name (plain_error detail) a h =
      append-ne-nil a.rejected _ h.none_rejected

  module _ (fields : List (String × FieldSpec)) where
    Taken-IsClean :
        (slot : SlotCandidate Float) (a : Adjudication Float) {b : Adjudication Float}
        → Taken floats lib r fields slot a b
        → IsClean b
        → (c : SlotCandidate Float) × IsAccepted floats lib r fields c slot × (b ≡ accept c a)
    unfolding settle_target reject judge
    Taken-IsClean slot a (accepted c t) h = (c, t, refl)
    Taken-IsClean slot a (unknown_name t) h = absurd (append-ne-nil a.rejected _ h.none_rejected)
    Taken-IsClean slot a (refused_value field e t u) h =
        absurd (refuse_value-not-IsClean (lib.trim_space slot.name) e a h)
    Taken-IsClean slot a (refused_target c) h = absurd (append-ne-nil a.rejected _ h.none_rejected)
    Taken-IsClean slot a (failed_target c) h =
        absurd (append-ne-nil a.dependency_failures _ h.no_failures)

    accept-IsClean :
        (c : SlotCandidate Float) (a : Adjudication Float) → IsClean (accept c a) → IsClean a
    unfolding accept
    accept-IsClean c a h = record {
      no_conflicts = h.no_conflicts;
      none_rejected = h.none_rejected;
      no_failures = h.no_failures;
    }

    -- A clean end has accepted every slot.
    pub take_slots-IsClean :
        (slots : List (SlotCandidate Float)) (a : Adjudication Float)
        → IsClean (take_slots floats lib r fields slots a)
        → IsClean a
          × ((cs : List (SlotCandidate Float)) × Pointwise (IsAccepted floats lib r fields) cs slots
              × (take_slots floats lib r fields slots a ≡ accept_all cs a))
    unfolding take_slots accept_all
    take_slots-IsClean [] a h = (h, ([], nil, refl))
    take_slots-IsClean (slot ∷ slots) a h =
        let b = take_slot floats lib r fields slot a in
        let (clean, (cs, ps, e)) = take_slots-IsClean slots b h in
        let (c, p, d) = Taken-IsClean slot a (take_slot-Taken floats lib r fields slot a) clean in
        (accept-IsClean c a (subst IsClean d clean), (c ∷ cs, cons p ps, e ∙ ap (accept_all cs) d))

    take_value-accept :
        (field : FieldSpec) (c : SlotCandidate Float) (v : Except ValueError (Any Float))
        (a : Adjudication Float)
        → v ≡ ok c.value
        → (field.target ≡ true → adjudicate_target floats lib r c ≡ target_accept)
        → take_value floats lib r field c.name v a ≡ accept c a
    unfolding take_value settle_target
    take_value-accept field c (err e) a h allowed = cc
    take_value-accept field c (ok w) a h allowed =
        let same : w ≡ c.value = cc in
        ap (λ (w : Any Float). take_value floats lib r field c.name (ok w) a) same
        ∙ elim (Bool-cases field.target) [
          | inl e ↦ rw e (ap (λ verdict. settle_target verdict c a) (allowed e))
          | inr e ↦ rw e refl
        ]

    take_slot-accept :
        (c slot : SlotCandidate Float) (a : Adjudication Float)
        → IsAccepted floats lib r fields c slot
        → take_slot floats lib r fields slot a ≡ accept c a
    unfolding take_slot take_named
    take_slot-accept c slot a t =
        ap (λ (name : String). take_named floats lib r fields name slot.value a) t.named
        ∙ rw (t.found, take_named)
            (take_value-accept t.field c (normalize_value floats lib r t.field slot.value) a
              t.normal t.allowed)

    pub take_slots-accept_all :
        (cs slots : List (SlotCandidate Float)) (a : Adjudication Float)
        → Pointwise (IsAccepted floats lib r fields) cs slots
        → take_slots floats lib r fields slots a ≡ accept_all cs a
    unfolding take_slots accept_all
    take_slots-accept_all cs slots a nil = refl
    take_slots-accept_all cs slots a (cons {x = c} {y = slot} {xs = ds} {ys = rest} p ps) =
        take_slots-accept_all ds rest (take_slot floats lib r fields slot a) ps
        ∙ ap (accept_all ds) (take_slot-accept c slot a p)

  -- A group whose values have one JSON text.
  abbrev pub Agrees : List (SlotCandidate Float) → Type 0
  Agrees [] = Unit
  Agrees (c ∷ cs) = all_same floats lib r c.value cs ≡ true

  abbrev pub HasJson : String → SlotCandidate Float → Type 0
  HasJson json c = r.marshal c.value ≡ json

  all_same_iff :
      (v : Any Float) (cs : List (SlotCandidate Float))
      → (all_same floats lib r v cs ≡ true) ↔ All (HasJson (r.marshal v)) cs
  unfolding all_same same_value
  all_same_iff v [] = (λ h. tt, λ h. refl)
  all_same_iff v (c ∷ cs) =
      let (forth, back) = all_same_iff v cs in
      let text = eq_iff (r.marshal v) (r.marshal c.value) in
      (
        λ h. (sym (text.0 (ground (arith, h))), forth (ground (arith, h))),
        λ h. (let e = text.1 (sym h.0) in let rest = back h.1 in ground (arith, e, rest)),
      )

  pub Agrees-json :
      (cs : List (SlotCandidate Float)) → Agrees cs → (json : String) × All (HasJson json) cs
  Agrees-json [] h = ("", tt)
  Agrees-json (c ∷ cs) h = (r.marshal c.value, (refl, (all_same_iff c.value cs).0 h))

  pub json-Agrees :
      (json : String) (cs : List (SlotCandidate Float)) → All (HasJson json) cs → Agrees cs
  json-Agrees json [] h = tt
  json-Agrees json (c ∷ cs) h =
      (all_same_iff c.value cs).1
        (All-map (HasJson json) (HasJson (r.marshal c.value)) (λ d e. e ∙ sym h.0) cs h.1)

  settle_group-Agrees :
      (name : String) (c : SlotCandidate Float) (cs : List (SlotCandidate Float))
      (args : Arguments Float) (a : Adjudication Float)
      → Agrees (c ∷ cs)
      → settle_group floats lib r name (c ∷ cs) (args, a) ≡ (args ++ (name, c.value) ∷ [], a)
  unfolding settle_group
  settle_group-Agrees name c cs args a h = rw (h, settle_group) refl

  pub settle_groups-Agrees :
      (groups : List (String × List (SlotCandidate Float))) (args : Arguments Float)
      (a : Adjudication Float)
      → All (λ (name, cs). Agrees cs) groups
      → settle_groups floats lib r groups (args, a) ≡ (args ++ firsts groups, a)
  unfolding settle_groups settle_group firsts
  settle_groups-Agrees [] args a h = ap (λ (xs : Arguments Float). (xs, a)) (sym (append-nil args))
  settle_groups-Agrees ((name, []) ∷ groups) args a h = settle_groups-Agrees groups args a h.1
  settle_groups-Agrees ((name, c ∷ cs) ∷ groups) args a h =
      ap (settle_groups floats lib r groups) (settle_group-Agrees name c cs args a h.0)
      ∙ settle_groups-Agrees groups (args ++ (name, c.value) ∷ []) a h.1
      ∙ ap (λ (xs : Arguments Float). (xs, a))
          (append_assoc args ((name, c.value) ∷ []) (firsts groups))

  settle_group-IsClean :
      (name : String) (cs : List (SlotCandidate Float)) (x : Arguments Float × Adjudication Float)
      → IsClean (settle_group floats lib r name cs x).1
      → IsClean x.1 × Agrees cs
  unfolding settle_group judge
  settle_group-IsClean name [] x h = (h, tt)
  settle_group-IsClean name (c ∷ cs) (args, a) h =
      elim (Bool-cases (all_same floats lib r c.value cs)) [
        | inl e ↦ (rw (e, settle_group) at h, e)
        | inr e ↦
            (let clean = (rw (e, settle_group) at h) in
              absurd (append-ne-nil a.conflicts _ clean.no_conflicts))
      ]

  pub settle_groups-IsClean :
      (groups : List (String × List (SlotCandidate Float)))
      (x : Arguments Float × Adjudication Float)
      → IsClean (settle_groups floats lib r groups x).1
      → IsClean x.1 × All (λ (name, cs). Agrees cs) groups
  unfolding settle_groups
  settle_groups-IsClean [] x h = (h, tt)
  settle_groups-IsClean ((name, cs) ∷ groups) x h =
      let (clean, agree) = settle_groups-IsClean groups (settle_group floats lib r name cs x) h in
      let (before, agrees) = settle_group-IsClean name cs x clean in (before, (agrees, agree))
