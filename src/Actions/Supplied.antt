-- ===== src/Actions/Supplied.antt =====
-- internal/actionresolver/resolver.go: which fields a proposal supplies.

use compshare_agent.Prelude.{
  String, Bool, true, false, not, ◌&&◌, List, [], ◌∷◌, ◌≡◌, ◌↔◌, refl, inl, inr, Bool-cases, arith,
  All, Has, ◌∙◌, sym, ap,
}
use compshare_agent.SafeTool.Params.{contains}
use compshare_agent.Actions.Types.{SlotCandidate, FieldSpec, Arguments}
use compshare_agent.Actions.Judge.{has_key, is_empty, Adjudication}
use compshare_agent.Actions.Resolve.{missing_fields, no_problem}
use compshare_agent.Actions.Grounded.{IsGroup, append_group-All}
use compshare_agent.Actions.Grouping.{
  group_all, members-group_all, has_name_iff, group_all-IsNonempty, firsts, has_key-firsts,
}
use compshare_agent.Actions.Clean.{IsClean}

pub is_empty_lem : {A : Type 0} (xs : List A) → is_empty xs ≡ true → xs ≡ []
is_empty_lem [] h = refl
is_empty_lem (x ∷ xs) h = cc

unmet : (a b : Bool) → (a && not b && not false) ≡ true → (a ≡ true → b ≡ true) → ⊥
unmet true true e h = cc
unmet true false e h = cc (h refl)
unmet false b e h = cc

met : (a b : Bool) → (a && not b && not false) ≡ false → a ≡ true → b ≡ true
met true true e h = refl
met true false e h = cc
met false b e h = cc

module _ {F : Type 0} where
  pub no_problem-IsClean :
      (missing : List String) (a : Adjudication F)
      → no_problem missing a ≡ true
      → (missing ≡ []) × IsClean a
  no_problem-IsClean missing a h = (
    is_empty_lem missing (ground (arith, h)),
    record {
      no_conflicts = is_empty_lem a.conflicts (ground (arith, h));
      none_rejected = is_empty_lem a.rejected (ground (arith, h));
      no_failures = is_empty_lem a.dependency_failures (ground (arith, h));
    },
  )

  pub IsClean-no_problem :
      (missing : List String) (a : Adjudication F)
      → missing ≡ []
      → IsClean a
      → no_problem missing a ≡ true
  IsClean-no_problem missing a e h = simp (e, h.no_conflicts, h.none_rejected, h.no_failures)

  pub missing_fields_iff :
      (fields : List (String × FieldSpec)) (args : Arguments F)
      → (missing_fields fields args [] ≡ [])
        ↔ All (λ (name, field). field.required ≡ true → has_key name args ≡ true) fields
  unfolding missing_fields contains
  missing_fields_iff [] args = (λ h. tt, λ h. refl)
  missing_fields_iff ((name, field) ∷ fields) args =
      let (forth, back) = missing_fields_iff fields args in
      elim (Bool-cases (field.required && not (has_key name args) && not false)) [
        | inl e ↦ rw e (λ h. cc, λ h. absurd (unmet field.required (has_key name args) e h.0))
        | inr e ↦ rw e (λ h. (met field.required (has_key name args) e, forth h), λ h. back h.1)
      ]

  pub group_all-All :
      (P : SlotCandidate F → Type 0) (cs : List (SlotCandidate F))
      (groups : List (String × List (SlotCandidate F)))
      → All P cs
      → All (IsGroup P) groups
      → All (IsGroup P) (group_all cs groups)
  unfolding group_all
  group_all-All P [] groups ps g = g
  group_all-All P (c ∷ cs) groups ps g =
      group_all-All P cs _ ps.1 (append_group-All P c groups ps.0 g)

  -- The name of a field is among the arguments if a candidate has it.
  pub has_argument_iff :
      (k : String) (cs : List (SlotCandidate F))
      → (has_key k (firsts (group_all cs [])) ≡ true) ↔ Has (λ (c : SlotCandidate F). c.name ≡ k) cs
  has_argument_iff k cs =
      let same = has_key-firsts k (group_all cs []) (group_all-IsNonempty cs [] tt) in
      let group =
        ap (λ (ds : List (SlotCandidate F)). not (is_empty ds)) (members-group_all k cs []) in
      let (forth, back) = has_name_iff k cs in
      (
        λ h. (let e = sym (same ∙ group) ∙ h in forth (ground (arith, e))),
        λ h. (let e = back h in (same ∙ group) ∙ ground (arith, e)),
      )
