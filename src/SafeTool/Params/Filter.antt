-- ===== src/SafeTool/Params/Filter.antt =====
-- What is left of the arguments of a call.
use compshare_agent.Prelude.{
  String, false, true, none, List, [], ◌∷◌, ◌≡◌, refl, sym, ap, ◌∙◌, arith, eq_iff, if◌then◌else◌,
  str_eq, inl, inr, Bool-cases, Option-cases,
}
use compshare_agent.Value.{Fields, get_field}
use compshare_agent.SafeTool.Params.{contains, pick}

-- The params that filterSafeArgs keeps from a list of allowed names: of every name, the value that
-- was given where the name is allowed, and nothing where it is not.
pub get_field-pick :
    (k : String) (allowed : List String) (m : Fields)
    → get_field k (pick allowed m) ≡ (if contains k allowed then get_field k m else none)
unfolding get_field pick contains
get_field-pick k [] m = refl
get_field-pick k (j ∷ js) m = elim (Bool-cases (str_eq j k)) [
  | inl e ↦ elim (Option-cases (get_field j m)) [
    | inl d ↦
        rw (e, d, pick)
          (ground
            (arith, get_field-pick k js m, ap (λ (x : String). get_field x m) (the_same e), d))
    | inr (v, d) ↦ rw (e, d, pick) (rw e (sym d ∙ ap (λ (x : String). get_field x m) (the_same e)))
  ]
  | inr e ↦ elim (Option-cases (get_field j m)) [
    | inl d ↦ rw (e, d, pick) (get_field-pick k js m)
    | inr (v, d) ↦ rw (e, d, pick) (rw e (get_field-pick k js m))
  ]
]
  where
    the_same : str_eq j k ≡ true → j ≡ k
    the_same h = (eq_iff j k).0 h

pub contains-empty : (k : String) → contains k [] ≡ false
unfolding contains
contains-empty k = refl

pub contains-first :
    (k j : String) (js : List String)
    → contains k (j ∷ js) ≡ (if str_eq j k then true else contains k js)
unfolding contains
contains-first k j js = refl
