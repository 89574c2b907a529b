-- ===== src/Workflow/Form/Validation.antt =====
-- What ValidateOverrides lets through.
use compshare_agent.Prelude.{
  String, true, false, ◌&&◌, not, none, some, List, [], ◌∷◌, ◌≡◌, ◌↔◌, refl, inl, inr, Bool-cases,
  Option-cases, str_eq, eq_iff, arith, All,
}
use compshare_agent.Workflow.Form.{
  ConfirmForm, FormField, FormOption, not_editable, Overrides, find_field, offers, validate_one,
  validate_overrides,
}

-- An enabled option with the value.
pub data Offered (v : String) : List FormOption → Type 0 where
  here :
      {o : FormOption} {os : List FormOption}
      → o.value ≡ v
      → o.disabled ≡ false
      → Offered v (o ∷ os)
  later : {o : FormOption} {os : List FormOption} → Offered v os → Offered v (o ∷ os)

-- The key's field is editable and offers the value.
pub record Allowed (form : ConfirmForm) (edit : String × String) : Type 0 where
  pub field : FormField
  pub found : find_field edit.0 form.fields ≡ some field
  pub editable : field.editable ≡ true
  pub offered : Offered edit.1 field.options

offers→Offered : (v : String) (os : List FormOption) → offers v os ≡ true → Offered v os
unfolding offers
offers→Offered v [] h = cc
offers→Offered v (o ∷ os) h = elim (Bool-cases (str_eq o.value v && not o.disabled)) [
  | inl e ↦ here (ground (arith, eq_iff o.value v)) (ground arith)
  | inr e ↦ later (offers→Offered v os (rw e at h))
]

Offered→offers : {v : String} {os : List FormOption} → Offered v os → offers v os ≡ true
unfolding offers
Offered→offers {v} (here {o = o} e d) = ground (arith, eq_iff o.value v)
Offered→offers {v} (later {o = o} {os = os} k) = ground (arith, Offered→offers k)

-- By the field that the key names, and the two tests on it.
by_field :
    (form : ConfirmForm) (k v : String) (f : FormField)
    → find_field k form.fields ≡ some f
    → validate_one form.fields k v ≡ none
    → (f.editable ≡ true) × (offers v f.options ≡ true)
unfolding validate_one
by_field form k v f e h = ground (arith, h)

one-Allowed :
    (form : ConfirmForm) (k v : String) → validate_one form.fields k v ≡ none → Allowed form (k, v)
unfolding validate_one
one-Allowed form k v h = elim (Option-cases (find_field k form.fields)) [
  | inl e ↦ cc (absent e)
  | inr (f, e) ↦
      (let (open_field, open_value) = by_field form k v f e h in
        record {
          field = f;
          found = e;
          editable = open_field;
          offered = offers→Offered v f.options open_value;
        })
]
  where
    absent : find_field k form.fields ≡ none → validate_one form.fields k v ≡ some (not_editable k)
    absent e = rw (e, validate_one)

Allowed-one :
    (form : ConfirmForm) (k v : String) → Allowed form (k, v) → validate_one form.fields k v ≡ none
unfolding validate_one
Allowed-one form k v a =
    rw (a.found, validate_one) (ground (arith, a.editable, Offered→offers a.offered))

validated-Allowed :
    (form : ConfirmForm) (overrides : Overrides)
    → validate_overrides form overrides ≡ none
    → All (Allowed form) overrides
unfolding validate_overrides
validated-Allowed form [] h = tt
validated-Allowed form ((k, v) ∷ rest) h =
    (one-Allowed form k v (ground arith), validated-Allowed form rest (ground arith))

Allowed-validated :
    (form : ConfirmForm) (overrides : Overrides)
    → All (Allowed form) overrides
    → validate_overrides form overrides ≡ none
unfolding validate_overrides
Allowed-validated form [] h = refl
Allowed-validated form ((k, v) ∷ rest) h =
    rw (Allowed-one form k v h.0, validate_overrides) (Allowed-validated form rest h.1)

-- ValidateOverrides accepts a set of overrides exactly when each of them names a key whose first
-- field is editable and has an enabled option with the value: the form is a whitelist, whatever
-- the order in which the map is visited.
pub validate_overrides_iff :
    (form : ConfirmForm) (overrides : Overrides)
    → (validate_overrides form overrides ≡ none) ↔ All (Allowed form) overrides
validate_overrides_iff form overrides =
    (validated-Allowed form overrides, Allowed-validated form overrides)
