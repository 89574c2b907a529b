-- ===== src/Workflow/Form.antt =====
-- internal/workflow/types.go: the editable confirmation form. Only the fields that the code
-- branches on are kept (labels, notes and step metadata are presentation). The zero value of a
-- Go string is "".
pub mod Validation
use compshare_agent.Prelude.{
  String, Bool, true, false, ◌&&◌, not, Option, none, some, List, [], ◌∷◌, if◌then◌else◌, str_eq,
}

pub record FormOption : Type 0 where
  pub value : String
  pub disabled : Bool

pub record FormField : Type 0 where
  pub key : String
  pub value : String
  pub editable : Bool
  pub options : List FormOption

pub record ConfirmForm : Type 0 where
  pub fields : List FormField

-- `map[string]string`, in the order in which Go's `range` happens to visit it.
abbrev pub Overrides : Type 0
Overrides = List (String × String)

-- ConfirmForm.Field: the first field with the key.
unfoldable pub find_field : String → List FormField → Option FormField
find_field k [] = none
find_field k (f ∷ fs) = if str_eq f.key k then some f else find_field k fs

-- The inner loop of ValidateOverrides.
unfoldable pub offers : String → List FormOption → Bool
offers v [] = false
offers v (o ∷ os) = if str_eq o.value v && not o.disabled then true else offers v os

pub data FormError : Type 0 where
  not_editable : String → FormError
  not_offered : String → FormError

-- One iteration of the loop of ValidateOverrides; `none` lets the loop go on.
unfoldable pub validate_one : List FormField → String → String → Option FormError
validate_one fields k v = elim (find_field k fields) [
  | none ↦ some (not_editable k)
  | some f ↦
      if not f.editable
      then some (not_editable k)
      else if offers v f.options
      then none
      else some (not_offered k)
]

-- ConfirmForm.ValidateOverrides: the first violation in the order of the map's iteration.
unfoldable pub validate_overrides : ConfirmForm → Overrides → Option FormError
validate_overrides form [] = none
validate_overrides form ((k, v) ∷ rest) =
    let later = validate_overrides form rest in
    elim (validate_one form.fields k v) [ none ↦ later | some e ↦ some e ]

-- `out[key] = value` on a `map[string]string`.
unfoldable pub put_override : String → String → Overrides → Overrides
put_override k v [] = (k, v) ∷ []
put_override k v ((j, w) ∷ m) = if str_eq j k then (k, v) ∷ m else (j, w) ∷ put_override k v m

-- The loop of FormDefaultOverrides.
unfoldable pub default_from : List FormField → Overrides → Overrides
default_from [] out = out
default_from (f ∷ fs) out =
    default_from fs
      (if f.editable && not (str_eq f.value "") then put_override f.key f.value out else out)

unfoldable pub form_default_overrides : ConfirmForm → Overrides
unfolding default_from put_override
form_default_overrides form = default_from form.fields []
