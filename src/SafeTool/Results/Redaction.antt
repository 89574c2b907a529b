-- ===== src/SafeTool/Results/Redaction.antt =====
-- No field that a policy redacts keeps its value in the result that the model sees.
use compshare_agent.Prelude.{
  String, Bool, true, false, ◌||◌, not, List, [], ◌∷◌, ◌≡◌, refl, arith, eq_iff, if◌then◌else◌,
  str_eq, inl, inr, Bool-cases,
}
use compshare_agent.Value.{
  Value, Items, Fields, null, bool, num, str, arr, obj, nil, cons, end, field,
}
use compshare_agent.SafeTool.Params.{contains}
use compshare_agent.SafeTool.Params.Filter.{contains-empty, contains-first}
use compshare_agent.SafeTool.Results.{
  redacted, redact_fields, redact_value, redact_items, redact_all,
}

abbrev is_redacted : Value → Bool
is_redacted (str s) = str_eq s redacted
is_redacted v = false

-- Some field `f` has a value of its own, in the map, in a map in it, or in one that is an item of a
-- list, at any depth.
mutual
  pub leaks : String → Fields → Bool
  leaks f end = false
  leaks f (field k v m) =
      let inner = value_leaks f v in
      (if str_eq k f then not (is_redacted v) else inner) || leaks f m

  pub value_leaks : String → Value → Bool
  value_leaks f (obj m) = leaks f m
  value_leaks f (arr xs) = items_leak f xs
  value_leaks f v = false

  pub items_leak : String → Items → Bool
  items_leak f nil = false
  items_leak f (cons (obj m) rest) = leaks f m || items_leak f rest
  items_leak f (cons v rest) = items_leak f rest

mutual
  unfolding leaks value_leaks items_leak redact_fields redact_value redact_items

  leaks-redact_fields : (f : String) (m : Fields) → leaks f (redact_fields f m) ≡ false
  leaks-redact_fields f end = refl
  leaks-redact_fields f (field k v m) = elim (Bool-cases (str_eq k f)) [
    | inl e ↦ rw (e, redact_fields) (rw (e, leaks) (leaks-redact_fields f m))
    | inr e ↦
        rw (e, redact_fields) (rw (e, leaks, leaks-redact_value f v) (leaks-redact_fields f m))
  ]

  leaks-redact_value : (f : String) (v : Value) → value_leaks f (redact_value f v) ≡ false
  leaks-redact_value f (obj m) = leaks-redact_fields f m
  leaks-redact_value f (arr xs) = leaks-redact_items f xs
  leaks-redact_value f (str s) = refl
  leaks-redact_value f (num n) = refl
  leaks-redact_value f (bool b) = refl
  leaks-redact_value f null = refl

  leaks-redact_items : (f : String) (xs : Items) → items_leak f (redact_items f xs) ≡ false
  leaks-redact_items f nil = refl
  leaks-redact_items f (cons (obj m) rest) =
      rw (leaks-redact_fields f m) (leaks-redact_items f rest)
  leaks-redact_items f (cons (arr xs) rest) = leaks-redact_items f rest
  leaks-redact_items f (cons (str s) rest) = leaks-redact_items f rest
  leaks-redact_items f (cons (num n) rest) = leaks-redact_items f rest
  leaks-redact_items f (cons (bool b) rest) = leaks-redact_items f rest
  leaks-redact_items f (cons null rest) = leaks-redact_items f rest

or_false : (a b : Bool) → (a || b) ≡ false → (a ≡ false) × (b ≡ false)
or_false false b h = (refl, h)
or_false true b h = cc

is_redacted-redact_value : (f : String) (v : Value) → is_redacted (redact_value f v) ≡ is_redacted v
unfolding redact_value
is_redacted-redact_value f (obj m) = refl
is_redacted-redact_value f (arr xs) = refl
is_redacted-redact_value f (str s) = refl
is_redacted-redact_value f (num n) = refl
is_redacted-redact_value f (bool b) = refl
is_redacted-redact_value f null = refl

-- The condition on one field, kept when its value is replaced or redacted inside.
kept_field :
    (own : Bool) (v w : Value) (inner inner2 : Bool)
    → is_redacted w ≡ is_redacted v
    → (inner ≡ false → inner2 ≡ false)
    → (if own then not (is_redacted v) else inner) ≡ false
    → (if own then not (is_redacted w) else inner2) ≡ false
kept_field true v w inner inner2 same keep h = rw same h
kept_field false v w inner inner2 same keep h = keep h

blanked_field : (own : Bool) → (if own then not (is_redacted (str redacted)) else false) ≡ false
blanked_field true = refl
blanked_field false = refl

mutual
  unfolding leaks value_leaks items_leak redact_fields redact_value redact_items

  leaks-redact_other :
      (g f : String) (m : Fields) → leaks g m ≡ false → leaks g (redact_fields f m) ≡ false
  leaks-redact_other g f end h = refl
  leaks-redact_other g f (field k v m) h =
      let both =
        or_false (if str_eq k g then not (is_redacted v) else value_leaks g v) (leaks g m) h in
      elim (Bool-cases (str_eq k f)) [
        | inl e ↦
            rw (e, redact_fields)
              (rw (blanked_field (str_eq k g)) (leaks-redact_other g f m both.1))
        | inr e ↦
            rw (e, redact_fields)
              (rw
                (kept_field (str_eq k g) v (redact_value f v) (value_leaks g v)
                  (value_leaks g (redact_value f v)) (is_redacted-redact_value f v)
                  (λ clean. value_leaks-redact_other g f v clean) both.0)
                (leaks-redact_other g f m both.1))
      ]

  value_leaks-redact_other :
      (g f : String) (v : Value)
      → value_leaks g v ≡ false
      → value_leaks g (redact_value f v) ≡ false
  value_leaks-redact_other g f (obj m) h = leaks-redact_other g f m h
  value_leaks-redact_other g f (arr xs) h = items_leak-redact_other g f xs h
  value_leaks-redact_other g f (str s) h = refl
  value_leaks-redact_other g f (num n) h = refl
  value_leaks-redact_other g f (bool b) h = refl
  value_leaks-redact_other g f null h = refl

  items_leak-redact_other :
      (g f : String) (xs : Items)
      → items_leak g xs ≡ false
      → items_leak g (redact_items f xs) ≡ false
  items_leak-redact_other g f nil h = refl
  items_leak-redact_other g f (cons (obj m) rest) h =
      let both = or_false (leaks g m) (items_leak g rest) h in
      rw (leaks-redact_other g f m both.0) (items_leak-redact_other g f rest both.1)
  items_leak-redact_other g f (cons (arr xs) rest) h = items_leak-redact_other g f rest h
  items_leak-redact_other g f (cons (str s) rest) h = items_leak-redact_other g f rest h
  items_leak-redact_other g f (cons (num n) rest) h = items_leak-redact_other g f rest h
  items_leak-redact_other g f (cons (bool b) rest) h = items_leak-redact_other g f rest h
  items_leak-redact_other g f (cons null rest) h = items_leak-redact_other g f rest h

leaks-redact_all_kept :
    (g : String) (fs : List String) (m : Fields)
    → leaks g m ≡ false
    → leaks g (redact_all fs m) ≡ false
unfolding redact_all
leaks-redact_all_kept g [] m h = h
leaks-redact_all_kept g (f ∷ fs) m h =
    leaks-redact_all_kept g fs (redact_fields f m) (leaks-redact_other g f m h)

-- Of the result that the model sees, no field that the policy redacts has a value of its own: not in
-- the result, not in a map in it, and not in a map that is an item of a list, at any depth, however
-- many fields are redacted and in which order.
pub leaks-redact_all :
    (g : String) (fs : List String) (m : Fields)
    → contains g fs ≡ true
    → leaks g (redact_all fs m) ≡ false
unfolding redact_all
leaks-redact_all g [] m h = ground (arith, h, contains-empty g)
leaks-redact_all g (f ∷ fs) m h = elim (Bool-cases (str_eq f g)) [
  | inl e ↦
      leaks-redact_all_kept g fs (redact_fields f m)
        (rw (← (eq_iff f g).0 e) (leaks-redact_fields f m))
  | inr e ↦ leaks-redact_all g fs (redact_fields f m) (ground (arith, contains-first g f fs, h, e))
]
