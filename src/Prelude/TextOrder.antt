-- ===== src/Prelude/TextOrder.antt =====
-- Texts: their order by code points is an order for `sort`, and what differs is found to differ.
use Prim.Native.Nat.{ℕ, Ordering, compare as compare_numbers}
use Prim.Native.Char.{Char, code}
use Prim.Native.String.compare
use Prim.Native.String.{String, [] as no_text, ◌∷◌ as ◌then_text◌, then, compare}
use text.Mathlib.Text.{is_lt}
use mathlib.Core.Path.{◌≡◌, refl, ap, ◌∙◌, sym}
use mathlib.Core.Bool.{Bool, true, false, ◌&&◌, ◌||◌}
use native.Mathlib.Omega.{arith}
use text.Mathlib.Text.{◌==◌ as str_eq}
use text.Mathlib.TextEquality.{eq_iff}
use mathlib.Core.Logic.{◌≢◌, inl, inr}
use compshare_agent.Prelude.Tests.{ltb, ◌==◌, Bool-cases}
use compshare_agent.Prelude.Sorting.{str_less, IsOrder}

first :
    (o r : Ordering)
    → is_lt (then o r) ≡ (
        elim o [ Ordering.lt ↦ true | _ ↦ false ]
        || (elim o [ Ordering.eq ↦ true | _ ↦ false ] && is_lt r))
first Ordering.lt r = refl
first Ordering.eq r = refl
first Ordering.gt r = refl

str_less-nil : (s : String) → str_less s no_text ≡ false
str_less-nil no_text = ap is_lt compare.nil-nil
str_less-nil (c then_text s) = ap is_lt (compare.cons-nil c s)

str_less-cons :
    (c d : Char) (s t : String)
    → str_less (c then_text s) (d then_text t)
      ≡ (ltb (code c) (code d) || (code c == code d && str_less s t))
str_less-cons c d s t =
    ap is_lt (compare.cons-cons c d s t) ∙ first (compare_numbers (code c) (code d)) (compare s t)

asym-cons :
    (m n : ℕ) (p q : Bool)
    → (p ≡ true → q ≡ false)
    → (ltb m n || (m == n && p)) ≡ true
    → (ltb n m || (n == m && q)) ≡ false
asym-cons m n p q h e = ground (arith, h, e)

trans-cons :
    (k m n : ℕ) (p q o : Bool)
    → (p ≡ false → q ≡ false → o ≡ false)
    → (ltb m k || (m == k && p)) ≡ false
    → (ltb n m || (n == m && q)) ≡ false
    → (ltb n k || (n == k && o)) ≡ false
trans-cons k m n p q o h e f = ground (arith, h, e, f)

str_less-asym : (s t : String) → str_less s t ≡ true → str_less t s ≡ false
str_less-asym s no_text h = (let bad = sym (str_less-nil s) ∙ h in cc)
str_less-asym no_text (d then_text t) h = str_less-nil (d then_text t)
str_less-asym (c then_text s) (d then_text t) h =
    str_less-cons d c t s
    ∙ asym-cons (code c) (code d) (str_less s t) (str_less t s) (str_less-asym s t)
        (sym (str_less-cons c d s t) ∙ h)

str_less_trans :
    (s t u : String) → str_less t s ≡ false → str_less u t ≡ false → str_less u s ≡ false
str_less_trans no_text t u h k = str_less-nil u
str_less_trans (c then_text s) no_text u h k =
    (let bad = sym (ap is_lt (compare.nil-cons c s)) ∙ h in cc)
str_less_trans (c then_text s) (d then_text t) no_text h k =
    (let bad = sym (ap is_lt (compare.nil-cons d t)) ∙ k in cc)
str_less_trans (c then_text s) (d then_text t) (e then_text u) h k =
    str_less-cons e c u s
    ∙ trans-cons (code c) (code d) (code e) (str_less t s) (str_less u t) (str_less u s)
        (str_less_trans s t u) (sym (str_less-cons d c t s) ∙ h) (sym (str_less-cons e d u t) ∙ k)

pub str_less-IsOrder : IsOrder str_less
str_less-IsOrder = record { asym = str_less-asym; trans = str_less_trans }

pub unequal : {a b : String} → a ≢ b → str_eq a b ≡ false
unequal {a} {b} h = elim (Bool-cases (str_eq a b)) [
  | inl e ↦ absurd (h ((eq_iff a b).0 e))
  | inr e ↦ e
]
