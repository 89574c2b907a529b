-- ===== src/Prelude/Lists.antt =====
-- Lists measured and cut by native numbers, under the library's names, and a predicate that
-- holds of every element.
use Prim.Native.Nat.{ℕ, zero, suc}
use mathlib.Core.Logic.{◌≢◌, ◌⊎◌, inl, inr}
use mathlib.Core.List.{List, [], ◌∷◌, ◌++◌}

module _ {ℓ} {A : Type ℓ} where
  abbrev pub length : List A → ℕ
  length [] = 0
  length (x ∷ xs) = suc (length xs)

  abbrev pub take : ℕ → List A → List A
  take zero xs = []
  take (suc n) [] = []
  take (suc n) (x ∷ xs) = x ∷ take n xs

  abbrev pub drop : ℕ → List A → List A
  drop zero xs = xs
  drop (suc n) [] = []
  drop (suc n) (x ∷ xs) = drop n xs

module _ {ℓ κ} {A : Type ℓ} where
  abbrev pub All : (A → Type κ) → List A → Type κ
  All P [] = Unit
  All P (x ∷ xs) = P x × All P xs

  -- Some element has the property.
  pub data Has (P : A → Type κ) : List A → Type (ℓ ⊔ κ) where
    here : {x : A} {xs : List A} → P x → Has P (x ∷ xs)
    there : {x : A} {xs : List A} → Has P xs → Has P (x ∷ xs)

module _ {ℓ κ} {A : Type ℓ} {P : A → Type κ} where
  pub Has-nil : Has P [] → ⊥
  Has-nil h = elim h [ ]

  pub Has-cons : {x : A} {xs : List A} → Has P (x ∷ xs) → P x ⊎ Has P xs
  Has-cons (here p) = inl p
  Has-cons (there h) = inr h

pub All-map {ℓ κ μ} :
    {A : Type ℓ} (P : A → Type κ) (Q : A → Type μ) (f : (x : A) → P x → Q x) (xs : List A)
    → All P xs
    → All Q xs
All-map P Q f [] ps = tt
All-map P Q f (x ∷ xs) ps = (f x ps.0, All-map P Q f xs ps.1)

pub All-snoc {ℓ κ} :
    {A : Type ℓ} (P : A → Type κ) (xs : List A) (x : A) → All P xs → P x → All P (xs ++ x ∷ [])
All-snoc P [] x ps p = (p, tt)
All-snoc P (y ∷ ys) x ps p = (ps.0, All-snoc P ys x ps.1 p)

pub All-take {ℓ κ} :
    {A : Type ℓ} (P : A → Type κ) (n : ℕ) (xs : List A) → All P xs → All P (take n xs)
All-take P zero xs ps = tt
All-take P (suc n) [] ps = tt
All-take P (suc n) (x ∷ xs) ps = (ps.0, All-take P n xs ps.1)

pub All-drop {ℓ κ} :
    {A : Type ℓ} (P : A → Type κ) (n : ℕ) (xs : List A) → All P xs → All P (drop n xs)
All-drop P zero xs ps = ps
All-drop P (suc n) [] ps = tt
All-drop P (suc n) (x ∷ xs) ps = All-drop P n xs ps.1

-- What each element gives, some element gives.
pub All-Has {ℓ κ μ} :
    {A : Type ℓ} {B : Type κ} (Q : B → A → Type μ) (xs : List A)
    → All (λ x. (b : B) → Q b x → Has (Q b) xs) xs
All-Has Q [] = tt
All-Has Q (x ∷ xs) = (
  λ b q. here q,
  All-map (λ y. (b : _) → Q b y → Has (Q b) xs) (λ y. (b : _) → Q b y → Has (Q b) (x ∷ xs))
      (λ y f b q. there (f b q)) xs (All-Has Q xs),
)

-- Two lists of one length whose elements are related one by one.
pub data Pointwise {ℓ κ μ} {A : Type ℓ} {B : Type κ} (R : A → B → Type μ)
    : List A → List B → Type (ℓ ⊔ κ ⊔ μ) where
  nil : Pointwise R [] []
  cons :
      {x : A} {y : B} {xs : List A} {ys : List B}
      → R x y
      → Pointwise R xs ys
      → Pointwise R (x ∷ xs) (y ∷ ys)

pub All-diagonal {ℓ κ μ} :
    {A : Type ℓ} {B : Type κ} (Q : B → A → Type μ) (f : A → B) (xs : List A)
    → ((b : B) → All (Q b) xs)
    → All (λ x. Q (f x) x) xs
All-diagonal Q f [] h = tt
All-diagonal Q f (x ∷ xs) h = ((h (f x)).0, All-diagonal Q f xs (λ b. (h b).1))

pub append-ne-nil {ℓ} : {A : Type ℓ} (xs : List A) (x : A) → xs ++ x ∷ [] ≢ []
append-ne-nil [] x h = cc
append-ne-nil (y ∷ ys) x h = cc
