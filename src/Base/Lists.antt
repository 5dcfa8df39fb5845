-- ===== src/Base/Lists.antt =====
-- Lists measured by native numbers, and the comprehensions of the source.
use Prim.Native.Nat.{ℕ, suc, ◌+◌}
use Prim.Native.String.{String}
use mathlib.Core.Path.{◌≡◌, refl}
use mathlib.Core.Bool.{Bool, true, false, ◌&&◌, ◌||◌}
use mathlib.Core.Logic.{◌⊎◌, inl, inr}
use mathlib.Core.List.{List, [], ◌∷◌, ◌++◌, map}
use native.Mathlib.Omega.{arith}
use text.Mathlib.Text.{◌==◌}
use re_infra.Base.Tests.{if◌then◌else◌, Bool-cases}

module _ {ℓ} {A : Type ℓ} where
  abbrev pub length : List A → ℕ
  length [] = 0
  length (x ∷ xs) = suc (length xs)

  -- `[x for x in xs if test(x)]`
  abbrev pub keep_if : (A → Bool) → List A → List A
  keep_if test [] = []
  keep_if test (x ∷ xs) = let rest = keep_if test xs in if test x then x ∷ rest else rest

  -- `any(test(x) for x in xs)`
  abbrev pub any_of : (A → Bool) → List A → Bool
  any_of test [] = false
  any_of test (x ∷ xs) = test x || any_of test xs

  -- `all(test(x) for x in xs)`
  abbrev pub all_of : (A → Bool) → List A → Bool
  all_of test [] = true
  all_of test (x ∷ xs) = test x && all_of test xs

  -- `not xs`
  abbrev pub is_nil : List A → Bool
  is_nil [] = true
  is_nil (x ∷ xs) = false

  pub length-append : (xs ys : List A) → length (xs ++ ys) ≡ length xs + length ys
  length-append [] ys = omega arith
  length-append (x ∷ xs) ys = omega (arith, length-append xs ys)

-- `name in names`
abbrev pub elem : String → List String → Bool
elem name names = any_of (λ other. other == name) names

module _ {ℓ κ} {A : Type ℓ} (P : A → Type κ) where
  abbrev pub All : List A → Type κ
  All [] = Unit
  All (x ∷ xs) = P x × All xs

module _ {ℓ κ} {A : Type ℓ} (P : A → Type κ) where
  pub All-append : (xs ys : List A) → All P xs → All P ys → All P (xs ++ ys)
  All-append [] ys h k = k
  All-append (x ∷ xs) ys h k = (h.0, All-append xs ys h.1 k)

  -- What the test establishes holds of what is kept.
  pub All-keep_if :
      (test : A → Bool) (xs : List A) → ((x : A) → test x ≡ true → P x) → All P (keep_if test xs)
  All-keep_if test [] h = tt
  All-keep_if test (x ∷ xs) h = elim (Bool-cases (test x)) [
    | inl e ↦ rw e (h x e, All-keep_if test xs h)
    | inr e ↦ rw e (All-keep_if test xs h)
  ]

pub any_of-map {ℓ κ} :
    {A : Type ℓ} {B : Type κ} (test : B → Bool) (f : A → B) (xs : List A)
    → any_of test (map f xs) ≡ any_of (λ x. test (f x)) xs
any_of-map test f [] = refl
any_of-map test f (x ∷ xs) = ground (arith, any_of-map test f xs)

-- Nothing is kept exactly if every element fails the test.
pub keep_if-eq-nil {ℓ} :
    {A : Type ℓ} (test : A → Bool) (xs : List A)
    → keep_if test xs ≡ []
    → All (λ x. test x ≡ false) xs
keep_if-eq-nil test [] h = tt
keep_if-eq-nil test (x ∷ xs) h = elim (Bool-cases (test x)) [
  | inl e ↦ cc (rw e at h)
  | inr e ↦ (e, keep_if-eq-nil test xs (rw e at h))
]

pub append-eq-nil {ℓ} : {A : Type ℓ} (xs ys : List A) → xs ++ ys ≡ [] → (xs ≡ []) × (ys ≡ [])
append-eq-nil [] ys h = (refl, h)
append-eq-nil (x ∷ xs) ys h = cc

pub map-eq-nil {ℓ κ} : {A : Type ℓ} {B : Type κ} (f : A → B) (xs : List A) → map f xs ≡ [] → xs ≡ []
map-eq-nil f [] h = refl
map-eq-nil f (x ∷ xs) h = cc

-- Some element has the property.
module _ {ℓ} {A : Type ℓ} (P : A → Type 0) where
  abbrev pub Exists : List A → Type 0
  Exists [] = ⊥
  Exists (x ∷ xs) = P x ⊎ Exists xs

-- A property may be weakened throughout a list.
pub All-weaken {ℓ κ μ} :
    {A : Type ℓ} (P : A → Type κ) (Q : A → Type μ) (xs : List A)
    → ((x : A) → P x → Q x)
    → All P xs
    → All Q xs
All-weaken P Q [] f h = tt
All-weaken P Q (x ∷ xs) f h = (f x h.0, All-weaken P Q xs f h.1)

pub All-always {ℓ κ} : {A : Type ℓ} {P : A → Type κ} (xs : List A) → ((x : A) → P x) → All P xs
All-always [] f = tt
All-always (x ∷ xs) f = (f x, All-always xs f)

module _ {ℓ} {A : Type ℓ} (P : A → Type 0) where
  pub Exists-left : (xs ys : List A) → Exists P xs → Exists P (xs ++ ys)
  Exists-left [] ys h = absurd h
  Exists-left (x ∷ xs) ys (inl h) = inl h
  Exists-left (x ∷ xs) ys (inr h) = inr (Exists-left xs ys h)

  pub Exists-right : (xs ys : List A) → Exists P ys → Exists P (xs ++ ys)
  Exists-right [] ys h = h
  Exists-right (x ∷ xs) ys h = inr (Exists-right xs ys h)
