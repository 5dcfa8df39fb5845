-- ===== src/Schema/Diff/Recreates.antt =====
-- When a table may be recreated.
use re_infra.Base.{
  ◌≡◌, refl, inl, inr, Bool, true, false, ◌&&◌, ◌||◌, not, some, List, [], ◌∷◌, ◌++◌, map, arith,
  is_nil, keep_if, any_of, Bool-cases,
}
use re_infra.Base.Sorting.{insert_by, sort_by}
use re_infra.Schema.Options.{Setting, deletion_protection, flag, managed, Options}
use re_infra.Schema.Findings.{
  Blocker, Finding, is_recreate, is_unfixable, unfixable, is_automatable,
}
use re_infra.Schema.Shape.{Expected, Actual}
use re_infra.Schema.Diff.{
  features_found, table_findings, recreate_blockers, recreate_refusal, refusal_findings,
  diff_schemas, lsi_features, is_setting,
}

-- What a new table could not have, or what forbids to delete the old one.
abbrev pub is_irreplaceable : Actual → Bool
is_irreplaceable actual =
    not (is_nil actual.features.local_secondary_indexes)
    || actual.features.has_sse
    || not (is_nil actual.features.replicated)
    || actual.features.has_on_demand_throughput

any_of-append :
    (test : Finding → Bool) (xs ys : List Finding)
    → any_of test (xs ++ ys) ≡ (any_of test xs || any_of test ys)
any_of-append test [] ys = refl
any_of-append test (x ∷ xs) ys = ground (arith, any_of-append test xs ys)

is_nil-append {ℓ} : {A : Type ℓ} (xs ys : List A) → is_nil (xs ++ ys) ≡ (is_nil xs && is_nil ys)
is_nil-append [] ys = refl
is_nil-append (x ∷ xs) ys = refl

is_nil-map {ℓ κ} :
    {A : Type ℓ} {B : Type κ} (f : A → B) (xs : List A) → is_nil (map f xs) ≡ is_nil xs
is_nil-map f [] = refl
is_nil-map f (x ∷ xs) = refl

is_nil-keep_if :
    (test : Finding → Bool) (xs : List Finding) → is_nil (keep_if test xs) ≡ not (any_of test xs)
is_nil-keep_if test [] = refl
is_nil-keep_if test (x ∷ xs) = ground (arith, is_nil-keep_if test xs)

is_nil-sort_by {ℓ} :
    {A : Type ℓ} (le : A → A → Bool) (xs : List A) → is_nil (sort_by le xs) ≡ is_nil xs
unfolding sort_by
is_nil-sort_by le [] = refl
is_nil-sort_by le (x ∷ xs) = inserted le x (sort_by le xs)
  where
    inserted :
        {A : Type ℓ} (le : A → A → Bool) (x : A) (xs : List A) → is_nil (insert_by le x xs) ≡ false
    inserted le x [] = refl
    inserted le x (y ∷ ys) = ground arith

features_found_irreplaceable :
    (declared : Options) (actual : Actual)
    → is_irreplaceable actual ≡ true
    → is_nil (features_found declared actual) ≡ false
unfolding features_found lsi_features
features_found_irreplaceable declared actual h =
    simp (is_nil-append, is_nil-map, is_nil-sort_by) (ground arith)

-- Deletion protection is enabled.
abbrev pub is_on : Setting → Bool
is_on (managed (flag b)) = b
is_on _ = false

protection_blocks : (s : Setting) → is_on s ≡ true → is_setting (flag true) s ≡ true
protection_blocks (managed (flag true)) h = refl
protection_blocks _ h = ground arith

blockers_found :
    (declared : Options) (actual : Actual)
    → (is_irreplaceable actual || is_on (actual.options deletion_protection)) ≡ true
    → is_nil (recreate_blockers (features_found declared actual) declared actual.options) ≡ false
unfolding recreate_blockers
blockers_found declared actual h = elim (Bool-cases (is_irreplaceable actual)) [
  | inl e ↦
      simp (is_nil-append, is_nil-map, features_found_irreplaceable declared actual e)
        (ground arith)
  | inr e ↦
      simp (is_nil-append, is_nil-map)
        (ground (
          arith,
          e,
          h,
          protection_blocks (actual.options deletion_protection) (ground (arith, e, h)),
        ))
]

no_recreate :
    (reasons : List Blocker)
    → any_of (λ (f : Finding). is_recreate f.remedy) (recreate_refusal reasons) ≡ false
unfolding recreate_refusal
no_recreate [] = refl
no_recreate (reason ∷ reasons) = refl

refusal-unfixable :
    (reasons : List Blocker)
    → is_nil reasons ≡ false
    → any_of is_unfixable (recreate_refusal reasons) ≡ true
unfolding recreate_refusal is_automatable
refusal-unfixable [] h = cc
refusal-unfixable (reason ∷ reasons) h = refl

module _ (expected : Expected) (actual : Actual) where
  abbrev wants_recreate : List Finding → Bool
  wants_recreate = any_of (λ (f : Finding). is_recreate f.remedy)

  refusal-no_recreate : wants_recreate (refusal_findings expected actual) ≡ false
  unfolding refusal_findings
  refusal-no_recreate = elim (Bool-cases (wants_recreate (table_findings expected actual))) [
    | inl e ↦ rw e (no_recreate _)
    | inr e ↦ rw e refl
  ]

  wanted_in_table :
      wants_recreate (diff_schemas expected (some actual)) ≡ true
      → wants_recreate (table_findings expected actual) ≡ true
  unfolding diff_schemas
  wanted_in_table h = ground (
    arith,
    h,
    any_of-append (λ (f : Finding). is_recreate f.remedy) (table_findings expected actual)
        (refusal_findings expected actual),
    refusal-no_recreate,
  )

  refusal_given :
      wants_recreate (table_findings expected actual) ≡ true
      → (is_irreplaceable actual || is_on (actual.options deletion_protection)) ≡ true
      → any_of is_unfixable (refusal_findings expected actual) ≡ true
  unfolding refusal_findings
  refusal_given w h = rw w (refusal-unfixable _ (blockers_found expected.options actual h))

  -- If a diff wants a table recreated that has a local secondary index, KMS encryption, replicas,
  -- throughput limits or deletion protection, then it has an unfixable conflict.
  pub diff_schemas-recreate_refused :
      any_of (λ (f : Finding). is_recreate f.remedy) (diff_schemas expected (some actual)) ≡ true
      → (is_irreplaceable actual || is_on (actual.options deletion_protection)) ≡ true
      → is_nil (unfixable (diff_schemas expected (some actual))) ≡ false
  unfolding unfixable diff_schemas
  diff_schemas-recreate_refused wanted h = ground (
    arith,
    is_nil-keep_if is_unfixable
        (table_findings expected actual ++ refusal_findings expected actual),
    any_of-append is_unfixable (table_findings expected actual) (refusal_findings expected actual),
    refusal_given (wanted_in_table wanted) h,
  )
