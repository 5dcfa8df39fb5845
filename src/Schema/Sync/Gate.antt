-- ===== src/Schema/Sync/Gate.antt =====
-- When a table is changed.
use re_infra.Base.{
  if◌then◌else◌, Exists, subst, sym, keep_if, All-weaken, ◌≡◌, refl, inl, inr, Bool, true, false,
  ◌||◌, some, List, [], ◌∷◌, ◌+◌, arith, is_nil, any_of, All, Bool-cases, keep_if-eq-nil,
}
use re_infra.Schema.Options.{deletion_protection}
use re_infra.Schema.Findings.{
  Finding, Granted, SchemaDiff, is_conflict, is_recreate, is_actionable, is_blocked, is_unfixable,
  actionable, blocked, unfixable,
}
use re_infra.Schema.Shape.{Expected, Actual}
use re_infra.Schema.Diff.{diff_schemas}
use re_infra.Schema.Diff.Outcomes.{count, HasOutcome, diff_schemas-HasOutcome}
use re_infra.Schema.Diff.Recreates.{is_irreplaceable, is_on, diff_schemas-recreate_refused}
use re_infra.Schema.Sync.{apply, decide}

is_nil-eq : {A : Type 0} (xs : List A) → is_nil xs ≡ true → xs ≡ []
is_nil-eq [] h = refl
is_nil-eq (x ∷ xs) h = cc

pub decide-apply_lem :
    (applying : Bool) (granted : Granted) (diff : SchemaDiff) (fs : List Finding)
    → decide applying granted diff ≡ apply fs
    → (applying ≡ true)
      × (is_nil (unfixable diff) ≡ true)
      × (is_nil (blocked granted diff) ≡ true)
      × (fs ≡ actionable granted diff)
unfolding decide
decide-apply_lem applying granted diff fs h = ground arith

conflicts_acted :
    (granted : Granted) (diff : List Finding)
    → All (HasOutcome granted) diff
    → All (λ f. is_unfixable f ≡ false) diff
    → All (λ f. is_blocked granted f ≡ false) diff
    → All (λ (f : Finding). is_conflict f.severity ≡ true → is_actionable granted f ≡ true) diff
conflicts_acted granted [] h u b = tt
conflicts_acted granted (f ∷ diff) h u b =
    ((λ c. acted f (h.0 c) u.0 b.0), conflicts_acted granted diff h.1 u.1 b.1)
  where
    acted :
        (f : Finding)
        → count (is_actionable granted f) + count (is_blocked granted f) + count (is_unfixable f)
          ≡ 1
        → is_unfixable f ≡ false
        → is_blocked granted f ≡ false
        → is_actionable granted f ≡ true
    acted f one u b = ground (arith, one, u, b)

-- What passes the test is among what is kept.
passed_kept :
    (test : Finding → Bool) (diff : List Finding)
    → All (λ (f : Finding). is_conflict f.severity ≡ true → test f ≡ true) diff
    → All
        (λ (f : Finding). is_conflict f.severity ≡ true → Exists (λ g. f ≡ g) (keep_if test diff))
        diff
passed_kept test [] h = tt
passed_kept test (g ∷ diff) h = by_test (test g) refl (passed_kept test diff h.1)
  where
    among : Finding → List Finding → Type 0
    among f fs = is_conflict f.severity ≡ true → Exists (λ g. f ≡ g) fs

    by_test :
        (b : Bool)
        → test g ≡ b
        → All (λ f. among f (keep_if test diff)) diff
        → All (λ f. among f (if b then g ∷ keep_if test diff else keep_if test diff)) (g ∷ diff)
    by_test true e rest = (
      (λ c. inl refl),
      All-weaken (λ f. among f (keep_if test diff)) (λ f. among f (g ∷ keep_if test diff)) diff
          (λ f kept c. inr (kept c)) rest,
    )
    by_test false e rest = ((λ c. cc (h.0 c, e)), rest)

module _ (expected : Expected) (actual : Actual) (granted : Granted) where
  -- What is changed when a table is changed is exactly what is actionable, which holds every conflict
  -- of the diff. It is only changed if that is asked for, and its diff then wants a recreate only if
  -- the table has no local secondary index, KMS encryption, replicas, throughput limits or deletion
  -- protection.
  pub decide-apply :
      (applying : Bool) (fs : List Finding)
      → decide applying granted (diff_schemas expected (some actual)) ≡ apply fs
      → (applying ≡ true)
        × (fs ≡ keep_if (is_actionable granted) (diff_schemas expected (some actual)))
        × All
            (λ (f : Finding). is_conflict f.severity ≡ true → Exists (λ g. f ≡ g) fs)
            (diff_schemas expected (some actual))
        × (any_of (λ (f : Finding). is_recreate f.remedy) (diff_schemas expected (some actual))
              ≡ true
            → (is_irreplaceable actual || is_on (actual.options deletion_protection)) ≡ false)
  unfolding unfixable blocked actionable
  decide-apply applying fs h =
      let diff = diff_schemas expected (some actual) in
      let (asked, fixable, permitted, same) = decide-apply_lem applying granted diff fs h in
      let kept = passed_kept (is_actionable granted) diff (
        conflicts_acted granted diff (diff_schemas-HasOutcome expected actual granted)
          (keep_if-eq-nil is_unfixable _ (is_nil-eq _ fixable))
          (keep_if-eq-nil (is_blocked granted) _ (is_nil-eq _ permitted))) in
      (
        asked,
        same,
        subst
            (λ (acted : List Finding).
              All (λ (f : Finding). is_conflict f.severity ≡ true → Exists (λ g. f ≡ g) acted) diff)
            (sym same) kept,
        λ wanted.
            elim (Bool-cases
              (is_irreplaceable actual || is_on (actual.options deletion_protection))) [
                | inl lost ↦ cc (fixable, diff_schemas-recreate_refused expected actual wanted lost)
                | inr safe ↦ safe
              ],
      )
