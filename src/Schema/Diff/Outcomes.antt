-- ===== src/Schema/Diff/Outcomes.antt =====
-- What a deploy may do about the findings of a diff.
use re_infra.Base.{ℕ, ◌+◌, ◌≡◌, refl, Bool, true, false, ◌&&◌, some, arith, All, All-weaken}
use re_infra.Schema.Options.{OptionName, OptionValue}
use re_infra.Schema.Findings.{
  Finding, Granted, is_conflict, is_adopt, is_actionable, is_blocked, is_unfixable,
}
use re_infra.Schema.Shape.{Expected, Actual}
use re_infra.Schema.Diff.{option_remedy, diff_schemas}
use re_infra.Schema.Diff.Shapes.{diff_schemas-All}

abbrev pub count : Bool → ℕ
count true = 1
count false = 0

-- A conflict has one of the outcomes, anything else may be acted on or left alone.
abbrev pub HasOutcome : Granted → Finding → Type 0
HasOutcome granted f =
    is_conflict f.severity ≡ true
    → count (is_actionable granted f) + count (is_blocked granted f) + count (is_unfixable f) ≡ 1

abbrev IsSettled : Finding → Type 0
IsSettled f = is_conflict f.severity && is_adopt f.remedy ≡ false

option_remedy-ne-adopt :
    (name : OptionName) (d l : OptionValue) → is_adopt (option_remedy name d l) ≡ false
unfolding option_remedy
option_remedy-ne-adopt name d l = ground arith

settled_outcome : (granted : Granted) (f : Finding) → IsSettled f → HasOutcome granted f
settled_outcome granted f s c = ground arith

module _ (expected : Expected) (actual : Actual) where
  diff_schemas-IsSettled : All IsSettled (diff_schemas expected (some actual))
  diff_schemas-IsSettled = diff_schemas-All IsSettled expected actual (record {
    missing_table = refl;
    missing_gsi = λ name. refl;
    undeclared_gsi = λ name. refl;
    rebuilt = λ kind name. refl;
    adopted = λ kind subject. refl;
    recreated = λ kind subject. refl;
    conflicting_option = λ name d l dd ll e. option_remedy-ne-adopt name d l;
    unsupported = λ f. refl;
    refused = λ reasons. refl;
  })

  -- Each conflict of a diff is exactly one of: acted on, blocked for want of a permission, and
  -- unfixable; none goes unnoticed, whatever is permitted.
  pub diff_schemas-HasOutcome :
      (granted : Granted) → All (HasOutcome granted) (diff_schemas expected (some actual))
  diff_schemas-HasOutcome granted =
      All-weaken IsSettled (HasOutcome granted) _ (settled_outcome granted) diff_schemas-IsSettled
