-- ===== src/Schema/Diff/Same.antt =====
-- The diff of a table with the declaration that says exactly what is live.
use re_infra.Base.{
  String, ◌≡◌, refl, ap, Bool, true, false, not, Option, none, some, List, [], ◌∷◌, arith,
  if◌then◌else◌, is_some, keep_if, any_of, All, All-append, All-weaken,
}
use re_infra.Base.Dicts.{Dict, get}
use re_infra.Base.Sorting.{sort_by, All-sort_by}
use re_infra.Schema.Options.{
  OptionName, Setting, unmanaged, managed, Options, same_value_refl, option_names,
}
use re_infra.Schema.Findings.{
  Granted, Finding, is_conflict, is_automatable, is_actionable, is_blocked, is_unfixable,
  actionable, blocked, unfixable, requires_action, is_recreate,
}
use re_infra.Schema.Shape.{
  KeySchema, Gsi, Expected, Actual, same_text, same_keys, same_set, is_subset,
}
use re_infra.Schema.Diff.{
  diff_schemas, table_findings, refusal_findings, shape_findings, key_findings, only_in,
  common_gsis, common_types, name_le, type_le, gsi_against, type_against, diff_gsi,
  sort_key_findings, projection_findings, option_findings, options_findings, diff_options,
  features_found, unsupported_finding,
}
use re_infra.Schema.Diff.Shapes.{All-map}
use package.text.Mathlib.TextPositions.{eq_refl}

-- A dict has one value for a key.
module _ {V : Type 0} where
  abbrev pub IsFound : Dict V → String × V → Type 0
  IsFound d (key, value) = get key d ≡ some value

abbrev pub IsDict : {V : Type 0} → Dict V → Type 0
IsDict d = All (IsFound d) d

-- The declaration that says exactly what is live.
abbrev pub declared_as : Actual → Expected
declared_as actual = record {
  key_schema = actual.key_schema;
  gsis = actual.gsis;
  attribute_types = actual.attribute_types;
  options = actual.options;
}

-- Neither acted upon nor a conflict.
abbrev IsHarmless : Finding → Type 0
IsHarmless f = (is_automatable f.remedy ≡ false) × (is_conflict f.severity ≡ false)

pub same_text_refl : (o : Option String) → same_text o o ≡ true
same_text_refl none = refl
same_text_refl (some s) = eq_refl s

is_subset-cons :
    (x : String) (xs ys : List String) → is_subset xs ys ≡ true → is_subset xs (x ∷ ys) ≡ true
is_subset-cons x [] ys h = refl
is_subset-cons x (y ∷ xs) ys h = ground (arith, h, is_subset-cons x xs ys (ground (arith, h)))

is_subset_refl : (xs : List String) → is_subset xs xs ≡ true
is_subset_refl [] = refl
is_subset_refl (x ∷ xs) = ground (arith, eq_refl x, is_subset-cons x xs xs (is_subset_refl xs))

same_set_refl : (o : Option (List String)) → same_set o o ≡ true
same_set_refl none = refl
same_set_refl (some xs) = rw (is_subset_refl xs, same_set) refl

keep_if_none {ℓ} :
    {A : Type ℓ} (test : A → Bool) (xs : List A)
    → All (λ x. test x ≡ false) xs
    → keep_if test xs ≡ []
keep_if_none test [] h = refl
keep_if_none test (x ∷ xs) h = rw h.0 (keep_if_none test xs h.1)

-- No index is missing from its own dict.
only_in-same : (d : Dict Gsi) → IsDict d → only_in d d ≡ []
unfolding only_in sort_by
only_in-same d h =
    rw
      (keep_if_none _ d (
        All-weaken (IsFound d) (λ (name, _). not (is_some (get name d)) ≡ false) d
          (λ (name, g) found. ap (λ o. not (is_some o)) found) h))
      refl

key_findings-same : (k : KeySchema) → key_findings k k ≡ []
unfolding key_findings
key_findings-same k = rw (same_text_refl k.partition_key, same_text_refl k.sort_key, same_keys) refl

pub sort_key_findings-same : (name : String) (o : Option String) → sort_key_findings name o o ≡ []
unfolding sort_key_findings
sort_key_findings-same name none = refl
sort_key_findings-same name (some s) = rw (eq_refl s, same_text) refl

All-unless-IsHarmless :
    (b : Bool) (f : Finding) → IsHarmless f → All IsHarmless (if b then [] else f ∷ [])
All-unless-IsHarmless true f h = tt
All-unless-IsHarmless false f h = (h, tt)

projection_findings-same :
    (name : String) (g : Gsi) (o : Option String)
    → g.projection ≡ o
    → All IsHarmless (projection_findings name g g o)
unfolding projection_findings is_automatable
projection_findings-same name g none e = rw (e, projection_findings) tt
projection_findings-same name g (some p) e =
    rw (e, eq_refl p, same_set_refl g.non_key_attributes, projection_findings, same_text) tt

diff_gsi-same : (name : String) (g : Gsi) → All IsHarmless (diff_gsi name g g)
unfolding diff_gsi
diff_gsi-same name g =
    rw (same_text_refl g.keys.partition_key, sort_key_findings-same name g.keys.sort_key)
      (projection_findings-same name g g.projection refl)

common_gsis-same :
    (some_of d : Dict Gsi) → All (IsFound d) some_of → All IsHarmless (common_gsis some_of d)
unfolding common_gsis gsi_against
common_gsis-same [] d h = tt
common_gsis-same ((name, g) ∷ rest) d h =
    All-append IsHarmless (gsi_against name g (get name d)) _
      (rw (h.0, gsi_against) (diff_gsi-same name g)) (common_gsis-same rest d h.1)

common_types-same :
    (some_of d : Dict String) → All (IsFound d) some_of → common_types some_of d ≡ []
unfolding common_types type_against
common_types-same [] d h = refl
common_types-same ((name, t) ∷ rest) d h =
    rw (h.0, type_against, eq_refl t) (common_types-same rest d h.1)

undeclared_none : (name : OptionName) (s : Setting) → option_findings name s s ≡ []
unfolding option_findings
undeclared_none name unmanaged = refl
undeclared_none name (managed v) = rw (same_value_refl v) refl

options_findings-same :
    (options : Options) (names : List OptionName) → options_findings options options names ≡ []
unfolding options_findings
options_findings-same options [] = refl
options_findings-same options (name ∷ names) =
    rw (undeclared_none name (options name)) (options_findings-same options names)

module _ (actual : Actual) (gsis : IsDict actual.gsis) (types : IsDict actual.attribute_types) where
  shape_findings-IsHarmless : All IsHarmless (shape_findings (declared_as actual) actual)
  unfolding shape_findings
  shape_findings-IsHarmless =
      rw
        (
          key_findings-same actual.key_schema,
          only_in-same actual.gsis gsis,
          common_types-same (sort_by type_le actual.attribute_types) actual.attribute_types
              (All-sort_by (IsFound actual.attribute_types) type_le actual.attribute_types types),
        )
        (All-append IsHarmless (common_gsis (sort_by name_le actual.gsis) actual.gsis) []
          (common_gsis-same (sort_by name_le actual.gsis) actual.gsis
            (All-sort_by (IsFound actual.gsis) name_le actual.gsis gsis))
          tt)

  table_findings-IsHarmless : All IsHarmless (table_findings (declared_as actual) actual)
  unfolding table_findings diff_options is_automatable
  table_findings-IsHarmless =
      All-append IsHarmless (shape_findings (declared_as actual) actual) _ shape_findings-IsHarmless
        (rw (options_findings-same actual.options option_names) (
          All-map IsHarmless unsupported_finding (features_found actual.options actual)
            (λ f. (refl, refl))))

  harmless_no_recreate :
      (fs : List Finding)
      → All IsHarmless fs
      → any_of (λ (f : Finding). is_recreate f.remedy) fs ≡ false
  unfolding is_automatable
  harmless_no_recreate [] h = refl
  harmless_no_recreate (f ∷ fs) h =
      let rest = harmless_no_recreate fs h.1 in ground (arith, h.0.0, rest)

  harmless_idle :
      (granted : Granted) (fs : List Finding)
      → All IsHarmless fs
      → requires_action granted fs ≡ false
  unfolding requires_action actionable blocked unfixable
  harmless_idle granted fs h =
      rw
        (
          keep_if_none (is_actionable granted) fs (
              All-weaken IsHarmless (λ f. is_actionable granted f ≡ false) fs
                (λ f k. ground (arith, k.0)) h),
          keep_if_none (is_blocked granted) fs (
              All-weaken IsHarmless (λ f. is_blocked granted f ≡ false) fs
                (λ f k. ground (arith, k.1)) h),
          keep_if_none is_unfixable fs (
              All-weaken IsHarmless (λ f. is_unfixable f ≡ false) fs (λ f k. ground (arith, k.1))
                h),
        )
        refl

  -- A table that is exactly as declared, with each index and each attribute type found under its
  -- name, requires no action, whatever is permitted and whatever else it has.
  pub diff_schemas-same :
      (granted : Granted)
      → requires_action granted (diff_schemas (declared_as actual) (some actual)) ≡ false
  unfolding diff_schemas refusal_findings
  diff_schemas-same granted = harmless_idle granted _ (
      All-append IsHarmless (table_findings (declared_as actual) actual) _ table_findings-IsHarmless
        (rw
          (harmless_no_recreate (table_findings (declared_as actual) actual)
            table_findings-IsHarmless)
          tt))
