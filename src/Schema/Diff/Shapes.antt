-- ===== src/Schema/Diff/Shapes.antt =====
-- The shapes of the findings of a diff, and how a property of the shapes passes to all findings.
use re_infra.Base.{
  String, ◌≡◌, refl, inl, inr, Bool, true, false, Option, none, some, List, [], ◌∷◌, map,
  if◌then◌else◌, any_of, Bool-cases, Option-cases, All, All-append,
}
use re_infra.Base.Dicts.{Dict, get}
use re_infra.Base.Sorting.{sort_by}
use re_infra.Schema.Options.{
  OptionName, OptionValue, same_value, Setting, unmanaged, managed, Options, option_names,
}
use re_infra.Schema.Findings.{
  is_recreate, Severity, FindingKind, Remedy, Feature, Blocker, Subject, Finding,
}
use re_infra.Schema.Shape.{KeySchema, Gsi, Expected, Actual, same_keys, same_text}
use re_infra.Schema.Diff.{
  name_le, type_le, finding, sort_key_findings, projection_findings, diff_gsi, option_remedy,
  undeclared_findings, create_default, option_findings, options_findings, diff_options,
  unsupported_finding, missing_finding, undeclared_finding, recreate_refusal, recreate_blockers,
  only_in, gsi_against, common_gsis, type_against, common_types, key_findings, shape_findings,
  features_found, table_findings, refusal_findings, diff_schemas,
}

-- The shapes, with what is known of an option that is in conflict.
pub record Shapes (P : Finding → Type 0) (declared live : Options) : Type 0 where
  pub missing_table :
      P (finding FindingKind.missing_table Severity.missing Remedy.create_table Subject.table)
  pub missing_gsi :
      (name : String)
      → P (finding FindingKind.missing_gsi Severity.missing Remedy.create_gsi (Subject.index name))
  pub undeclared_gsi :
      (name : String)
      → P (
          finding FindingKind.undeclared_gsi Severity.undeclared Remedy.delete_gsi
            (Subject.index name))
  pub rebuilt :
      (kind : FindingKind) (name : String)
      → P (finding kind Severity.conflict Remedy.rebuild_gsi (Subject.index name))
  pub adopted :
      (kind : FindingKind) (subject : Subject)
      → P (finding kind Severity.undeclared Remedy.adopt_declaration subject)
  pub recreated :
      (kind : FindingKind) (subject : Subject)
      → P (finding kind Severity.conflict Remedy.recreate_table subject)
  pub conflicting_option :
      (name : OptionName) (d l : OptionValue)
      → declared name ≡ managed d
      → live name ≡ managed l
      → same_value d l ≡ false
      → P (
          finding FindingKind.conflicting_table_option Severity.conflict
            (option_remedy name d l)
            (Subject.option name))
  pub unsupported : (f : Feature) → P (unsupported_finding f)
  pub refused :
      (reasons : List Blocker)
      → P (
          finding FindingKind.recreate_refused Severity.conflict Remedy.nothing
            (Subject.refused_because reasons))

pub All-map {ℓ} :
    {A : Type ℓ} (P : Finding → Type 0) (f : A → Finding) (xs : List A)
    → ((x : A) → P (f x))
    → All P (map f xs)
All-map P f [] h = tt
All-map P f (x ∷ xs) h = (h x, All-map P f xs h)

All-unless :
    (P : Finding → Type 0) (b : Bool) (f : Finding)
    → (b ≡ false → P f)
    → All P (if b then [] else f ∷ [])
All-unless P true f h = tt
All-unless P false f h = (h refl, tt)

All-if :
    (P : Finding → Type 0) (b : Bool) (xs : List Finding) → All P xs → All P (if b then xs else [])
All-if P true xs h = h
All-if P false xs h = tt

module _ (P : Finding → Type 0) (declared live : Options) (shapes : Shapes P declared live) where
  sort_key_findings-All : (name : String) (d l : Option String) → All P (sort_key_findings name d l)
  unfolding sort_key_findings
  sort_key_findings-All name none none = tt
  sort_key_findings-All name none (some l) = (shapes.adopted _ _, tt)
  sort_key_findings-All name (some d) l = All-unless P _ _ (λ e. shapes.rebuilt _ _)

  projection_findings-All :
      (name : String) (d l : Gsi) (p : Option String) → All P (projection_findings name d l p)
  unfolding projection_findings
  projection_findings-All name d l none = elim (Option-cases l.projection) [
    | inl e ↦ rw e tt
    | inr (p, e) ↦ rw e (All-unless P _ _ (λ e. shapes.adopted _ _))
  ]
  projection_findings-All name d l (some p) = All-unless P _ _ (λ e. shapes.rebuilt _ _)

  diff_gsi-All : (name : String) (d l : Gsi) → All P (diff_gsi name d l)
  unfolding diff_gsi
  diff_gsi-All name d l =
      All-append P _ _
        (elim (Bool-cases (same_text d.keys.partition_key l.keys.partition_key)) [
          | inl e ↦ rw e (sort_key_findings-All name d.keys.sort_key l.keys.sort_key)
          | inr e ↦ rw e (shapes.rebuilt _ _, tt)
        ])
        (projection_findings-All name d l d.projection)

  gsi_against-All : (name : String) (d : Gsi) (l : Option Gsi) → All P (gsi_against name d l)
  unfolding gsi_against
  gsi_against-All name d none = tt
  gsi_against-All name d (some l) = diff_gsi-All name d l

  common_gsis-All : (d l : Dict Gsi) → All P (common_gsis d l)
  unfolding common_gsis
  common_gsis-All [] l = tt
  common_gsis-All ((name, g) ∷ d) l =
      All-append P _ _ (gsi_against-All name g (get name l)) (common_gsis-All d l)

  type_against-All : (name d : String) (l : Option String) → All P (type_against name d l)
  unfolding type_against
  type_against-All name d none = tt
  type_against-All name d (some l) = All-unless P _ _ (λ e. shapes.recreated _ _)

  common_types-All : (d l : Dict String) → All P (common_types d l)
  unfolding common_types
  common_types-All [] l = tt
  common_types-All ((name, t) ∷ d) l =
      All-append P _ _ (type_against-All name t (get name l)) (common_types-All d l)

  key_findings-All : (d l : KeySchema) → All P (key_findings d l)
  unfolding key_findings
  key_findings-All d l = All-unless P (same_keys d l) _ (λ e. shapes.recreated _ _)

  shape_findings-All :
      (expected : Expected) (actual : Actual) → All P (shape_findings expected actual)
  unfolding shape_findings
  shape_findings-All expected actual =
      All-append P _ _ (key_findings-All expected.key_schema actual.key_schema) (
        All-append P _ _
          (All-map P missing_finding (only_in expected.gsis actual.gsis)
            (λ (name, g). shapes.missing_gsi name))
          (All-append P _ _
            (All-map P undeclared_finding (only_in actual.gsis expected.gsis)
              (λ (name, g). shapes.undeclared_gsi name))
            (All-append P _ _ (common_gsis-All (sort_by name_le expected.gsis) actual.gsis) (
              common_types-All (sort_by type_le expected.attribute_types) actual.attribute_types))))

  undeclared_findings-All :
      (name : OptionName) (l : OptionValue) → All P (undeclared_findings name l)
  unfolding undeclared_findings
  undeclared_findings-All name l = elim (Option-cases (create_default name)) [
    | inl e ↦ rw (e, undeclared_findings) tt
    | inr (default, e) ↦ rw (e, undeclared_findings) (All-unless P _ _ (λ e. shapes.adopted _ _))
  ]

  option_findings-All :
      (name : OptionName) (d l : Setting)
      → declared name ≡ d
      → live name ≡ l
      → All P (option_findings name d l)
  unfolding option_findings
  option_findings-All name d unmanaged dd ll = tt
  option_findings-All name unmanaged (managed l) dd ll = undeclared_findings-All name l
  option_findings-All name (managed d) (managed l) dd ll =
      All-unless P _ _ (λ e. shapes.conflicting_option name d l dd ll e)

  options_findings-All : (names : List OptionName) → All P (options_findings declared live names)
  unfolding options_findings
  options_findings-All [] = tt
  options_findings-All (name ∷ names) =
      All-append P _ _ (option_findings-All name _ _ refl refl) (options_findings-All names)

  refusal-All : (reasons : List Blocker) → All P (recreate_refusal reasons)
  unfolding recreate_refusal
  refusal-All [] = tt
  refusal-All (reason ∷ reasons) = (shapes.refused _, tt)

-- What holds of the shapes holds of all findings.
module _ (P : Finding → Type 0) (expected : Expected) where
  pub table_findings-All :
      (actual : Actual)
      → Shapes P expected.options actual.options
      → All P (table_findings expected actual)
  unfolding table_findings diff_options
  table_findings-All actual shapes =
      All-append P _ _ (shape_findings-All P _ _ shapes expected actual) (
        All-append P _ _ (options_findings-All P _ _ shapes option_names)
          (All-map P unsupported_finding _ shapes.unsupported))

  refusal_findings-All :
      (actual : Actual)
      → Shapes P expected.options actual.options
      → All P (refusal_findings expected actual)
  unfolding refusal_findings
  refusal_findings-All actual shapes =
      let reasons =
        recreate_blockers (features_found expected.options actual) expected.options
          actual.options in
      All-if P (any_of (λ (f : Finding). is_recreate f.remedy) (table_findings expected actual))
        (recreate_refusal reasons) (refusal-All P expected.options actual.options shapes reasons)

  pub diff_schemas-All :
      (actual : Actual)
      → Shapes P expected.options actual.options
      → All P (diff_schemas expected (some actual))
  unfolding diff_schemas
  diff_schemas-All actual shapes =
      All-append P _ _ (table_findings-All actual shapes) (refusal_findings-All actual shapes)
