-- ===== src/Schema/Diff.antt =====
-- python_packages/rc_dynamo/src/rc_dynamo/schema/diff.py: how a declared schema differs from the
-- live one. Every function returns the findings that the source appends.
pub mod Shapes
pub mod Tests
pub mod Outcomes
pub mod Same
pub mod Rebuild
pub mod Recreates
pub mod Warrants
use re_infra.Base.{
  String, Bool, true, false, ◌&&◌, ◌||◌, not, Option, none, some, List, [], ◌∷◌, ◌++◌, map, ◌==◌,
  text_leb, if◌then◌else◌, is_some, is_nil, keep_if, any_of, all_of, elem,
}
use re_infra.Base.Dicts.{Dict, get}
use re_infra.Base.Sorting.{sort_by}
use re_infra.Schema.Shape.{
  projection_all, projection_include, KeySchema, Gsi, Expected, Features, Actual, same_text,
  same_keys, is_subset, same_set, distinct, attributes_or_none, Resolved, resolved_with,
  resolved_or_all, resolved_from, resolve_projection,
}
use re_infra.Schema.Options.{
  OptionName, billing_mode, table_class, deletion_protection, point_in_time_recovery, ttl_attribute,
  stream_view_type, option_names, OptionValue, off, flag, text, same_value, Setting, unmanaged,
  managed, Options, billing_provisioned, table_class_infrequent_access, is_managed,
}
use re_infra.Schema.Findings.{
  Severity, conflict, missing, undeclared, unsupported, FindingKind, missing_table, missing_gsi,
  undeclared_gsi, undeclared_sort_key, undeclared_projection, undeclared_table_option,
  conflicting_table_key, conflicting_gsi_key, conflicting_projection, conflicting_attribute_type,
  conflicting_table_option, unsupported_live_feature, recreate_refused, Remedy, create_table,
  create_gsi, rebuild_gsi, delete_gsi, recreate_table, update_options, disable_protection,
  adopt_declaration, nothing, Feature, local_secondary_index, undeclared_option, sse, replicas,
  on_demand_throughput, Blocker, declared_provisioned, feature, protected, Subject, table, index,
  attribute, option, live_feature, refused_because, Finding, is_recreate, SchemaDiff,
}

abbrev pub finding : FindingKind → Severity → Remedy → Subject → Finding
finding kind severity remedy subject = record {
  kind = kind;
  severity = severity;
  remedy = remedy;
  subject = subject;
}

abbrev rebuild : FindingKind → String → List Finding
rebuild kind name = finding kind conflict rebuild_gsi (index name) ∷ []

abbrev adopt : FindingKind → Subject → List Finding
adopt kind subject = finding kind undeclared adopt_declaration subject ∷ []

pub sort_key_findings : String → Option String → Option String → List Finding
sort_key_findings name none none = []
sort_key_findings name none (some live) = adopt undeclared_sort_key (index name)
sort_key_findings name (some declared) live =
    if same_text (some declared) live then [] else rebuild conflicting_gsi_key name

projection_findings : String → Gsi → Gsi → Option String → List Finding
projection_findings name declared live none = elim live.projection [
  | none ↦ []
  | some p ↦ if p == projection_all then [] else adopt undeclared_projection (index name)
]
projection_findings name declared live (some p) =
    if same_text (some p) live.projection
      && same_set declared.non_key_attributes live.non_key_attributes
    then []
    else rebuild conflicting_projection name

pub diff_gsi : String → Gsi → Gsi → List Finding
unfolding sort_key_findings projection_findings
diff_gsi name declared live =
    (if same_text declared.keys.partition_key live.keys.partition_key
      then sort_key_findings name declared.keys.sort_key live.keys.sort_key
      else rebuild conflicting_gsi_key name)
    ++ projection_findings name declared live declared.projection

-- `_CREATE_DEFAULTS`
create_default : OptionName → Option OptionValue
create_default deletion_protection = some (flag false)
create_default point_in_time_recovery = some (flag false)
create_default ttl_attribute = some off
create_default _ = none

pub option_remedy : OptionName → OptionValue → OptionValue → Remedy
option_remedy deletion_protection (flag false) (flag true) = disable_protection
option_remedy point_in_time_recovery (flag false) (flag true) = disable_protection
option_remedy billing_mode (text declared) live =
    if declared == billing_provisioned then nothing else update_options
option_remedy name declared live = update_options

undeclared_findings : OptionName → OptionValue → List Finding
unfolding create_default
undeclared_findings name live = elim (create_default name) [
  | none ↦ []
  | some default ↦
      if same_value live default then [] else adopt undeclared_table_option (option name)
]

option_findings : OptionName → Setting → Setting → List Finding
unfolding undeclared_findings option_remedy
option_findings name declared unmanaged = []
option_findings name unmanaged (managed live) = undeclared_findings name live
option_findings name (managed declared) (managed live) =
    if same_value declared live
    then []
    else finding conflicting_table_option conflict (option_remedy name declared live) (option name)
      ∷ []

options_findings : Options → Options → List OptionName → List Finding
unfolding option_findings
options_findings declared live [] = []
options_findings declared live (name ∷ names) =
    option_findings name (declared name) (live name) ++ options_findings declared live names

pub diff_options : Options → Options → List Finding
unfolding options_findings
diff_options declared live = options_findings declared live option_names

-- The live value of an option, if a new table would have another one.
left_behind : OptionName → Setting → Bool
left_behind stream_view_type (managed v) = not (same_value v off)
left_behind table_class (managed v) = same_value v (text table_class_infrequent_access)
left_behind billing_mode (managed v) = same_value v (text billing_provisioned)
left_behind _ _ = false

undeclared_feature : Options → Options → OptionName → List Feature
unfolding left_behind
undeclared_feature declared live name =
    if left_behind name (live name) && not (is_managed declared name)
    then undeclared_option name ∷ []
    else []

abbrev pub name_le : String × Gsi → String × Gsi → Bool
name_le (a, _) (b, _) = text_leb a b

lsi_features : Dict Gsi → List Feature
lsi_features = map (λ (name, _). local_secondary_index name)

pub features_found : Options → Actual → List Feature
unfolding lsi_features undeclared_feature sort_by
features_found declared actual =
    lsi_features (sort_by name_le actual.features.local_secondary_indexes)
    ++ (undeclared_feature declared actual.options stream_view_type
        ++ (undeclared_feature declared actual.options table_class
            ++ (undeclared_feature declared actual.options billing_mode
                ++ ((if actual.features.has_sse then sse ∷ [] else [])
                    ++ ((if is_nil actual.features.replicated then [] else replicas ∷ [])
                        ++ (if actual.features.has_on_demand_throughput
                            then on_demand_throughput ∷ []
                            else []))))))

abbrev pub unsupported_finding : Feature → Finding
unsupported_finding f = finding unsupported_live_feature unsupported nothing (live_feature f)

abbrev is_setting : OptionValue → Setting → Bool
is_setting value unmanaged = false
is_setting value (managed v) = same_value v value

pub recreate_blockers : List Feature → Options → Options → List Blocker
recreate_blockers found declared live =
    (if is_setting (text billing_provisioned) (declared billing_mode)
      then declared_provisioned ∷ []
      else [])
    ++ (map feature found
        ++ (if is_setting (flag true) (live deletion_protection) then protected ∷ [] else []))

pub recreate_refusal : List Blocker → List Finding
recreate_refusal [] = []
recreate_refusal (reason ∷ reasons) =
    finding recreate_refused conflict nothing (refused_because (reason ∷ reasons)) ∷ []

-- The indexes of the first dict that the second lacks, sorted by name.
only_in : Dict Gsi → Dict Gsi → Dict Gsi
unfolding sort_by
only_in a b = sort_by name_le (keep_if (λ (name, _). not (is_some (get name b))) a)

abbrev missing_finding : String × Gsi → Finding
missing_finding (name, _) = finding missing_gsi missing create_gsi (index name)

abbrev undeclared_finding : String × Gsi → Finding
undeclared_finding (name, _) = finding undeclared_gsi undeclared delete_gsi (index name)

gsi_against : String → Gsi → Option Gsi → List Finding
unfolding diff_gsi
gsi_against name declared none = []
gsi_against name declared (some live) = diff_gsi name declared live

-- The indexes of both.
common_gsis : Dict Gsi → Dict Gsi → List Finding
unfolding gsi_against
common_gsis [] live = []
common_gsis ((name, declared) ∷ rest) live =
    gsi_against name declared (get name live) ++ common_gsis rest live

type_against : String → String → Option String → List Finding
type_against name declared none = []
type_against name declared (some live) =
    if declared == live
    then []
    else finding conflicting_attribute_type conflict recreate_table (attribute name) ∷ []

abbrev pub type_le : String × String → String × String → Bool
type_le (a, _) (b, _) = text_leb a b

common_types : Dict String → Dict String → List Finding
unfolding type_against
common_types [] live = []
common_types ((name, declared) ∷ rest) live =
    type_against name declared (get name live) ++ common_types rest live

key_findings : KeySchema → KeySchema → List Finding
key_findings declared live =
    if same_keys declared live
    then []
    else finding conflicting_table_key conflict recreate_table table ∷ []

-- What is found before a recreate is considered, in the parts that the code appends.
pub shape_findings : Expected → Actual → List Finding
unfolding key_findings only_in common_gsis common_types sort_by
shape_findings expected actual =
    key_findings expected.key_schema actual.key_schema
    ++ (map missing_finding (only_in expected.gsis actual.gsis)
        ++ (map undeclared_finding (only_in actual.gsis expected.gsis)
            ++ (common_gsis (sort_by name_le expected.gsis) actual.gsis
                ++ common_types (sort_by type_le expected.attribute_types) actual.attribute_types)))

pub table_findings : Expected → Actual → List Finding
unfolding shape_findings diff_options features_found
table_findings expected actual =
    shape_findings expected actual
    ++ (diff_options expected.options actual.options
        ++ map unsupported_finding (features_found expected.options actual))

pub refusal_findings : Expected → Actual → List Finding
unfolding recreate_refusal recreate_blockers table_findings features_found
refusal_findings expected actual =
    if any_of (λ (f : Finding). is_recreate f.remedy) (table_findings expected actual)
    then recreate_refusal
        (recreate_blockers (features_found expected.options actual) expected.options actual.options)
    else []

unfoldable pub diff_schemas : Expected → Option Actual → SchemaDiff
unfolding table_findings refusal_findings
diff_schemas expected none = finding missing_table missing create_table table ∷ []
diff_schemas expected (some actual) =
    table_findings expected actual ++ refusal_findings expected actual
