-- ===== src/Schema/Findings.antt =====
-- The findings of python_packages/rc_dynamo/src/rc_dynamo/schema/diff.py, and what a deploy may do
-- about them. Messages are left out.
use re_infra.Base.{
  String, Bool, true, false, ◌&&◌, ◌||◌, not, Option, none, some, List, keep_if, is_nil,
}
use re_infra.Schema.Options.{OptionName}

pub data Severity : Type 0 where
  conflict missing undeclared unsupported info : Severity

pub data FindingKind : Type 0 where
  missing_table missing_gsi undeclared_gsi undeclared_sort_key undeclared_projection : FindingKind
  undeclared_attribute undeclared_table_option conflicting_table_key conflicting_gsi_key :
      FindingKind
  conflicting_projection conflicting_attribute_type conflicting_table_option : FindingKind
  unsupported_live_feature recreate_refused unmanaged_billing_mode : FindingKind

pub data Remedy : Type 0 where
  create_table create_gsi rebuild_gsi delete_gsi recreate_table update_options : Remedy
  disable_protection adopt_declaration nothing : Remedy

pub data Permission : Type 0 where
  prune_undeclared allow_table_recreate allow_protection_downgrade : Permission

-- REQUIRED_PERMISSION
unfoldable pub required_permission : Remedy → Option Permission
required_permission delete_gsi = some prune_undeclared
required_permission recreate_table = some allow_table_recreate
required_permission disable_protection = some allow_protection_downgrade
required_permission _ = none

-- AUTOMATABLE_REMEDIES
unfoldable pub is_automatable : Remedy → Bool
is_automatable adopt_declaration = false
is_automatable nothing = false
is_automatable _ = true

-- NEW_TABLE_REMEDIES
unfoldable pub needs_new_table : Remedy → Bool
needs_new_table create_table = true
needs_new_table recreate_table = true
needs_new_table _ = false

-- A live feature that no declaration can express, or an undeclared option that a new table would
-- lack: `attribute` of the findings of `_unsupported_features`.
pub data Feature : Type 0 where
  local_secondary_index : String → Feature
  undeclared_option : OptionName → Feature
  sse replicas on_demand_throughput : Feature

-- What makes a recreate refuse.
pub data Blocker : Type 0 where
  declared_provisioned : Blocker
  feature : Feature → Blocker
  protected : Blocker

-- What a finding is about: its index, its attribute, and for a refusal the reasons.
pub data Subject : Type 0 where
  table : Subject
  index : String → Subject
  attribute : String → Subject
  option : OptionName → Subject
  live_feature : Feature → Subject
  refused_because : List Blocker → Subject

pub record Finding : Type 0 where
  pub kind : FindingKind
  pub severity : Severity
  pub remedy : Remedy
  pub subject : Subject

abbrev pub is_conflict : Severity → Bool
is_conflict conflict = true
is_conflict _ = false

abbrev pub is_adopt : Remedy → Bool
is_adopt adopt_declaration = true
is_adopt _ = false

abbrev pub is_recreate : Remedy → Bool
is_recreate recreate_table = true
is_recreate _ = false

-- `granted.get(permission, False)`
abbrev pub Granted : Type 0
Granted = Permission → Bool

-- `f.required_permission is None or granted.get(f.required_permission, False)`
unfoldable pub is_permitted : Granted → Remedy → Bool
unfolding required_permission
is_permitted granted remedy = elim (required_permission remedy) [
  | none ↦ true
  | some permission ↦ granted permission
]

abbrev pub is_actionable : Granted → Finding → Bool
is_actionable granted f = is_automatable f.remedy && is_permitted granted f.remedy

abbrev pub is_blocked : Granted → Finding → Bool
is_blocked granted f =
    is_conflict f.severity && is_automatable f.remedy && not (is_permitted granted f.remedy)

abbrev pub is_unfixable : Finding → Bool
is_unfixable f = is_conflict f.severity && not (is_automatable f.remedy) && not (is_adopt f.remedy)

-- SchemaDiff, less the table's name.
abbrev pub SchemaDiff : Type 0
SchemaDiff = List Finding

unfoldable pub actionable : Granted → SchemaDiff → List Finding
actionable granted = keep_if (is_actionable granted)

unfoldable pub blocked : Granted → SchemaDiff → List Finding
blocked granted = keep_if (is_blocked granted)

unfoldable pub unfixable : SchemaDiff → List Finding
unfixable = keep_if is_unfixable

unfoldable pub requires_action : Granted → SchemaDiff → Bool
unfolding actionable blocked unfixable
requires_action granted diff =
    not (is_nil (actionable granted diff))
    || not (is_nil (blocked granted diff))
    || not (is_nil (unfixable diff))
