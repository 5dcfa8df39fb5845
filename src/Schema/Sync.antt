-- ===== src/Schema/Sync.antt =====
-- python_packages/rc_dynamo/src/rc_dynamo/schema/sync.py: what an index is created with, and
-- base_table.py: how it is read back. The options of a new table, and when a table is changed.
pub mod Creation
pub mod Tags
pub mod Dumps
pub mod Changes
pub mod Reads
pub mod Writes
pub mod Backups
pub mod Run
pub mod Convergence
pub mod Gate
pub mod Tests
use re_infra.Base.{
  String, Bool, true, false, ◌&&◌, not, Option, none, some, List, [], ◌∷◌, ◌==◌, if◌then◌else◌,
  is_nil,
}
use re_infra.Schema.Options.{
  OptionName, point_in_time_recovery, ttl_attribute, OptionValue, Setting, unmanaged, managed,
  Options,
}
use re_infra.Schema.Findings.{
  Finding, Granted, SchemaDiff, actionable, blocked, unfixable, requires_action,
}
use re_infra.Schema.Shape.{
  attributes_or_none, KeySchema, Gsi, resolve_projection, KeyType, hash, range, KeyElement,
  IndexRequest,
}

abbrev pub element : String → KeyType → KeyElement
element name kind = record { attribute_name = name; key_type = kind }

abbrev pub range_elements : Option String → List KeyElement
range_elements none = []
range_elements (some s) = if s == "" then [] else element s range ∷ []

-- `_key_schema_to_boto`; `none` is the SchemaSyncError.
unfoldable pub key_schema_to_boto : KeySchema → Option (List KeyElement)
key_schema_to_boto k = elim k.partition_key [
  | none ↦ none
  | some p ↦ if p == "" then none else some (element p hash ∷ range_elements k.sort_key)
]

unfoldable pub create_gsi_request : Gsi → Option Gsi → Option IndexRequest
unfolding key_schema_to_boto
create_gsi_request declared live = elim (key_schema_to_boto declared.keys) [
  | none ↦ none
  | some elements ↦
      some (record { key_schema = elements; projection = resolve_projection declared live })
]

-- `_parse_key_schema`: a later entry of a type replaces an earlier one.
abbrev pub with_element : KeyElement → KeyType → KeySchema → KeySchema
with_element e hash k = record k { partition_key = some e.attribute_name }
with_element e range k = record k { sort_key = some e.attribute_name }

parse_from : KeySchema → List KeyElement → KeySchema
parse_from k [] = k
parse_from k (e ∷ es) = parse_from (with_element e e.key_type k) es

unfoldable pub parse_key_schema : List KeyElement → KeySchema
unfolding parse_from
parse_key_schema = parse_from (record { partition_key = none; sort_key = none })

-- `_parse_projection` of an index that has what was requested.
unfoldable pub reported : IndexRequest → Gsi
unfolding parse_key_schema
reported request = record {
  keys = parse_key_schema request.key_schema;
  projection = some request.projection.projection_type;
  non_key_attributes = attributes_or_none request.projection.non_key_attributes;
}

-- What `_sync_table` does with a diff.
pub data Decision : Type 0 where
  in_sync : Decision
  cannot_reconcile : List Finding → Decision
  not_permitted : List Finding → Decision
  would_change : Decision
  apply : List Finding → Decision

unfoldable pub decide : Bool → Granted → SchemaDiff → Decision
decide applying granted diff =
    if not (requires_action granted diff)
    then in_sync
    else if not (is_nil (unfixable diff))
    then cannot_reconcile (unfixable diff)
    else if not (is_nil (blocked granted diff))
    then not_permitted (blocked granted diff)
    else if not (is_nil (actionable granted diff)) && applying
    then apply (actionable granted diff)
    else would_change
