-- ===== src/Schema/Sync/Creation.antt =====
-- python_packages/rc_dynamo/src/rc_dynamo/schema/sync.py: how a table is created.
-- The loop of `wait_table_active` and the retries of `_set_point_in_time_recovery` are one call.
pub mod Indexed
use re_infra.Base.{
  String, Bool, true, false, ◌&&◌, not, Option, none, some, List, [], ◌∷◌, ◌++◌, map, ◌==◌,
  text_leb, if◌then◌else◌, keep_if, any_of, elem, is_nil, is_some,
}
use re_infra.Base.Dicts.{Dict, get, has_value, keys}
use re_infra.Base.Sorting.{sort_by}
use re_infra.Aws.{client_error, schema_sync_error, Error, Result, ok, err}
use re_infra.Calls.{TableRequest, Call, Client}
use re_infra.Action.{Action, pure, lift, attempt, when, call, ◌>>=◌, ◌>>◌}
use re_infra.Schema.Options.{
  OptionName, billing_mode, table_class, deletion_protection, stream_view_type, ttl_attribute,
  point_in_time_recovery, OptionValue, off, flag, text, Setting, unmanaged, managed, Options,
  same_value,
}
use re_infra.Schema.Findings.{
  Permission, prune_undeclared, allow_table_recreate, allow_protection_downgrade, Granted,
  SchemaDiff,
}
use re_infra.Schema.Failures.{
  SyncError, no_partition_key, provisioned_billing, no_environment, reserved_tags,
}
use re_infra.Schema.Shape.{KeySchema, Gsi, Expected, Actual, IndexRequest, KeyElement, distinct}
use re_infra.Schema.Values.{Row}
use re_infra.Schema.Diff.{diff_schemas}
use re_infra.Schema.Sync.{key_schema_to_boto, create_gsi_request}

abbrev pub refuse : {A : Type 0} → SyncError → Result A
refuse e = err (schema_sync_error e)

-- An instance of BaseTable. `validate` is its pydantic model: what it dumps of an item that it
-- accepts.
pub record Table : Type 0 where
  pub name : String
  pub expected : Expected
  pub pk_name : String
  pub sk_name : Option String
  pub model_fields : List String
  pub insert_unknown_columns : Bool
  pub validate : Row → Option Row

-- The settings that permit changes.
pub record Settings : Type 0 where
  pub prune_undeclared : Bool
  pub allow_table_recreate : Bool
  pub allow_protection_downgrade : Bool

unfoldable pub granted_permissions : Settings → Granted
granted_permissions settings prune_undeclared = settings.prune_undeclared
granted_permissions settings allow_table_recreate = settings.allow_table_recreate
granted_permissions settings allow_protection_downgrade = settings.allow_protection_downgrade

-- The attributes of a key schema; an absent or empty name is none.
abbrev key_name : Option String → List String
key_name none = []
key_name (some s) = if s == "" then [] else s ∷ []

unfoldable pub key_names : KeySchema → List String
key_names k = key_name k.partition_key ++ key_name k.sort_key

pub index_key_names : Dict Gsi → List String
unfolding key_names
index_key_names [] = []
index_key_names ((name, gsi) ∷ gsis) = key_names gsi.keys ++ index_key_names gsis

-- `_collect_attribute_definitions`; no schema here names a type, so every one is S.
unfoldable pub attribute_definitions : KeySchema → Dict Gsi → Dict String
unfolding key_names index_key_names distinct sort_by
attribute_definitions table gsis =
    map (λ name. (name, "S"))
      (sort_by text_leb (distinct (key_names table ++ index_key_names gsis)))

-- INHERITED_ON_RECREATE
abbrev pub is_inherited : OptionName → Bool
is_inherited point_in_time_recovery = true
is_inherited ttl_attribute = true
is_inherited _ = false

-- The loop of `_creation_options`.
unfoldable pub resolved_options : Options → Options → Options
resolved_options declared live name = elim (declared name) [
  | managed v ↦ managed v
  | unmanaged ↦ if is_inherited name then live name else unmanaged
]

abbrev pub unmanaged_options : Options
unmanaged_options name = unmanaged

-- Capacity is not modelled, so no table is created with provisioned billing.
abbrev pub check_billing : String → Options → Setting → Result Options
check_billing table resolved unmanaged = ok resolved
check_billing table resolved (managed v) =
    if same_value v (text "PAY_PER_REQUEST")
    then ok resolved
    else refuse (provisioned_billing table v)

unfoldable pub creation_options : String → Options → Options → Result Options
unfolding resolved_options
creation_options table declared live =
    check_billing table (resolved_options declared live)
      (resolved_options declared live billing_mode)

-- The declared indexes, and the live ones that are not declared.
unfoldable pub create_gsis : Dict Gsi → Dict Gsi → Dict Gsi
create_gsis declared live =
    declared ++ keep_if (λ (name, gsi). not (is_some (get name declared))) live

abbrev pub with_index :
    String → Option IndexRequest → Result (Dict IndexRequest) → Result (Dict IndexRequest)
with_index name none rest = refuse no_partition_key
with_index name (some request) (ok rest) = ok ((name, request) ∷ rest)
with_index name (some request) (err e) = err e

unfoldable pub index_requests : Dict Gsi → Dict Gsi → Result (Dict IndexRequest)
unfolding create_gsi_request
index_requests live [] = ok []
index_requests live ((name, gsi) ∷ gsis) =
    with_index name (create_gsi_request gsi (get name live)) (index_requests live gsis)

abbrev stream_option : Setting → Setting
stream_option (managed off) = unmanaged
stream_option s = s

-- The options that `create_table` takes.
unfoldable pub sent_options : Options → Options
sent_options options table_class = options table_class
sent_options options deletion_protection = options deletion_protection
sent_options options stream_view_type = stream_option (options stream_view_type)
sent_options options _ = unmanaged

unfoldable pub request_from :
    Table
    → Dict String
    → Options
    → Dict Gsi
    → Result (Dict IndexRequest)
    → Option (List KeyElement)
    → Result TableRequest
unfolding sent_options attribute_definitions
request_from table tags options gsis (err e) keys = err e
request_from table tags options gsis (ok indexes) none = refuse no_partition_key
request_from table tags options gsis (ok indexes) (some keys) = ok (record {
  table_name = table.name;
  key_schema = keys;
  attribute_definitions = attribute_definitions table.expected.key_schema gsis;
  indexes = indexes;
  tags = tags;
  options = sent_options options;
})

unfoldable pub table_request : Table → Dict Gsi → Dict String → Options → Result TableRequest
unfolding index_requests create_gsis key_schema_to_boto request_from
table_request table live tags options =
    let gsis = create_gsis table.expected.gsis live in
    request_from table tags options gsis (index_requests live gsis)
      (key_schema_to_boto table.expected.key_schema)

found_table : Result String → Result Bool
found_table (ok arn) = ok true
found_table (err (client_error code message)) =
    if code == "ResourceNotFoundException" then ok false else err (client_error code message)
found_table (err e) = err e

abbrev is_true : Setting → Bool
is_true (managed (flag b)) = b
is_true s = false

module _ (client : Client) where
  unfoldable pub table_exists : String → Action Bool
  unfolding found_table
  table_exists name = do
    found ← attempt (call client (Call.describe_table name))
    lift (found_table found)

  unfoldable pub enable_ttl : String → Setting → Action (Unit {0})
  enable_ttl name (managed (text attribute)) =
      call client (Call.set_time_to_live name true attribute)
  enable_ttl name s = pure tt

  -- What `create_table` does once it knows that there is no table.
  unfoldable pub create_absent : Table → Dict Gsi → Dict String → Options → Action (Unit {0})
  unfolding creation_options table_request
  create_absent table live_gsis tags live_options = do
    options ← lift (creation_options table.name table.expected.options live_options)
    request ← lift (table_request table live_gsis tags options)
    call client (Call.create_table request)
    call client (Call.wait_table_active table.name)
    enable_ttl table.name (options ttl_attribute)
    when (is_true (options point_in_time_recovery))
        (call client (Call.set_point_in_time_recovery table.name true))

  unfoldable pub create_table : Table → Dict Gsi → Dict String → Options → Action (Unit {0})
  create_table table live_gsis tags live_options = do
    exists ← table_exists table.name
    when (not exists) (create_absent table live_gsis tags live_options)

  unfoldable pub present_schema : String → Action (Option Actual)
  present_schema name = do actual ← call client (Call.read_schema name); pure (some actual)

  -- `actual_schema()` of a table that exists.
  unfoldable pub live_schema : String → Action (Option Actual)
  live_schema name = do
    exists ← table_exists name
    if exists then present_schema name else pure none
