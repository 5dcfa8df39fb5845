-- ===== src/Schema/Sync/Changes.antt =====
-- python_packages/rc_dynamo/src/rc_dynamo/schema/sync.py: the remedies for the findings of a table,
-- in the order in which they are carried out.
use re_infra.Base.{
  ℕ, String, Bool, true, false, ◌&&◌, not, Option, none, some, List, [], ◌∷◌, ◌++◌, ◌==◌, text_leb,
  if◌then◌else◌, keep_if, any_of, elem, is_nil, map,
}
use re_infra.Base.Dicts.{Dict, get}
use re_infra.Base.Sorting.{sort_by}
use re_infra.Aws.{client_error, key_error, Result, ok, err}
use re_infra.Calls.{Dump, Call, Client}
use re_infra.Action.{Action, pure, raise, lift, attempt, when, call, for_each, ◌>>=◌, ◌>>◌}
use re_infra.Schema.Options.{
  OptionName, billing_mode, table_class, deletion_protection, stream_view_type, ttl_attribute,
  point_in_time_recovery, OptionValue, off, flag, text, Setting, unmanaged, managed, Options,
  same_value,
}
use re_infra.Schema.Findings.{Remedy, Finding, unfixable, Subject, index, option}
use re_infra.Schema.Failures.{
  Attachment, kinesis_streams, kinesis_unchecked, resource_policy, policy_unchecked, no_switch_to,
  ttl_disabled, unsafe_recreate, no_partition_key,
}
use re_infra.Schema.Shape.{Gsi, Actual, IndexRequest}
use re_infra.Schema.Values.{Conversion}
use re_infra.Schema.Diff.{diff_schemas}
use re_infra.Schema.Sync.{create_gsi_request}
use re_infra.Schema.Sync.Creation.{
  refuse, Table, attribute_definitions, table_exists, unmanaged_options, create_table, live_schema,
}
use re_infra.Schema.Sync.Dumps.{require_dump_bucket, dump_table, restore_table}

-- A destination that is on its way out does not count.
abbrev is_live_destination : String × String → Bool
is_live_destination (arn, status) = not (elem status ("DISABLED" ∷ "DISABLING" ∷ []))

abbrev live_streams : List String → List Attachment
live_streams [] = []
live_streams (arn ∷ arns) = kinesis_streams (arn ∷ arns) ∷ []

unfoldable pub kinesis_found : Result (List (String × String)) → Result (List Attachment)
unfolding sort_by
kinesis_found (ok destinations) = ok (
    live_streams
      (sort_by text_leb (map (λ (arn, status). arn) (keep_if is_live_destination destinations))))
kinesis_found (err (client_error code message)) = ok (kinesis_unchecked code ∷ [])
kinesis_found (err e) = err e

unfoldable pub policy_found : Result (Unit {0}) → Result (List Attachment)
policy_found (ok u) = ok (resource_policy ∷ [])
policy_found (err (client_error code message)) =
    if code == "PolicyNotFoundException" then ok [] else ok (policy_unchecked code ∷ [])
policy_found (err e) = err e

unfoldable pub check_recreate : String → List Finding → List Attachment → Result (Unit {0})
check_recreate table findings attachments =
    if is_nil findings && is_nil attachments
    then ok tt
    else refuse (unsafe_recreate table findings attachments)

-- `finding.declared` and `finding.live` of an option: None where the schema has no value.
abbrev option_value : Setting → OptionValue
option_value unmanaged = off
option_value (managed v) = v

abbrev is_off : OptionValue → Bool
is_off off = true
is_off v = false

-- `bool(value)`
abbrev truthy : OptionValue → Bool
truthy off = false
truthy (flag b) = b
truthy (text s) = not (s == "")

abbrev ttl_outcome : String → OptionValue → String → Result (Unit {0}) → Result (Unit {0})
ttl_outcome table (text live) declared (err (client_error code message)) =
    refuse (ttl_disabled live declared code)
ttl_outcome table live declared r = r

unfoldable pub has_remedy : (Remedy → Bool) → Finding → Bool
has_remedy is f = is f.remedy

abbrev pub is_create_table : Remedy → Bool
is_create_table Remedy.create_table = true
is_create_table _ = false

abbrev pub is_recreate_table : Remedy → Bool
is_recreate_table Remedy.recreate_table = true
is_recreate_table _ = false

abbrev pub is_option_change : Remedy → Bool
is_option_change Remedy.update_options = true
is_option_change Remedy.disable_protection = true
is_option_change _ = false

abbrev pub is_delete_gsi : Remedy → Bool
is_delete_gsi Remedy.delete_gsi = true
is_delete_gsi _ = false

abbrev pub is_rebuild_gsi : Remedy → Bool
is_rebuild_gsi Remedy.rebuild_gsi = true
is_rebuild_gsi _ = false

abbrev pub is_create_gsi : Remedy → Bool
is_create_gsi Remedy.create_gsi = true
is_create_gsi _ = false

-- `str(finding.index_name)`
abbrev pub index_name : Subject → String
index_name (index name) = name
index_name s = "None"

abbrev gsis_of : Option Actual → Dict Gsi
gsis_of none = []
gsis_of (some actual) = actual.gsis

abbrev index_result :
    String → Dict String → Option IndexRequest → Result (IndexRequest × Dict String)
index_result name definitions none = refuse no_partition_key
index_result name definitions (some request) = ok (request, definitions)

-- `_create_gsi`'s request and its attribute definitions, of the index `expected_gsis[index_name]`.
unfoldable pub index_request : Table → Dict Gsi → String → Result (IndexRequest × Dict String)
unfolding create_gsi_request attribute_definitions
index_request table live name = elim (get name table.expected.gsis) [
  | none ↦ err (key_error name)
  | some gsi ↦
      index_result name (attribute_definitions table.expected.key_schema ((name, gsi) ∷ []))
        (create_gsi_request gsi (get name live))
]

module _ (client : Client) where
  unfoldable pub delete_table : Table → Action (Unit {0})
  delete_table table = do
    exists ← table_exists client table.name
    when exists (
        call client (Call.delete_table table.name)
        >> call client (Call.wait_table_deleted table.name))

  unfoldable pub unmodeled_attachments : String → Action (List Attachment)
  unfolding kinesis_found policy_found
  unmodeled_attachments name = do
    arn ← call client (Call.describe_table name)
    destinations ← attempt (call client (Call.kinesis_destinations name))
    streams ← lift (kinesis_found destinations)
    policy ← attempt (call client (Call.get_resource_policy arn))
    policies ← lift (policy_found policy)
    pure (streams ++ policies)

  unfoldable pub refuse_unsafe_recreate : Table → Actual → Action (Unit {0})
  unfolding check_recreate
  refuse_unsafe_recreate table actual = do
    attachments ← unmodeled_attachments table.name
    lift (
        check_recreate table.name (unfixable (diff_schemas table.expected (some actual)))
          attachments)

  -- What `_recreate_table` does once the rows are in the dump.
  unfoldable pub replace_table :
      ℕ → Conversion → Table → Dict String → Actual → Dump → Action (Unit {0})
  unfolding delete_table
  replace_table rounds convert table tags actual dump = do
    delete_table table
    create_table client table actual.gsis tags actual.options
    restore_table client rounds convert table dump
    call client (Call.wait_table_active table.name)
    call client (Call.delete_dump dump)

  -- What `_recreate_table` does with what it has read.
  unfoldable pub recreate_read :
      ℕ → Conversion → Table → String → Dict String → Actual → Action (Unit {0})
  unfolding replace_table refuse_unsafe_recreate
  recreate_read rounds convert table bucket tags actual = do
    refuse_unsafe_recreate table actual
    dump ← dump_table client convert table bucket
    replace_table rounds convert table tags actual dump

  unfoldable pub recreate_table : ℕ → Conversion → Table → String → Dict String → Action (Unit {0})
  unfolding recreate_read
  recreate_table rounds convert table bucket tags = do
    actual ← call client (Call.read_schema table.name)
    recreate_read rounds convert table bucket tags actual

  unfoldable pub delete_gsi : Table → String → Action (Unit {0})
  delete_gsi table name = do
    call client (Call.delete_index table.name name)
    call client (Call.wait_table_active table.name)

  unfoldable pub create_gsi : Table → Dict Gsi → String → Action (Unit {0})
  unfolding index_request
  create_gsi table live name = do
    request ← lift (index_request table live name)
    call client (Call.create_index table.name name request.0 request.1)
    call client (Call.wait_table_active table.name)

  unfoldable pub update_table_option : Table → OptionName → OptionValue → Action (Unit {0})
  update_table_option table name value = do
    call client (Call.set_option table.name name value)
    call client (Call.wait_table_active table.name)

  unfoldable pub enable_new_ttl : Table → OptionValue → OptionValue → Action (Unit {0})
  enable_new_ttl table (text attribute) live = do
    r ← attempt (call client (Call.set_time_to_live table.name true attribute))
    lift (ttl_outcome table.name live attribute r)
  enable_new_ttl table declared live = pure tt

  unfoldable pub disable_old_ttl : Table → OptionValue → Action (Unit {0})
  disable_old_ttl table (text attribute) =
      call client (Call.set_time_to_live table.name false attribute)
  disable_old_ttl table live = pure tt

  -- `_apply_option`, given the declared value and the live one.
  unfoldable pub apply_option : Table → OptionName → OptionValue → OptionValue → Action (Unit {0})
  unfolding update_table_option enable_new_ttl disable_old_ttl
  apply_option table billing_mode declared live =
      if same_value declared (text "PAY_PER_REQUEST")
      then update_table_option table billing_mode declared
      else lift (refuse (no_switch_to table.name declared))
  apply_option table table_class declared live = update_table_option table table_class declared
  apply_option table deletion_protection declared live =
      update_table_option table deletion_protection declared
  apply_option table stream_view_type declared live = do
    when (not (is_off live)) (update_table_option table stream_view_type off)
    when (not (is_off declared)) (update_table_option table stream_view_type declared)
  apply_option table point_in_time_recovery declared live =
      call client (Call.set_point_in_time_recovery table.name (truthy declared))
  apply_option table ttl_attribute declared live = do
    disable_old_ttl table live
    enable_new_ttl table declared live

  unfoldable pub apply_option_of : Table → Options → Subject → Action (Unit {0})
  unfolding apply_option
  apply_option_of table live (option name) =
      apply_option table name (option_value (table.expected.options name))
        (option_value (live name))
  apply_option_of table live _ = raise (key_error "attribute")

  -- A finding about an option, of a diff with the given live options.
  unfoldable pub apply_option_finding : Table → Options → Finding → Action (Unit {0})
  apply_option_finding table live f = apply_option_of table live f.subject

  unfoldable pub rebuild_gsi : Table → Dict Gsi → Finding → Action (Unit {0})
  unfolding delete_gsi create_gsi
  rebuild_gsi table live f = do
    delete_gsi table (index_name f.subject)
    create_gsi table live (index_name f.subject)

  unfoldable pub apply_in_place : Table → Options → Dict Gsi → List Finding → Action (Unit {0})
  unfolding apply_option_finding rebuild_gsi delete_gsi create_gsi has_remedy
  apply_in_place table options live findings = do
    for_each (apply_option_finding table options) (keep_if (has_remedy is_option_change) findings)
    for_each (λ f. delete_gsi table (index_name f.subject))
        (keep_if (has_remedy is_delete_gsi) findings)
    for_each (rebuild_gsi table live) (keep_if (has_remedy is_rebuild_gsi) findings)
    for_each (λ f. create_gsi table live (index_name f.subject))
        (keep_if (has_remedy is_create_gsi) findings)

  -- `require_dump_bucket` stands in the arguments of `_recreate_table`.
  unfoldable pub recreate_into :
      ℕ → Conversion → Table → Option String → Dict String → Action (Unit {0})
  unfolding recreate_table require_dump_bucket
  recreate_into rounds convert table dump_bucket tags = do
    bucket ← require_dump_bucket client dump_bucket
    recreate_table rounds convert table bucket tags

  -- What `_apply_findings` does once it has read the live indexes.
  unfoldable pub apply_knowing :
      ℕ
      → Conversion
      → Table
      → Options
      → List Finding
      → Option String
      → Dict String
      → Dict Gsi
      → Action (Unit {0})
  unfolding has_remedy
  apply_knowing rounds convert table options findings dump_bucket tags live =
      if any_of (has_remedy is_create_table) findings
      then create_table client table [] tags unmanaged_options
      else if any_of (has_remedy is_recreate_table) findings
      then recreate_into rounds convert table dump_bucket tags
      else apply_in_place table options live findings

  -- `options` are the live ones of the diff that the findings are from.
  unfoldable pub apply_findings :
      ℕ
      → Conversion
      → Table
      → Options
      → List Finding
      → Option String
      → Dict String
      → Action (Unit {0})
  apply_findings rounds convert table options findings dump_bucket tags = do
    live ← live_schema client table.name
    apply_knowing rounds convert table options findings dump_bucket tags (gsis_of live)
