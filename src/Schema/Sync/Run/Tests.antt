-- ===== src/Schema/Sync/Run/Tests.antt =====
-- A table whose key was changed, in an account where the sync replaces it, and parts of that run.
use mathlib.Core.List.{flatten}
use re_infra.Base.{
  ◌<◌, ◌≡◌, ◌≢◌, refl, String, Bool, true, false, none, some, List, [], ◌∷◌, ◌++◌, if◌then◌else◌,
  All, all_of, any_of, ◌||◌, elem, length, arith,
}
use re_infra.Base.Dicts.{Dict, keys}
use re_infra.Aws.{client_error, waiter_error, still_running, Result, ok, err}
use re_infra.Calls.{TableRequest, Call, Answer, History, Client, is_read}
use re_infra.Action.{◌>>=◌, when, attempt, lift, call, pure}
use re_infra.Schema.Sync.{element, decide}
use re_infra.Schema.Diff.{diff_schemas}
use re_infra.Schema.Sync.Changes.{
  apply_findings, apply_knowing, recreate_into, unmodeled_attachments,
}
use re_infra.Schema.Options.{Options, unmanaged}
use re_infra.Schema.Findings.{requires_action, is_automatable, is_permitted, required_permission}
use re_infra.Schema.Shape.{Gsi, hash, resolve_projection, KeySchema, Features, Actual}
use re_infra.Schema.Values.{
  Row, text_value, decimal, Conversion, row_to_float, row_to_decimal, is_json_row,
}
use re_infra.Schema.Values.Numbers.{is_plain, is_storable, is_json_row-row_to_float}
use re_infra.Schema.Sync.Creation.{
  table_exists, live_schema, present_schema, granted_permissions, create_table, create_absent,
  enable_ttl, Table, attribute_definitions, key_names, sent_options, request_from, table_request,
}
use re_infra.Schema.Sync.Creation.Indexed.{element_names, index_names, table_request-elem}
use re_infra.Schema.Sync.Dumps.{
  require_dump_bucket, head_dump_bucket, dump_table, restore_table, batch_write_items,
  batch_write_items, restore_rows,
}
use re_infra.Schema.Sync.Dumps.Batches.{IsBatch, send_all, restore_rows-in_batches}
use re_infra.Schema.Sync.Dumps.Termination.{Progresses, batch_write_items-ends}
use re_infra.Schema.Sync.Backups.{restored_items, IsBackedUp}
use re_infra.Schema.Sync.Run.{Sync, sync_tables}
use re_infra.Schema.Sync.Run.Permission.{IsPermitted}
use re_infra.Schema.Sync.Run.Permitted.{sync_tables-IsPermitted, sync_tables-dry_run}
use re_infra.Schema.Sync.Run.BackedUp.{Listed, sync_tables-IsBackedUp}
use re_infra.Schema.Sync.Run.Settled.{SettledBy, sync_tables-SettledBy}

abbrev by_id : KeySchema
by_id = record { partition_key = some "id"; sort_key = none }

abbrev by_email : KeySchema
by_email = record { partition_key = some "email"; sort_key = none }

abbrev no_options : Options
no_options name = unmanaged

abbrev no_features : Features
no_features = record {
  local_secondary_indexes = [];
  has_sse = false;
  replicated = [];
  has_on_demand_throughput = false;
}

abbrev keyed : KeySchema → Actual
keyed key = record {
  key_schema = key;
  gsis = [];
  attribute_types = [];
  options = no_options;
  features = no_features;
}

abbrev exact : Conversion
exact = record { to_float = λ d. d; to_decimal = λ f. f }

abbrev users : Table
users = record {
  name = "users";
  expected = record { key_schema = by_id; gsis = []; attribute_types = []; options = no_options };
  pk_name = "id";
  sk_name = none;
  model_fields = "id" ∷ [];
  insert_unknown_columns = true;
  validate = λ row. some row;
}

abbrev user : Row
user = ("id", text_value "u1") ∷ ("age", decimal "30") ∷ []

abbrev is_creation : Call → Bool
is_creation (Call.create_table request) = true
is_creation _ = false

abbrev is_deletion : Call → Bool
is_deletion (Call.delete_table name) = true
is_deletion _ = false

-- Whether the table is there after the calls.
abbrev is_there : History → Bool
is_there past =
    if any_of is_creation past then true else if any_of is_deletion past then false else true

abbrev reply : History → (c : Call) → Result (Answer c)
reply past (Call.describe_table name) =
    if is_there past then ok "arn" else err (client_error "ResourceNotFoundException" name)
reply past (Call.read_schema name) =
    ok (keyed (if any_of is_creation past then by_id else by_email))
reply past (Call.kinesis_destinations name) = ok []
reply past (Call.get_resource_policy arn) = err (client_error "PolicyNotFoundException" arn)
reply past (Call.scan_rows name) = ok ((user ∷ []) ∷ [])
reply past (Call.fresh_dump_key name) = ok "dump"
reply past (Call.get_dump dump) = ok (row_to_float exact user ∷ [])
reply past (Call.batch_write name rows) = ok []
reply past (Call.list_table_tags arn) = ok []
reply past (Call.head_bucket name) = ok tt
reply past (Call.put_dump dump rows) = ok tt
reply past (Call.create_table request) = ok tt
reply past (Call.delete_table name) = ok tt
reply past (Call.wait_table_deleted name) = ok tt
reply past (Call.wait_table_active name) = ok tt
reply past (Call.delete_dump dump) = ok tt
reply past _ = err waiter_error

abbrev account : Client
account = record { reply = reply }

abbrev run : Bool → Sync
run applying = record {
  rounds = 1;
  convert = exact;
  applying = applying;
  dump_bucket = some "dumps";
  settings = record {
    prune_undeclared = false;
    allow_table_recreate = true;
    allow_protection_downgrade = false;
  };
  tags = [];
}

sync_tables-IsPermitted_example :
    All
      (IsPermitted account (run true) ("users" ∷ []))
      (sync_tables account (run true) (users ∷ []) []).1
sync_tables-IsPermitted_example = sync_tables-IsPermitted account (run true) (users ∷ [])

sync_tables-dry_run_example :
    All (λ c. is_read c ≡ true) (sync_tables account (run false) (users ∷ []) []).1
sync_tables-dry_run_example = sync_tables-dry_run account (run false) (users ∷ []) refl

sync_tables-IsBackedUp_example :
    IsBackedUp account exact
      (Listed account (run true) (users ∷ []))
      (sync_tables account (run true) (users ∷ []) []).1
sync_tables-IsBackedUp_example = sync_tables-IsBackedUp account (run true) (users ∷ [])

is_json_row-row_to_float_example :
    (is_json_row (row_to_float exact user) ≡ all_of (λ (k, v). is_plain v) user)
    × (all_of (λ (k, v). is_storable v) (row_to_decimal exact user) ≡ true)
is_json_row-row_to_float_example = is_json_row-row_to_float exact user

restore_rows-in_batches_example :
    (batches : List (List Row)) × (flatten batches ≡ restored_items exact users (user ∷ user ∷ []))
    × All IsBatch batches
    × ((past : History)
        → restore_rows account 1 exact users [] (user ∷ user ∷ []) past
          ≡ send_all account 1 exact users batches past)
restore_rows-in_batches_example = restore_rows-in_batches account 1 exact users (user ∷ user ∷ [])

-- It answers batch writes only, and processes every row.
abbrev writer_reply : History → (c : Call) → Result (Answer c)
writer_reply past (Call.batch_write name rows) = ok []
writer_reply past _ = err waiter_error

abbrev writer : Client
writer = record { reply = writer_reply }

writer_progress : Progresses writer
writer_progress = record { fewer = fewer; answers = answers }
  where
    fewer :
        (past : History) (name : String) (rows left : List Row)
        → writer.reply past (Call.batch_write name rows) ≡ ok left
        → 0 < length rows
        → length left < length rows
    fewer past name rows [] replied filled = filled
    fewer past name rows (row ∷ left) replied filled = cc

    answers : (past : History) (c : Call) → writer.reply past c ≢ err still_running
    answers past (Call.batch_write name rows) h = cc
    answers past _ h = cc

batch_write_items-ends_example :
    (batch_write_items writer 2 "users" (user ∷ user ∷ []) []).0 ≢ err still_running
batch_write_items-ends_example =
    batch_write_items-ends writer writer_progress "users" 2 (user ∷ user ∷ []) [] (omega arith)
      (omega arith)

-- The run replaces the table, and returns that it differed.
finished : (sync_tables account (run true) (users ∷ []) []).0 ≡ ok true
unfolding sync_tables required_permission ◌>>=◌ when require_dump_bucket head_dump_bucket attempt
    lift call pure table_exists live_schema present_schema decide requires_action diff_schemas
    is_automatable is_permitted granted_permissions apply_findings apply_knowing recreate_into
    unmodeled_attachments dump_table create_table create_absent enable_ttl restore_table
    batch_write_items flatten
finished = refl

sync_tables-SettledBy_example :
    All
      (SettledBy account (run true) (sync_tables account (run true) (users ∷ []) []).1)
      (users ∷ [])
sync_tables-SettledBy_example =
    sync_tables-SettledBy account (run true) (users ∷ []) true refl finished

-- The users table is created anew, with an index that was live.
abbrev live_gsis : Dict Gsi
live_gsis =
    (
      "by-email",
      record { keys = by_email; projection = some "KEYS_ONLY"; non_key_attributes = none },
    )
    ∷ []

abbrev wanted : TableRequest
wanted = record {
  table_name = "users";
  key_schema = element "id" hash ∷ [];
  attribute_definitions = ("email", "S") ∷ ("id", "S") ∷ [];
  indexes =
      (
        "by-email",
        record {
          key_schema = element "email" hash ∷ [];
          projection = record { projection_type = "KEYS_ONLY"; non_key_attributes = [] };
        },
      )
      ∷ [];
  tags = [];
  options = sent_options no_options;
}

is_requested : table_request users live_gsis [] no_options ≡ ok wanted
unfolding table_request request_from attribute_definitions sent_options key_names resolve_projection
is_requested = refl

table_request-elem_example :
    (elem "email" (keys wanted.attribute_definitions)
      ≡ elem "email" (element_names wanted.key_schema ++ index_names wanted.indexes))
    × (elem "email" (keys wanted.indexes)
        ≡ (elem "email" (keys users.expected.gsis) || elem "email" (keys live_gsis)))
table_request-elem_example =
    table_request-elem users live_gsis [] no_options wanted "email" is_requested
