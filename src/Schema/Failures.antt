-- ===== src/Schema/Failures.antt =====
-- What makes python_packages/rc_dynamo/src/rc_dynamo/schema/sync.py raise a SchemaSyncError: what
-- its messages report.
use re_infra.Base.{String, List}
use re_infra.Base.Dicts.{Dict}
use re_infra.Schema.Options.{OptionValue}
use re_infra.Schema.Findings.{Finding}

-- What is attached to a table that `describe_table` does not show. An unchecked one has the code
-- of the error.
pub data Attachment : Type 0 where
  kinesis_streams : List String → Attachment
  kinesis_unchecked : String → Attachment
  resource_policy : Attachment
  policy_unchecked : String → Attachment

pub data SyncError : Type 0 where
  no_partition_key : SyncError
  provisioned_billing : String → OptionValue → SyncError
  no_switch_to : String → OptionValue → SyncError
  ttl_disabled : String → String → String → SyncError
  no_dump_bucket : SyncError
  dump_bucket_missing : String → SyncError
  unsafe_recreate : String → List Finding → List Attachment → SyncError
  irreconcilable : String → List Finding → SyncError
  not_allowed : String → List Finding → SyncError
  unresolved : Dict (List Finding) → SyncError
  no_environment : SyncError
  reserved_tags : List String → SyncError
  no_tables_named : SyncError
  unknown_tables : List String → SyncError
