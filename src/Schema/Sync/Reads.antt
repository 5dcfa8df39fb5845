-- ===== src/Schema/Sync/Reads.antt =====
-- The operations of python_packages/rc_dynamo/src/rc_dynamo/schema/sync.py that only look.
use re_infra.Base.{String, Option, none, some}
use re_infra.Calls.{Call, Client, AllowsReads}
use re_infra.Action.Keeps.{Keeps, keeps_rules}
use re_infra.Schema.Sync.Creation.{table_exists, present_schema, live_schema}
use re_infra.Schema.Sync.Tags.{table_arn_and_tags}
use re_infra.Schema.Sync.Dumps.{head_dump_bucket, require_dump_bucket}
use re_infra.Schema.Sync.Changes.{unmodeled_attachments}

module _ {P : Call → Type 0} (reads : AllowsReads P) (client : Client) where
  pub table_exists-Keeps : (name : String) → Keeps P (table_exists client name)
  unfolding table_exists
  table_exists-Keeps name = search (keeps_rules, reads.allows)

  pub live_schema-Keeps : (name : String) → Keeps P (live_schema client name)
  unfolding live_schema present_schema
  live_schema-Keeps name = search (keeps_rules, reads.allows, table_exists-Keeps)

  pub table_arn_and_tags-Keeps : (name : String) → Keeps P (table_arn_and_tags client name)
  unfolding table_arn_and_tags
  table_arn_and_tags-Keeps name = search (keeps_rules, reads.allows)

  pub unmodeled_attachments-Keeps : (name : String) → Keeps P (unmodeled_attachments client name)
  unfolding unmodeled_attachments
  unmodeled_attachments-Keeps name = search (keeps_rules, reads.allows) depth 10

  head_dump_bucket-Keeps : (bucket : String) → Keeps P (head_dump_bucket client bucket)
  unfolding head_dump_bucket
  head_dump_bucket-Keeps bucket = search (keeps_rules, reads.allows)

  pub require_dump_bucket-Keeps :
      (bucket : Option String) → Keeps P (require_dump_bucket client bucket)
  unfolding require_dump_bucket
  require_dump_bucket-Keeps none = search (keeps_rules)
  require_dump_bucket-Keeps (some bucket) = search (keeps_rules, head_dump_bucket-Keeps)
