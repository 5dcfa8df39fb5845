-- ===== src/Schema/Sync/Run/Permission.antt =====
-- What python_packages/rc_dynamo/src/rc_dynamo/schema/sync.py may call.
use re_infra.Base.{subst, sym, String, ◌≡◌, true, List, elem}
use re_infra.Base.Dicts.{Dict}
use re_infra.Aws.{ok}
use re_infra.Schema.Sync.Tags.{tag_changes, table_arn_and_tags}
use re_infra.Calls.{Call, Client, History, is_read, AllowsReads}
use re_infra.Schema.Sync.Writes.{AllowsChanges}
use re_infra.Schema.Sync.Run.{Sync}

-- Changes are asked for, and the table is one of the run.
abbrev pub MayChange : Sync → List String → String → Type 0
MayChange sync names name = (sync.applying ≡ true) × (elem name names ≡ true)

abbrev pub MayRecreate : Sync → Type 0
MayRecreate sync = (sync.applying ≡ true) × (sync.settings.allow_table_recreate ≡ true)

-- The table has the ARN with which AWS described one of the names when its tags were read, and is
-- given tags of the run that were not among those.
abbrev pub MayTag : Client → Sync → List String → String → Dict String → Type 0
MayTag client sync names arn tags =
    (name : String) × MayChange sync names name
    × ((past : History) × (live : Dict String) × (client.reply past (Call.describe_table name)
          ≡ ok arn)
        × ((table_arn_and_tags client name past).0 ≡ ok (arn, live))
        × (tags ≡ tag_changes sync.tags live))

-- What a run over the tables of these names may call: a table is only deleted, and dumps are only
-- written and deleted, where a recreate is allowed.
abbrev pub IsPermitted : Client → Sync → List String → Call → Type 0
IsPermitted client sync names (Call.delete_table name) =
    MayChange sync names name × (sync.settings.allow_table_recreate ≡ true)
IsPermitted client sync names (Call.put_dump dump rows) = MayRecreate sync
IsPermitted client sync names (Call.delete_dump dump) = MayRecreate sync
IsPermitted client sync names (Call.create_table request) = MayChange sync names request.table_name
IsPermitted client sync names (Call.set_option name option value) = MayChange sync names name
IsPermitted client sync names (Call.set_time_to_live name enabled attribute) =
    MayChange sync names name
IsPermitted client sync names (Call.set_point_in_time_recovery name enabled) =
    MayChange sync names name
IsPermitted client sync names (Call.create_index name index request definitions) =
    MayChange sync names name
IsPermitted client sync names (Call.delete_index name index) = MayChange sync names name
IsPermitted client sync names (Call.tag_table arn tags) = MayTag client sync names arn tags
IsPermitted client sync names (Call.batch_write name rows) = MayChange sync names name
IsPermitted client sync names c = is_read c ≡ true

pub reads :
    (client : Client) (sync : Sync) (names : List String)
    → AllowsReads (IsPermitted client sync names)
reads client sync names = record { allows = allows }
  where
    allows : (c : Call) → is_read c ≡ true → IsPermitted client sync names c
    allows (Call.delete_table name) h = cc
    allows (Call.put_dump dump rows) h = cc
    allows (Call.delete_dump dump) h = cc
    allows (Call.create_table request) h = cc
    allows (Call.set_option name option value) h = cc
    allows (Call.set_time_to_live name enabled attribute) h = cc
    allows (Call.set_point_in_time_recovery name enabled) h = cc
    allows (Call.create_index name index request definitions) h = cc
    allows (Call.delete_index name index) h = cc
    allows (Call.tag_table name tags) h = cc
    allows (Call.batch_write name rows) h = cc
    allows _ h = h

pub changes :
    (client : Client) (sync : Sync) (names : List String) (name : String)
    → MayChange sync names name
    → AllowsChanges (IsPermitted client sync names) name
changes client sync names name may = record {
  reads = reads client sync names;
  creates = λ request same. subst (MayChange sync names) (sym same) may;
  sets_option = λ option value. may;
  sets_ttl = λ enabled attribute. may;
  sets_recovery = λ enabled. may;
  creates_index = λ index request definitions. may;
  deletes_index = λ index. may;
  writes = λ rows. may;
}
