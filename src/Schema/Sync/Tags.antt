-- ===== src/Schema/Sync/Tags.antt =====
-- python_packages/rc_dynamo/src/rc_dynamo/schema/sync.py: the ownership tags of a table.
use re_infra.Base.{
  String, Bool, ◌&&◌, not, List, [], text_leb, ◌==◌, ◌∷◌, if◌then◌else◌, keep_if, elem, is_nil,
}
use re_infra.Base.Dicts.{Dict, get, has_value, keys}
use re_infra.Base.Sorting.{sort_by}
use re_infra.Aws.{Result, ok}
use re_infra.Calls.{Call, Client}
use re_infra.Action.{Action, pure, when, call, ◌>>=◌, ◌>>◌}
use re_infra.Tables.{joined}
use re_infra.Schema.Failures.{no_environment, reserved_tags}
use re_infra.Schema.Sync.Creation.{refuse, Table, table_exists}

abbrev pub managed_by : String
managed_by = "rc-dynamo-sync"

abbrev pub reserved_tag_keys : List String
reserved_tag_keys = "ManagedBy" ∷ "LifecycleOwner" ∷ "Environment" ∷ []

unfoldable pub managed_tags : String → Dict String → Result (Dict String)
managed_tags environment extra =
    let clashes = sort_by text_leb (keep_if (λ k. elem k reserved_tag_keys) (keys extra)) in
    if environment == ""
    then refuse no_environment
    else if not (is_nil clashes)
    then refuse (reserved_tags clashes)
    else ok (
        ("ManagedBy", managed_by)
        ∷ ("LifecycleOwner", managed_by)
        ∷ ("Environment", environment)
        ∷ extra)

-- The tags that the table lacks or has another value of.
unfoldable pub tag_changes : Dict String → Dict String → Dict String
tag_changes tags live = keep_if (λ (key, value). not (has_value value (get key live))) tags

module _ (client : Client) where
  -- `_table_arn_and_tags`: a later page's tag replaces an earlier one.
  unfoldable pub table_arn_and_tags : String → Action (String × Dict String)
  unfolding joined
  table_arn_and_tags name = do
    arn ← call client (Call.describe_table name)
    pages ← call client (Call.list_table_tags arn)
    pure (arn, joined pages)

  -- What `ensure_table_tags` does with a table that exists.
  unfoldable pub add_tags : String → Dict String → Bool → Action (Dict String)
  unfolding tag_changes
  add_tags name tags applying = do
    found ← table_arn_and_tags name
    let changes = tag_changes tags found.1
    when (not (is_nil changes) && applying) (call client (Call.tag_table found.0 changes))
    pure changes

  unfoldable pub ensure_table_tags : Table → Dict String → Bool → Action (Dict String)
  ensure_table_tags table tags applying = do
    exists ← table_exists client table.name
    if exists then add_tags table.name tags applying else pure []
