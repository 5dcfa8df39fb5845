-- ===== src/Tables.antt =====
-- src/rc_infra/tables.py: which DynamoDB tables belong to an environment.
use mathlib.Core.List.{flatten, foldl}
use re_infra.Base.{
  ◌==◌, if◌then◌else◌, String, Bool, ◌&&◌, List, [], ◌++◌, text_leb, num_eq, keep_if,
}
use re_infra.Base.Dicts.{Dict, get, has_value}
use re_infra.Base.Texts.{has_prefix}
use re_infra.Base.Sorting.{sort_by}
use re_infra.Calls.{Call, Client}
use re_infra.Aws.{client_error, Result, ok, err}
use re_infra.Action.{attempt, lift, ◌>>◌, Action, pure, call, ◌>>=◌}

unfoldable pub list_names : Client → String → Action (List String)
unfolding sort_by
list_names client prefix = do
  pages ← call client Call.list_tables
  pure (sort_by text_leb (keep_if (has_prefix prefix) (flatten pages)))

-- A later page's tag replaces an earlier one: the pages are joined latest first.
unfoldable pub joined : List (Dict String) → Dict String
joined = foldl (λ found page. page ++ found) []

unfoldable pub table_tags : Client → String → Action (Dict String)
unfolding joined
table_tags client name = do
  arn ← call client (Call.describe_table name)
  pages ← call client (Call.list_table_tags arn)
  pure (joined pages)

-- Whether a scan of at most one item finds none.
unfoldable pub is_empty : Client → String → Action Bool
is_empty client name = do found ← call client (Call.scan_one name); pure (num_eq found 0)

after_delete : Result (Unit {0}) → Result (Unit {0})
after_delete (err (client_error code message)) =
    if code == "ResourceNotFoundException" then ok tt else err (client_error code message)
after_delete r = r

-- A missing table is no failure, and is waited for too.
unfoldable pub delete : Client → String → Action (Unit {0})
unfolding after_delete
delete client name = do
  r ← attempt (call client (Call.delete_table name))
  lift (after_delete r)
  call client (Call.wait_table_deleted name)

unfoldable pub is_managed_by_environment : Dict String → String → Bool
is_managed_by_environment tags environment =
    has_value "rc-dynamo-sync" (get "ManagedBy" tags)
    && has_value environment (get "Environment" tags)
