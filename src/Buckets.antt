-- ===== src/Buckets.antt =====
-- src/rc_infra/buckets.py: emptying and deleting an S3 bucket, versions and markers included.
use re_infra.Base.{
  String, Bool, true, false, ◌||◌, not, ◌++◌, ◌==◌, num_eq, if◌then◌else◌, is_nil, ◌&&◌,
}
use re_infra.Aws.{client_error, Result, ok, err}
use re_infra.Calls.{VersionPage, Call, Client}
use re_infra.Action.{Action, pure, lift, attempt, call, for_each, ◌>>=◌, ◌>>◌}

-- The codes by which S3 says that there is no such bucket.
unfoldable pub is_missing_code : String → Bool
is_missing_code code = code == "404" || code == "NoSuchBucket" || code == "NotFound"

found : Result (Unit {0}) → Result Bool
unfolding is_missing_code
found (ok _) = ok true
found (err (client_error code message)) =
    if is_missing_code code then ok false else err (client_error code message)
found (err e) = err e

unfoldable pub exists : Client → String → Action Bool
unfolding found
exists client name = do r ← attempt (call client (Call.head_bucket name)); lift (found r)

-- With `include_versions`, no old version and no delete marker either.
unfoldable pub is_empty : Client → String → Bool → Action Bool
is_empty client name include_versions = do
  count ← call client (Call.list_objects name)
  if not (num_eq count 0) then pure false else if not include_versions then pure true else do
    page ← call client (Call.list_one_version name)
    pure (is_nil page.versions && is_nil page.delete_markers)

unfoldable pub delete_page : Client → String → VersionPage → Action (Unit {0})
delete_page client name page =
    if is_nil (page.versions ++ page.delete_markers)
    then pure tt
    else call client (Call.delete_objects name (page.versions ++ page.delete_markers))

unfoldable pub empty_and_delete : Client → String → Action (Unit {0})
empty_and_delete client name = do
  present ← exists client name
  if not present then pure tt else do
    pages ← call client (Call.list_object_versions name)
    for_each (delete_page client name) pages
    call client (Call.delete_bucket name)
