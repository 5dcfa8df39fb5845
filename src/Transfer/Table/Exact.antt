-- ===== src/Transfer/Table/Exact.antt =====
-- What a finished transfer of a table has counted.
use re_infra.Base.{ℕ, ◌≡◌, ◌≢◌, List}
use re_infra.Aws.{Result, ok, err}
use re_infra.Calls.{TableArn, Client}
use re_infra.Transfer.{copied, Diff}
use re_infra.Transfer.Relates.{Relation, Relates}
use re_infra.Transfer.Copying.Counted.{Honest}
use re_infra.Transfer.Table.Copied.{Sound}

module _ (client : Client) (honest : Honest client) (pages : ℕ) (source target : TableArn) where
  -- What follows a reading that may have raised.
  abbrev Tried : Result (List Diff) → Relation (Unit {0})
  Tried (ok diffs) u before after = Sound u before after
  Tried (err e) u before after = after.outcome ≢ copied

  abbrev Ended : Result (Unit {0}) → Relation (Unit {0})
  Ended (ok v) u before after = before ≡ after
  Ended (err e) u before after = after.outcome ≢ copied
