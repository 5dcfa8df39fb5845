-- ===== src/Transfer/Table.antt =====
-- src/rc_infra/transfer/jobs.py: the transfer of a table.
pub mod Safety
pub mod Moved
pub mod Copied
pub mod Exact
pub mod Tests
use re_infra.Base.{
  ℕ, zero, suc, ◌+◌, String, Bool, true, false, ◌&&◌, not, Option, none, some, List, [], ◌∷◌, ◌++◌,
  ◌==◌, text_leb, if◌then◌else◌, is_nil, any_of, elem, keep_if, num_eq,
}
use re_infra.Base.Sorting.{sort_by}
use re_infra.Aws.{client_error, copy_failed, interrupted, Error, Result, ok, err}
use re_infra.Calls.{TableArn, Call, Client}
use re_infra.Schema.Shape.{distinct}
use re_infra.Transfer.{
  Outcome, copied, Diff, Counts, Reason, same_table, foreign_account, table_not_found,
  configs_differ, target_not_empty, unprocessed, target_differs, source_changed, was_interrupted,
  Report, refuse, fail, Job, give, throw, update, ask, ◌then◌, rescue,
}
use re_infra.Transfer.Configs.{diff}
use re_infra.Transfer.Copying.{copy_items}

abbrev pub initial : Bool → Report
initial applying = record {
  apply = applying;
  outcome = Outcome.checked;
  reasons = [];
  diffs = [];
  counts = record {
    scanned = 0;
    written = 0;
    retries = 0;
    failed = 0;
    source_total = none;
    target_total = none;
  };
}

-- The accounts of the ARNs that are not the caller's.
unfoldable pub foreign_accounts : String → TableArn → TableArn → List String
unfolding distinct sort_by
foreign_accounts account source target =
    sort_by text_leb
      (keep_if (λ a. not (a == account)) (distinct (source.account ∷ target.account ∷ [])))

unfoldable pub set_diffs : List Diff → Report → Report
set_diffs diffs report = record report { diffs = diffs }

unfoldable pub set_source_total : ℕ → Report → Report
set_source_total n report = record report {
  counts = record report.counts { source_total = some n };
}

unfoldable pub set_target_total : ℕ → Report → Report
set_target_total n report = record report {
  counts = record report.counts { target_total = some n };
}

-- `sum(page["Count"])`
abbrev pub total : List ℕ → ℕ
total [] = 0
total (n ∷ ns) = n + total ns

-- What is made of the counts of a copy that ended.
unfoldable pub judge : ℕ → ℕ → Report → Report
unfolding fail
judge source_total target_total report =
    if not (num_eq target_total report.counts.scanned)
    then fail (target_differs target_total report.counts.scanned) report
    else if not (num_eq report.counts.scanned source_total)
    then fail (source_changed source_total report.counts.scanned) report
    else record report { outcome = copied }

abbrev pub mark_interrupted : Report → Report
mark_interrupted report = record report {
  outcome = Outcome.interrupted;
  reasons = report.reasons ++ (was_interrupted report.counts.written ∷ []);
}

unfoldable pub after_transfer : Result (Unit {0}) → Job (Unit {0})
after_transfer (ok u) = give tt
after_transfer (err interrupted) = update mark_interrupted
after_transfer (err e) = throw e

module _ (client : Client) where
  unfoldable pub count : TableArn → Job ℕ
  count table = ask client (Call.count_pages table) then λ pages. give (total pages)

  unfoldable pub read_diffs : TableArn → TableArn → Job (List Diff)
  unfolding diff
  read_diffs source target = ask client (Call.canonical_config source) then λ source_config.
      ask client (Call.canonical_config target) then λ target_config.
      ask client (Call.advisory_config source) then λ source_advice.
      ask client (Call.advisory_config target) then λ target_advice.
      give (diff true source_config target_config ++ diff false source_advice target_advice)

  -- What follows `copy_items`.
  unfoldable pub after_copy : TableArn → ℕ → Result (Unit {0}) → Job (Unit {0})
  unfolding fail count set_target_total judge
  after_copy target source_total (ok u) =
      count target then λ n. update (set_target_total n) then λ _. update (judge source_total n)
  after_copy target source_total (err (copy_failed n)) = update (fail (unprocessed n))
  after_copy target source_total (err e) = throw e

  -- The checks have passed.
  unfoldable pub copy_checked : ℕ → Bool → TableArn → TableArn → Job (Unit {0})
  unfolding count set_source_total copy_items after_copy
  copy_checked pages applying source target = count source then λ source_total.
      update (set_source_total source_total) then λ _.
      if not applying
      then give tt
      else (rescue (copy_items client pages source target) then λ r.
          after_copy target source_total r)

  unfoldable pub check_target : ℕ → Bool → TableArn → TableArn → Job (Unit {0})
  unfolding copy_checked refuse
  check_target pages applying source target = ask client (Call.scan_first target) then λ found.
      if num_eq found 0
      then copy_checked pages applying source target
      else update (refuse target_not_empty)

  unfoldable pub check_diffs : ℕ → Bool → TableArn → TableArn → Result (List Diff) → Job (Unit {0})
  unfolding check_target refuse set_diffs
  check_diffs pages applying source target (ok diffs) = update (set_diffs diffs) then λ _.
      if any_of (λ (d : Diff). d.blocking) diffs
      then update (refuse configs_differ)
      else check_target pages applying source target
  check_diffs pages applying source target (err (client_error code message)) =
      if code == "ResourceNotFoundException"
      then update (refuse (table_not_found message))
      else throw (client_error code message)
  check_diffs pages applying source target (err e) = throw e

  unfoldable pub check_accounts : ℕ → Bool → TableArn → TableArn → Job (Unit {0})
  unfolding check_diffs read_diffs foreign_accounts refuse
  check_accounts pages applying source target = ask client Call.caller_account then λ account.
      if is_nil (foreign_accounts account source target)
      then (rescue (read_diffs source target) then λ r. check_diffs pages applying source target r)
      else update (refuse (foreign_account account (foreign_accounts account source target)))

  -- `_transfer_table`
  unfoldable pub run_transfer : ℕ → Bool → TableArn → TableArn → Job (Unit {0})
  unfolding check_accounts refuse
  run_transfer pages applying source target =
      if source.arn == target.arn
      then update (refuse same_table)
      else check_accounts pages applying source target

  unfoldable pub transfer_table : ℕ → Bool → TableArn → TableArn → Job (Unit {0})
  unfolding run_transfer after_transfer
  transfer_table pages applying source target =
      rescue (run_transfer pages applying source target) then λ r. after_transfer r
