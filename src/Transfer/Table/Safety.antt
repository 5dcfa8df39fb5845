-- ===== src/Transfer/Table/Safety.antt =====
-- What the transfer of a table may call.
use re_infra.Base.{
  ℕ, zero, suc, String, ◌≡◌, refl, Bool, true, false, not, Option, none, some, List, [], ◌∷◌, All,
  length,
}
use re_infra.Aws.{client_error, copy_failed, interrupted, Result, ok, err}
use re_infra.Calls.{TableArn, Call, Client, is_read, AllowsReads}
use re_infra.Action.Keeps.{Keeps-All}
use re_infra.Transfer.{Diff, Job, ask, update, rescue, ◌then◌}
use re_infra.Transfer.Keeps.{JobKeeps, JobKeeps-ask, JobKeeps-then, JobKeeps-update, job_rules}
use re_infra.Transfer.Copying.{
  slices, next_key, go_on, write_attempts, write_batch, write_batches, copy_pages, copy_items,
  add_scanned,
}
use re_infra.Transfer.Table.{
  initial, count, read_diffs, after_copy, copy_checked, check_target, check_diffs, check_accounts,
  run_transfer, after_transfer, transfer_table,
}

-- Items are put into the target only, and only with --apply; everything else only reads.
abbrev pub IsTransfer : Bool → TableArn → Call → Type 0
IsTransfer applying target (Call.put_batch table items) = (applying ≡ true) × (table ≡ target)
IsTransfer applying target c = is_read c ≡ true

reads : (applying : Bool) (target : TableArn) → AllowsReads (IsTransfer applying target)
reads applying target = record { allows = allows }
  where
    allows : (c : Call) → is_read c ≡ true → IsTransfer applying target c
    allows (Call.put_batch table items) h = cc
    allows _ h = h

module _ (client : Client) (applying : Bool) (target : TableArn) where
  abbrev Allowed : {A : Type 0} → Job A → Type 0
  Allowed = JobKeeps (IsTransfer applying target)

  reading : (c : Call) → is_read c ≡ true → Allowed (ask client c)
  reading c h = JobKeeps-ask client c ((reads applying target).allows c h)

  module _ (asked : applying ≡ true) where
    put : (items : List String) → Allowed (ask client (Call.put_batch target items))
    put items = JobKeeps-ask client (Call.put_batch target items) (asked, refl)

    attempts-Allowed :
        (left : ℕ) (items : List String) → Allowed (write_attempts client left target items)
    unfolding write_attempts
    attempts-Allowed zero items = search (job_rules)
    attempts-Allowed (suc left) items =
        let more = attempts-Allowed left in search (job_rules, put, reading) depth 9

    batches-Allowed : (batches : List (List String)) → Allowed (write_batches client target batches)
    unfolding write_batches write_batch
    batches-Allowed [] = search (job_rules)
    batches-Allowed (batch ∷ batches) =
        let more = batches-Allowed batches in search (job_rules, attempts-Allowed)

    go_on-Allowed :
        (more : String → Job (Unit {0})) (key : Option String)
        → ((k : String) → Allowed (more k))
        → Allowed (go_on more key)
    unfolding go_on
    go_on-Allowed more none k = search (job_rules)
    go_on-Allowed more (some key) k = k key

    pages-Allowed :
        (pages : ℕ) (source : TableArn) (start : Option String)
        → Allowed (copy_pages client pages source target start)
    unfolding copy_pages
    pages-Allowed zero source start = search (job_rules)
    pages-Allowed (suc pages) source start =
        JobKeeps-then (ask client (Call.scan_page source start)) _
          (reading (Call.scan_page source start) refl)
          (λ page.
            JobKeeps-then (update (add_scanned (length page.items))) _ (JobKeeps-update _) (λ _.
              JobKeeps-then (write_batches client target (slices (length page.items) page.items)) _
                (batches-Allowed (slices (length page.items) page.items))
                (λ _.
                  go_on-Allowed (λ key. copy_pages client pages source target (some key))
                    (next_key page.last_key) (λ key. pages-Allowed pages source (some key)))))

  after_copy-Allowed : (n : ℕ) (r : Result (Unit {0})) → Allowed (after_copy client target n r)
  unfolding after_copy count
  after_copy-Allowed n (ok u) = search (job_rules, reading) depth 8
  after_copy-Allowed n (err (copy_failed k)) = search (job_rules)
  after_copy-Allowed n (err e) = search (job_rules)

  eq_true_of-not : (b : Bool) → not b ≡ false → b ≡ true
  eq_true_of-not true h = refl
  eq_true_of-not false h = cc

  copied-Allowed :
      (pages : ℕ) (source : TableArn) (n : ℕ)
      → not applying ≡ false
      → Allowed
          (rescue (copy_items client pages source target) then λ r. after_copy client target n r)
  unfolding copy_items
  copied-Allowed pages source n asked =
      let copy = pages-Allowed (eq_true_of-not applying asked) pages source none in
      search (job_rules, after_copy-Allowed)

  count-Allowed : (table : TableArn) → Allowed (count client table)
  unfolding count
  count-Allowed table = search (job_rules, reading)

  copy_checked-Allowed :
      (pages : ℕ) (source : TableArn) → Allowed (copy_checked client pages applying source target)
  unfolding copy_checked
  copy_checked-Allowed pages source = search (job_rules, count-Allowed, copied-Allowed)

  check_target-Allowed :
      (pages : ℕ) (source : TableArn) → Allowed (check_target client pages applying source target)
  unfolding check_target
  check_target-Allowed pages source = search (job_rules, reading, copy_checked-Allowed)

  check_diffs-Allowed :
      (pages : ℕ) (source : TableArn) (r : Result (List Diff))
      → Allowed (check_diffs client pages applying source target r)
  unfolding check_diffs
  check_diffs-Allowed pages source (ok diffs) = search (job_rules, check_target-Allowed)
  check_diffs-Allowed pages source (err (client_error code message)) = search (job_rules)
  check_diffs-Allowed pages source (err e) = search (job_rules)

  read_diffs-Allowed : (source : TableArn) → Allowed (read_diffs client source target)
  unfolding read_diffs
  read_diffs-Allowed source = search (job_rules, reading) depth 9

  check_accounts-Allowed :
      (pages : ℕ) (source : TableArn) → Allowed (check_accounts client pages applying source target)
  unfolding check_accounts
  check_accounts-Allowed pages source =
      search (job_rules, reading, read_diffs-Allowed, check_diffs-Allowed) depth 8

  run_transfer-Allowed :
      (pages : ℕ) (source : TableArn) → Allowed (run_transfer client pages applying source target)
  unfolding run_transfer
  run_transfer-Allowed pages source = search (job_rules, check_accounts-Allowed)

  after_transfer-Allowed : (r : Result (Unit {0})) → Allowed (after_transfer r)
  unfolding after_transfer
  after_transfer-Allowed (ok u) = search (job_rules)
  after_transfer-Allowed (err interrupted) = search (job_rules)
  after_transfer-Allowed (err e) = search (job_rules)

  transfer_table-Allowed :
      (pages : ℕ) (source : TableArn) → Allowed (transfer_table client pages applying source target)
  unfolding transfer_table
  transfer_table-Allowed pages source =
      search (job_rules, run_transfer-Allowed, after_transfer-Allowed)

  -- Whatever AWS answers, the transfer of a table only reads, and puts items into the target; these
  -- only with --apply.
  pub transfer_table-IsTransfer :
      (pages : ℕ) (source : TableArn)
      → All
          (IsTransfer applying target)
          (transfer_table client pages applying source target (initial applying) []).1
  transfer_table-IsTransfer pages source =
      Keeps-All _ [] ((transfer_table-Allowed pages source).kept (initial applying)) tt
