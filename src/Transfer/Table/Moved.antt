-- ===== src/Transfer/Table/Moved.antt =====
-- That the report of a transfer counts what its calls moved.
use re_infra.Base.{subst, sym, true, ℕ, ◌+◌, ◌≡◌, refl, arith, Bool, none, List}
use re_infra.Aws.{client_error, copy_failed, interrupted, Result, ok, err}
use re_infra.Calls.{TableArn, Call, History, Client}
use re_infra.Transfer.{Diff, Reason, Report, refuse, fail, ask, update, rescue, ◌then◌}
use re_infra.Transfer.Meets.{State, Settled, Meets-update, Stays, stays_rules}
use re_infra.Transfer.Copying.{copy_items}
use re_infra.Transfer.Copying.Counted.{Honest}
use re_infra.Transfer.Copying.Moved.{is_quiet, accepted, fetched, Balanced, quiet, pages-Balanced}
use re_infra.Transfer.Table.{
  initial, set_diffs, set_source_total, set_target_total, judge, mark_interrupted, count,
  read_diffs, after_copy, copy_checked, check_target, check_diffs, check_accounts, run_transfer,
  after_transfer, transfer_table,
}

-- The scans of the source gave so many items since then, and the target took as many.
pub record IsMoved (client : Client) (source target : TableArn) (past now : History) (n : ℕ)
    : Type 0 where
  pub given : fetched client source now ≡ fetched client source past + n
  pub taken : accepted client target now ≡ accepted client target past + n

module _ (client : Client) (honest : Honest client) (source target : TableArn)
    (taken_before fetched_before : ℕ) where
  abbrev Even : State
  Even = Balanced client honest source target taken_before fetched_before

  asked : (c : Call) → is_quiet c ≡ true → Stays Even (ask client c)
  asked c h = quiet client honest source target taken_before fetched_before c h

  -- An update that leaves both counts.
  abbrev Leaves : (Report → Report) → Type 0
  Leaves f =
      (report : Report)
      → ((f report).counts.written ≡ report.counts.written)
        × ((f report).counts.scanned ≡ report.counts.scanned)

  left_even : (f : Report → Report) → Leaves f → Stays Even (update f)
  left_even f k = record {
    stays =
        Meets-update (λ _. Even) f
          (λ report past (a, b).
            let (w, s) = k report in
            (
              subst (λ n. accepted client target past ≡ taken_before + n) (sym w) a,
              subst (λ n. fetched client source past ≡ fetched_before + n) (sym s) b,
            ));
  }

  refused : (reason : Reason) → Stays Even (update (refuse reason))
  unfolding refuse
  refused reason = left_even (refuse reason) (λ report. (refl, refl))

  failed : (reason : Reason) → Stays Even (update (fail reason))
  unfolding fail
  failed reason = left_even (fail reason) (λ report. (refl, refl))

  diffs_set : (diffs : List Diff) → Stays Even (update (set_diffs diffs))
  unfolding set_diffs
  diffs_set diffs = left_even (set_diffs diffs) (λ report. (refl, refl))

  source_set : (n : ℕ) → Stays Even (update (set_source_total n))
  unfolding set_source_total
  source_set n = left_even (set_source_total n) (λ report. (refl, refl))

  target_set : (n : ℕ) → Stays Even (update (set_target_total n))
  unfolding set_target_total
  target_set n = left_even (set_target_total n) (λ report. (refl, refl))

  judged : (n m : ℕ) → Stays Even (update (judge n m))
  unfolding judge fail
  judged n m = left_even (judge n m) (λ report. (ground arith, ground arith))

  stopped : Stays Even (update mark_interrupted)
  stopped = left_even mark_interrupted (λ report. (refl, refl))

  count-Even : (table : TableArn) → Stays Even (count client table)
  unfolding count
  count-Even table = let pages = asked (Call.count_pages table) refl in search (stays_rules)

  after_copy-Even : (n : ℕ) (r : Result (Unit {0})) → Stays Even (after_copy client target n r)
  unfolding after_copy
  after_copy-Even n (ok u) = search (stays_rules, count-Even, target_set, judged)
  after_copy-Even n (err (copy_failed k)) = failed _
  after_copy-Even n (err e) = search (stays_rules)

  module _ (pages : ℕ) (applying : Bool) where
    copied_even :
        (n : ℕ)
        → Stays Even
            (rescue (copy_items client pages source target) then λ r. after_copy client target n r)
    unfolding copy_items
    copied_even n =
        let copy =
          pages-Balanced client honest source target taken_before fetched_before pages none in
        search (stays_rules, after_copy-Even)

    copy_checked-Even : Stays Even (copy_checked client pages applying source target)
    unfolding copy_checked
    copy_checked-Even = search (stays_rules, count-Even, source_set, copied_even)

    check_target-Even : Stays Even (check_target client pages applying source target)
    unfolding check_target
    check_target-Even =
        let first = asked (Call.scan_first target) refl in
        search (stays_rules, refused, copy_checked-Even)

    check_diffs-Even :
        (r : Result (List Diff)) → Stays Even (check_diffs client pages applying source target r)
    unfolding check_diffs
    check_diffs-Even (ok diffs) = search (stays_rules, diffs_set, refused, check_target-Even)
    check_diffs-Even (err (client_error code message)) = search (stays_rules, refused)
    check_diffs-Even (err e) = search (stays_rules)

    read_diffs-Even : Stays Even (read_diffs client source target)
    unfolding read_diffs
    read_diffs-Even =
        let config = λ (t : TableArn). asked (Call.canonical_config t) refl in
        let advice = λ (t : TableArn). asked (Call.advisory_config t) refl in
        search (stays_rules, config, advice) depth 9

    check_accounts-Even : Stays Even (check_accounts client pages applying source target)
    unfolding check_accounts
    check_accounts-Even =
        let caller = asked Call.caller_account refl in
        search (stays_rules, refused, read_diffs-Even, check_diffs-Even) depth 8

    run_transfer-Even : Stays Even (run_transfer client pages applying source target)
    unfolding run_transfer
    run_transfer-Even = search (stays_rules, refused, check_accounts-Even)

    after_transfer-Even : (r : Result (Unit {0})) → Stays Even (after_transfer r)
    unfolding after_transfer
    after_transfer-Even (ok u) = search (stays_rules)
    after_transfer-Even (err interrupted) = stopped
    after_transfer-Even (err e) = search (stays_rules)

    transfer_table-Even : Stays Even (transfer_table client pages applying source target)
    unfolding transfer_table
    transfer_table-Even = search (stays_rules, run_transfer-Even, after_transfer-Even)

counted :
    (client : Client) (honest : Honest client) (source target : TableArn) (applying : Bool)
    (past : History) (report : Report) (r : Result (Result (Unit {0}) × Report)) (now : History)
    → r ≡ ok (ok tt, report)
    → report.counts.written ≡ report.counts.scanned
    → Settled
        (Even client honest source target
          (accepted client target past)
          (fetched client source past))
        (λ (_ : Unit {0}).
          Even client honest source target
            (accepted client target past)
            (fetched client source past))
        r
        now
    → IsMoved client source target past now report.counts.scanned
counted client honest source target applying past report r now same level h =
    let Before : State =
      Even client honest source target (accepted client target past) (fetched client source past) in
    let (taken, given) : Before report now =
      subst (λ x. Settled Before (λ (_ : Unit {0}). Before) x now) same h in
    record {
      given = given;
      taken = subst (λ n. accepted client target now ≡ accepted client target past + n) level taken;
    }

module _ (client : Client) (honest : Honest client) (pages : ℕ) (source target : TableArn) where
  -- What the report has counted, AWS was asked for.
  pub transfer_table_moved :
      (applying : Bool) (past : History) (report : Report)
      → (transfer_table client pages applying source target (initial applying) past).0
        ≡ ok (ok tt, report)
      → report.counts.written ≡ report.counts.scanned
      → IsMoved client source target past
          (transfer_table client pages applying source target (initial applying) past).1
          report.counts.scanned
  transfer_table_moved applying past report h level =
      counted client honest source target applying past report
        (transfer_table client pages applying source target (initial applying) past).0
        (transfer_table client pages applying source target (initial applying) past).1 h level
        ((transfer_table-Even client honest source target (accepted client target past)
            (fetched client source past) pages applying).stays.at
          (initial applying) past (omega arith, omega arith))
