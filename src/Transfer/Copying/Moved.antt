-- ===== src/Transfer/Copying/Moved.antt =====
-- What the calls of a copy moved, and that the report counts it.
use re_infra.Base.{
  ℕ, zero, suc, ◌+◌, ◌-◌, ◌≤◌, ◌≡◌, refl, String, Bool, true, false, Option, none, some, List, [],
  ◌∷◌, ◌==◌, arith, length, is_nil, if◌then◌else◌,
}
use package.text.Mathlib.TextPositions.{eq_refl}
use re_infra.Aws.{Result, ok, err}
use re_infra.Calls.{TableArn, ScanPage, Call, History, Client}
use re_infra.Transfer.{Report, Job, update, ask, ◌then◌}
use re_infra.Transfer.Meets.{
  State, Meets, Meets-update, Meets-ask, Meets-then, Stays, Stays-give, Stays-if, Stays-then,
  stays_rules,
}
use re_infra.Transfer.Copying.{
  slices, next_key, go_on, write_attempts, write_batch, write_batches, copy_pages, add_scanned,
  add_written, add_retry, add_failed, backoff, max_attempts,
}
use re_infra.Transfer.Copying.Counted.{Honest}

-- Neither scans a page nor puts items.
abbrev pub is_quiet : Call → Bool
is_quiet (Call.scan_page table start) = false
is_quiet (Call.put_batch table items) = false
is_quiet _ = true

module _ (client : Client) where
  abbrev taken : List String → Result (List String) → ℕ
  taken items (ok left) = length items - length left
  taken items (err e) = 0

  abbrev held : Result ScanPage → ℕ
  held (ok page) = length page.items
  held (err e) = 0

  -- How many items AWS took for a table, of all that were put into it.
  abbrev pub accepted : TableArn → History → ℕ
  accepted table [] = 0
  accepted table (Call.put_batch into items ∷ past) =
      let rest = accepted table past in
      if into.arn == table.arn
      then taken items (client.reply past (Call.put_batch into items)) + rest
      else rest
  accepted table (c ∷ past) = accepted table past

  -- How many items the scans of a table returned.
  abbrev pub fetched : TableArn → History → ℕ
  fetched table [] = 0
  fetched table (Call.scan_page from start ∷ past) =
      let rest = fetched table past in
      if from.arn == table.arn
      then held (client.reply past (Call.scan_page from start)) + rest
      else rest
  fetched table (c ∷ past) = fetched table past

  module _ (honest : Honest client) (source target : TableArn)
      (taken_before fetched_before : ℕ) where
    -- The report counts what the target took and what the source gave, since it was begun.
    abbrev pub Balanced : State
    Balanced report past =
        (accepted target past ≡ taken_before + report.counts.written)
        × (fetched source past ≡ fetched_before + report.counts.scanned)

    pub quiet : (c : Call) → is_quiet c ≡ true → Stays Balanced (ask client c)
    quiet c h = record {
      stays =
          Meets-ask client c (λ _. Balanced) (λ report past a b e. same c h report past b)
            (λ report past x b e. same c h report past b);
    }
      where
        same :
            (c : Call)
            → is_quiet c ≡ true
            → (report : Report) (past : History) → Balanced report past
            → Balanced report (c ∷ past)
        same (Call.scan_page table start) h report past b = cc
        same (Call.put_batch table items) h report past b = cc
        same _ h report past b = b

    -- The target took items that are not counted yet.
    abbrev Owes : List String → List String → State
    Owes items left report past =
        (length left ≤ length items)
        × (accepted target past + length left ≡ taken_before + report.counts.written + length items)
        × (fetched source past ≡ fetched_before + report.counts.scanned)

    put_owes :
        (items : List String)
        → Meets Balanced Balanced (ask client (Call.put_batch target items)) (Owes items)
    put_owes items =
        Meets-ask client (Call.put_batch target items) (Owes items)
          (λ report past left (a, b) e.
            let few = honest.fewer past target items left e in
            (few, rw (eq_refl target.arn, e) (omega (arith, few, a)), b))
          (λ report past x (a, b) e. (rw (eq_refl target.arn, e) (omega (arith, a)), b))

    settled :
        (items left : List String)
        → Meets Balanced
            (Owes items left)
            (update (add_written (length items) (length left)))
            (λ _. Balanced)
    unfolding add_written
    settled items left =
        Meets-update (λ _. Balanced) (add_written (length items) (length left))
          (λ report past (few, a, b). (omega (arith, few, a), b))

    retried : Stays Balanced (update add_retry)
    unfolding add_retry
    retried = record { stays = Meets-update (λ _. Balanced) add_retry (λ report past b. b) }

    failed : (n : ℕ) → Stays Balanced (update (add_failed n))
    unfolding add_failed
    failed n = record { stays = Meets-update (λ _. Balanced) (add_failed n) (λ report past b. b) }

    attempts-Balanced :
        (left : ℕ) (items : List String) → Stays Balanced (write_attempts client left target items)
    unfolding write_attempts
    attempts-Balanced zero items = search (stays_rules, failed)
    attempts-Balanced (suc left) items =
        let more = attempts-Balanced left in
        let slept = quiet (Call.sleep (backoff (max_attempts - suc left))) refl in
        let rest = λ (unprocessed : List String).
          Stays-if (is_nil unprocessed) _ _ (Stays-give {I = Balanced} tt) (
            Stays-then (update add_retry) _ retried (λ _.
              Stays-then (ask client (Call.sleep (backoff (max_attempts - suc left)))) _ slept
                (λ _. more unprocessed))) in
        record {
          stays =
              Meets-then (Owes items) (λ _. Balanced) (ask client (Call.put_batch target items)) _
                (put_owes items)
                (λ unprocessed.
                  Meets-then (λ _. Balanced) (λ _. Balanced)
                    (update (add_written (length items) (length unprocessed))) _
                    (settled items unprocessed) (λ _. (rest unprocessed).stays));
        }

    batches-Balanced :
        (batches : List (List String)) → Stays Balanced (write_batches client target batches)
    unfolding write_batches write_batch
    batches-Balanced [] = search (stays_rules)
    batches-Balanced (batch ∷ batches) =
        let more = batches-Balanced batches in search (stays_rules, attempts-Balanced)

    -- The source gave a page that is not counted yet.
    abbrev Holds : ScanPage → State
    Holds page report past =
        (accepted target past ≡ taken_before + report.counts.written)
        × (fetched source past ≡ fetched_before + report.counts.scanned + length page.items)

    scan_holds :
        (start : Option String)
        → Meets Balanced Balanced (ask client (Call.scan_page source start)) Holds
    scan_holds start =
        Meets-ask client (Call.scan_page source start) Holds
          (λ report past page (a, b) e. (a, rw (eq_refl source.arn, e) (omega (arith, b))))
          (λ report past x (a, b) e. (a, rw (eq_refl source.arn, e) (omega (arith, b))))

    scanned :
        (page : ScanPage)
        → Meets Balanced (Holds page) (update (add_scanned (length page.items))) (λ _. Balanced)
    unfolding add_scanned
    scanned page =
        Meets-update (λ _. Balanced) (add_scanned (length page.items))
          (λ report past (a, b). (a, omega (arith, b)))

    go_on-Balanced :
        (more : String → Job (Unit {0})) (key : Option String)
        → ((k : String) → Stays Balanced (more k))
        → Stays Balanced (go_on more key)
    unfolding go_on
    go_on-Balanced more none k = search (stays_rules)
    go_on-Balanced more (some key) k = k key

    pub pages-Balanced :
        (pages : ℕ) (start : Option String)
        → Stays Balanced (copy_pages client pages source target start)
    unfolding copy_pages
    pages-Balanced zero start = search (stays_rules)
    pages-Balanced (suc pages) start =
        let rest = λ (page : ScanPage).
          Stays-then (write_batches client target (slices (length page.items) page.items)) _
            (batches-Balanced (slices (length page.items) page.items))
            (λ _.
              go_on-Balanced (λ key. copy_pages client pages source target (some key))
                (next_key page.last_key) (λ key. pages-Balanced pages (some key))) in
        record {
          stays =
              Meets-then Holds (λ _. Balanced) (ask client (Call.scan_page source start)) _
                (scan_holds start)
                (λ page.
                  Meets-then (λ _. Balanced) (λ _. Balanced)
                    (update (add_scanned (length page.items))) _ (scanned page)
                    (λ _. (rest page).stays));
        }
