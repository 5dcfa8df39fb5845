-- ===== src/Transfer/Copying/Counted.antt =====
-- What copying adds to the counts of the report.
use re_infra.Base.{
  ℕ, zero, suc, ◌+◌, ◌-◌, ◌≤◌, ◌≡◌, refl, ◌∙◌, String, true, Option, none, some, List, [], ◌∷◌,
  arith, length, is_nil, if◌then◌else◌,
}
use re_infra.Aws.{copy_failed, still_running, ok}
use re_infra.Calls.{TableArn, ScanPage, Call, Answer, History, Client}
use re_infra.Transfer.{Report, Job, give, throw, update, ask, ◌then◌}
use re_infra.Transfer.Relates.{
  Relates, Relates-give, Relates-throw, Relates-if, Relates-update, Relates-ask, Relates-then,
}
use re_infra.Transfer.Copying.{
  slices, next_key, go_on, write_attempts, write_batch, write_batches, copy_pages, add_scanned,
  add_written, add_retry, add_failed, backoff, max_attempts,
}
use re_infra.Transfer.Copying.Slices.{lengths, lengths-slices}

-- What BatchWriteItem promises: it leaves no more unprocessed than it was given.
pub record Honest (client : Client) : Type 0 where
  pub fewer :
      (past : History) (table : TableArn) (items left : List String)
      → client.reply past (Call.put_batch table items) ≡ ok left
      → length left ≤ length items

-- So many were scanned; of so many that were to be written, so many are left. Nothing failed.
pub record Moves (scanned due left : ℕ) (before after : Report) : Type 0 where
  pub more_scanned : after.counts.scanned ≡ before.counts.scanned + scanned
  pub more_written : after.counts.written + left ≡ before.counts.written + due
  pub same_failed : after.counts.failed ≡ before.counts.failed
  pub same_total : after.counts.source_total ≡ before.counts.source_total

Moves-none : (report : Report) → Moves 0 0 0 report report
Moves-none report = record {
  more_scanned = omega arith;
  more_written = omega arith;
  same_failed = refl;
  same_total = refl;
}

-- One after the other.
Moves-both :
    (s due s2 due2 s3 due3 : ℕ) (before mid after : Report)
    → s3 ≡ s + s2
    → due3 ≡ due + due2
    → Moves s due 0 before mid
    → Moves s2 due2 0 mid after
    → Moves s3 due3 0 before after
Moves-both s due s2 due2 s3 due3 before mid after p q a b = record {
  more_scanned = omega (arith, p, a.more_scanned, b.more_scanned);
  more_written = omega (arith, q, a.more_written, b.more_written);
  same_failed = b.same_failed ∙ a.same_failed;
  same_total = b.same_total ∙ a.same_total;
}

-- What the first left, the second writes.
Moves-rest :
    (due left : ℕ) (before mid after : Report)
    → Moves 0 due left before mid
    → Moves 0 left 0 mid after
    → Moves 0 due 0 before after
Moves-rest due left before mid after a b = record {
  more_scanned = omega (arith, a.more_scanned, b.more_scanned);
  more_written = omega (arith, a.more_written, b.more_written);
  same_failed = b.same_failed ∙ a.same_failed;
  same_total = b.same_total ∙ a.same_total;
}

-- A job that moves so many, where it returns.
abbrev pub JobMoves : ℕ → ℕ → ℕ → Job (Unit {0}) → Type 0
JobMoves s due left m = Relates (λ _. Moves s due left) m

module _ (client : Client) (honest : Honest client) where
  written_some :
      (sent left : ℕ) (report : Report)
      → left ≤ sent
      → Moves 0 sent left report (add_written sent left report)
  unfolding add_written
  written_some sent left report h = record {
    more_scanned = omega arith;
    more_written = omega (arith, h);
    same_failed = refl;
    same_total = refl;
  }

  asked : (c : Call) → Relates {A = Answer c} (λ _. Moves 0 0 0) (ask client c)
  asked c = Relates-ask client c (λ _. Moves 0 0 0) (λ report past a h. Moves-none report)

  retried : JobMoves 0 0 0 (update add_retry)
  unfolding add_retry
  retried =
      Relates-update (λ _. Moves 0 0 0) add_retry
        (λ report. record {
          more_scanned = omega arith;
          more_written = omega arith;
          same_failed = refl;
          same_total = refl;
        })

  nil_moves : (left : List String) → is_nil left ≡ true → JobMoves 0 (length left) 0 (give tt)
  nil_moves [] h = Relates-give (λ _. Moves 0 0 0) tt Moves-none
  nil_moves (x ∷ left) h = cc

  raised :
      (f : Report → Report) (n due : ℕ)
      → JobMoves 0 due 0 (update f then λ _. throw (copy_failed n))
  raised f n due =
      Relates-then (λ _ _ _. Unit) (λ _ _ _ _. ⊥) (λ _. Moves 0 due 0) (update f)
        (λ _. throw (copy_failed n)) (Relates-update (λ _ _ _. Unit) f (λ report. tt))
        (λ _. Relates-throw (λ _ _ _. ⊥) (copy_failed n))
        (λ _ _ before mid after _ none. absurd none)

  -- One job and then another.
  then_move :
      {A : Type 0} (s due s2 due2 s3 due3 : ℕ) (m : Job A) (f : A → Job (Unit {0}))
      → s3 ≡ s + s2
      → due3 ≡ due + due2
      → Relates (λ _. Moves s due 0) m
      → ((a : A) → JobMoves s2 due2 0 (f a))
      → JobMoves s3 due3 0 (m then f)
  then_move s due s2 due2 s3 due3 m f p q k g =
      Relates-then (λ _. Moves s due 0) (λ _ _. Moves s2 due2 0) (λ _. Moves s3 due3 0) m f k g
        (λ _ _ before mid after. Moves-both s due s2 due2 s3 due3 before mid after p q)

  module _ (left : ℕ) (table : TableArn)
      (more : (items : List String)
        → JobMoves 0 (length items) 0 (write_attempts client left table items)) where
    again :
        (items : List String)
        → JobMoves 0 (length items) 0 (
            update add_retry then λ _.
            ask client (Call.sleep (backoff (max_attempts - suc left))) then λ _.
            write_attempts client left table items)
    again items =
        then_move 0 0 0 (length items) 0 (length items) (update add_retry) _ (omega arith)
          (omega arith) retried
          (λ _.
            then_move 0 0 0 (length items) 0 (length items)
              (ask client (Call.sleep (backoff (max_attempts - suc left)))) _ (omega arith)
              (omega arith) (asked (Call.sleep (backoff (max_attempts - suc left))))
              (λ _. more items))

    -- What follows the answer to a batch write.
    answered :
        (items unprocessed : List String)
        → Relates
            (λ _ before after.
              length unprocessed ≤ length items → Moves 0 (length items) 0 before after)
            (update (add_written (length items) (length unprocessed)) then λ _.
              if is_nil unprocessed
              then give tt
              else (update add_retry then λ _.
                  ask client (Call.sleep (backoff (max_attempts - suc left))) then λ _.
                  write_attempts client left table unprocessed))
    answered items unprocessed =
        Relates-then
          (λ _ before after.
            length unprocessed ≤ length items
            → Moves 0 (length items) (length unprocessed) before after)
          (λ _ _. Moves 0 (length unprocessed) 0)
          (λ _ before after.
            length unprocessed ≤ length items → Moves 0 (length items) 0 before after)
          (update (add_written (length items) (length unprocessed))) _
          (Relates-update
            (λ _ before after.
              length unprocessed ≤ length items
              → Moves 0 (length items) (length unprocessed) before after)
            (add_written (length items) (length unprocessed))
            (λ report few. written_some (length items) (length unprocessed) report few))
          (λ _.
            Relates-if (λ _. Moves 0 (length unprocessed) 0) (is_nil unprocessed) (give tt) _
              (nil_moves unprocessed) (λ _. again unprocessed))
          (λ _ _ before mid after a b few.
            Moves-rest (length items) (length unprocessed) before mid after (a few) b)

  attempts_move :
      (left : ℕ) (table : TableArn) (items : List String)
      → JobMoves 0 (length items) 0 (write_attempts client left table items)
  unfolding write_attempts
  attempts_move zero table items = raised (add_failed (length items)) (length items) (length items)
  attempts_move (suc left) table items =
      Relates-then
        (λ unprocessed before after. (length unprocessed ≤ length items) × Moves 0 0 0 before after)
        (λ unprocessed _ before after.
          length unprocessed ≤ length items → Moves 0 (length items) 0 before after)
        (λ _. Moves 0 (length items) 0) (ask client (Call.put_batch table items)) _
        (Relates-ask client (Call.put_batch table items) _ (λ report past unprocessed h.
          (honest.fewer past table items unprocessed h, Moves-none report)))
        (λ unprocessed. answered left table (attempts_move left table) items unprocessed)
        (λ unprocessed _ before mid after (few, a) b.
          Moves-both 0 0 0 (length items) 0 (length items) before mid after (omega arith)
            (omega arith) a (b few))

  batches_move :
      (table : TableArn) (batches : List (List String))
      → JobMoves 0 (lengths batches) 0 (write_batches client table batches)
  unfolding write_batches write_batch
  batches_move table [] = Relates-give (λ _. Moves 0 0 0) tt Moves-none
  batches_move table (batch ∷ batches) =
      then_move 0 (length batch) 0 (lengths batches) 0 (lengths (batch ∷ batches))
        (write_attempts client max_attempts table batch) _ (omega arith) refl
        (attempts_move max_attempts table batch) (λ _. batches_move table batches)

  scan-Moves :
      (n : ℕ) → Relates (λ _ before after. Moves n 0 0 before after) (update (add_scanned n))
  unfolding add_scanned
  scan-Moves n =
      Relates-update (λ _. Moves n 0 0) (add_scanned n)
        (λ report. record {
          more_scanned = refl;
          more_written = omega arith;
          same_failed = refl;
          same_total = refl;
        })

  -- As many were written as were scanned.
  abbrev pub Level : Report → Report → Type 0
  Level before after = (n : ℕ) × Moves n n 0 before after

  go_on-Level :
      (more : String → Job (Unit {0})) (key : Option String)
      → ((k : String) → Relates (λ _. Level) (more k))
      → Relates (λ _. Level) (go_on more key)
  unfolding go_on
  go_on-Level more none k = Relates-give (λ _. Level) tt (λ report. (0, Moves-none report))
  go_on-Level more (some key) k = k key

  -- A page, given what is known of the next ones.
  page-Level :
      (target : TableArn) (page : ScanPage) (next : Job (Unit {0}))
      → Relates (λ _. Level) next
      → Relates
          (λ _. Level)
          (update (add_scanned (length page.items)) then λ _.
            write_batches client target (slices (length page.items) page.items) then λ _. next)
  page-Level target page next k =
      let n = length page.items in
      let batches = slices n page.items in
      Relates-then (λ _. Moves n 0 0) (λ _ _ before after. (m : ℕ) × Moves m (n + m) 0 before after)
        (λ _. Level) (update (add_scanned n)) _ (scan-Moves n)
        (λ _.
          Relates-then (λ _. Moves 0 (lengths batches) 0) (λ _ _. Level)
            (λ _ before after. (m : ℕ) × Moves m (n + m) 0 before after)
            (write_batches client target batches) (λ _. next) (batches_move target batches) (λ _. k)
            (λ _ _ before mid after a (m, b). (
              m,
              Moves-both 0 (lengths batches) m m m (n + m) before mid after (omega arith)
                  (omega (arith, lengths-slices page.items)) a b,
            )))
        (λ _ _ before mid after a (m, b).
          (n + m, Moves-both n 0 m (n + m) (n + m) (n + m) before mid after refl (omega arith) a b))

  pub pages-Level :
      (pages : ℕ) (source target : TableArn) (start : Option String)
      → Relates (λ _. Level) (copy_pages client pages source target start)
  unfolding copy_pages
  pages-Level zero source target start = Relates-throw (λ _. Level) still_running
  pages-Level (suc pages) source target start =
      Relates-then (λ _. Moves 0 0 0) (λ _ _. Level) (λ _. Level)
        (ask client (Call.scan_page source start)) _ (asked (Call.scan_page source start))
        (λ page. page-Level target page _ (
          go_on-Level (λ key. copy_pages client pages source target (some key))
            (next_key page.last_key) (λ key. pages-Level pages source target (some key))))
        (λ _ _ before mid after a (m, b).
          (m, Moves-both 0 0 m m m m before mid after (omega arith) (omega arith) a b))
