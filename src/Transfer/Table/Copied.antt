-- ===== src/Transfer/Table/Copied.antt =====
-- Once the target is known to be empty: the counts and the copy.
use re_infra.Base.{
  ℕ, ◌≡◌, ◌≢◌, refl, sym, ap, subst, ◌∙◌, inl, inr, Bool, true, not, none, some, arith, num_eq,
  if◌then◌else◌, Bool-cases,
}
use re_infra.Aws.{copy_failed, Result, ok, err}
use re_infra.Calls.{TableArn, Call, Client, Answer}
use re_infra.Transfer.{copied, Reason, Report, refuse, fail, Job, give, update, ask, rescue, ◌then◌}
use re_infra.Transfer.Relates.{
  Relation, Relates, OnOk, Relates-give, Relates-throw, Relates-if, Relates-update, Relates-ask,
  Relates-then, Relates-rescue,
}
use re_infra.Transfer.Copying.{copy_items}
use re_infra.Transfer.Copying.Counted.{Honest, Level, pages-Level}
use re_infra.Transfer.Table.{
  set_source_total, set_target_total, judge, count, total, after_copy, copy_checked, check_target,
}

-- Every item of the source was scanned and written, and the target has as many.
pub record IsExact (report : Report) : Type 0 where
  pub all_written : report.counts.written ≡ report.counts.scanned
  pub none_failed : report.counts.failed ≡ 0
  pub source_counted : report.counts.source_total ≡ some report.counts.scanned
  pub target_counted : report.counts.target_total ≡ some report.counts.scanned

-- Before anything is copied.
pub record IsFresh (report : Report) : Type 0 where
  pub unjudged : report.outcome ≢ copied
  pub none_scanned : report.counts.scanned ≡ 0
  pub none_written : report.counts.written ≡ 0
  pub none_failed : report.counts.failed ≡ 0

-- As many written as scanned, of a source with so many.
record IsLevel (n : ℕ) (report : Report) : Type 0 where
  all_written : report.counts.written ≡ report.counts.scanned
  none_failed : report.counts.failed ≡ 0
  source_counted : report.counts.source_total ≡ some n

abbrev pub Same : {A : Type 0} → Relation A
Same a before after = before ≡ after

abbrev pub Sound : Relation (Unit {0})
Sound u before after = IsFresh before → after.outcome ≡ copied → IsExact after

pub after_same :
    {A : Type 0} (R : Relation (Unit {0})) (m : Job A) (f : A → Job (Unit {0}))
    → Relates Same m
    → ((a : A) → Relates R (f a))
    → Relates R (m then f)
after_same R m f k g =
    Relates-then Same (λ _. R) R m f k g
      (λ _ b before mid after same r. subst (λ (x : Report). R b x after) (sym same) r)

pub asked : (client : Client) (c : Call) → Relates {A = Answer c} Same (ask client c)
asked client c = Relates-ask client c Same (λ report past a h. refl)

num_eq-eq : (a b : ℕ) → num_eq a b ≡ true → a ≡ b
num_eq-eq a b h = ground (arith, h)

abbrev Target : ℕ → ℕ → Report → Type 0
Target n m report = IsLevel n report × (report.counts.target_total ≡ some m)

targeted : (n m : ℕ) (report : Report) → IsLevel n report → Target n m (set_target_total m report)
unfolding set_target_total
targeted n m report level = (
  record {
    all_written = level.all_written;
    none_failed = level.none_failed;
    source_counted = level.source_counted;
  },
  refl,
)

judged :
    (n m : ℕ) (report : Report)
    → IsLevel n report
    → report.counts.target_total ≡ some m
    → (judge n m report).outcome ≡ copied
    → IsExact (judge n m report)
unfolding judge fail
judged n m report level target h = elim (Bool-cases (num_eq m report.counts.scanned)) [
  | inr e ↦ cc
  | inl e ↦ elim (Bool-cases (num_eq report.counts.scanned n)) [
    | inr e2 ↦ cc (rw (e, e2) at h)
    | inl e2 ↦
        rw (e, e2)
          (record {
            all_written = level.all_written;
            none_failed = level.none_failed;
            source_counted = level.source_counted ∙ ap some (sym (num_eq-eq _ _ e2));
            target_counted = target ∙ ap some (num_eq-eq _ _ e);
          })
  ]
]

-- What may be said where an action refuses or fails.
unjudged_update :
    (f : Report → Report)
    → ((report : Report) → (f report).outcome ≢ copied)
    → Relates Sound (update f)
unjudged_update f k = Relates-update Sound f (λ report fresh judged. absurd (k report judged))

pub refused_sound : (reason : Reason) → Relates Sound (update (refuse reason))
unfolding refuse
refused_sound reason = unjudged_update (refuse reason) (λ report h. cc)

module _ (client : Client) (honest : Honest client) where
  count-same : (table : TableArn) → Relates Same (count client table)
  unfolding count
  count-same table =
      Relates-then Same (λ _. Same) Same (ask client (Call.count_pages table)) _
        (asked client (Call.count_pages table))
        (λ pages. Relates-give Same (total pages) (λ report. refl))
        (λ _ _ before mid after p q. p ∙ q)

  abbrev Judged : ℕ → Relation (Unit {0})
  Judged n u before after = IsLevel n before → after.outcome ≡ copied → IsExact after

  judge_sound :
      (n m : ℕ) → Relates (Judged n) (update (set_target_total m) then λ _. update (judge n m))
  judge_sound n m =
      Relates-then (λ _ before after. IsLevel n before → Target n m after)
        (λ _ _ before after. Target n m before → after.outcome ≡ copied → IsExact after) (Judged n)
        (update (set_target_total m)) _
        (Relates-update _ (set_target_total m) (λ report level. targeted n m report level))
        (λ _.
          Relates-update _ (judge n m) (λ report (level, target). judged n m report level target))
        (λ _ _ before mid after p q level. q (p level))

  -- What follows the copy, by how it ended.
  abbrev AfterCopy : ℕ → Result (Unit {0}) → Relation (Unit {0})
  AfterCopy n (ok v) u before after = Judged n u before after
  AfterCopy n (err e) u before after = after.outcome ≢ copied

  after_copy_sound :
      (target : TableArn) (n : ℕ) (r : Result (Unit {0}))
      → Relates (AfterCopy n r) (after_copy client target n r)
  unfolding after_copy fail
  after_copy_sound target n (ok u) =
      after_same (Judged n) (count client target) _ (count-same target) (λ m. judge_sound n m)
  after_copy_sound target n (err (copy_failed k)) = Relates-update _ _ (λ report h. cc)
  after_copy_sound target n (err e) = Relates-throw _ e

  -- A fresh report that has the number of the source's items.
  abbrev Counted : ℕ → Report → Type 0
  Counted n report = IsFresh report × (report.counts.source_total ≡ some n)

  leveled :
      (n : ℕ) (before mid : Report)
      → Counted n before
      → Level client honest before mid
      → IsLevel n mid
  leveled n before mid (fresh, known) (k, moves) = record {
    all_written =
        omega
          (arith, moves.more_written, moves.more_scanned, fresh.none_written, fresh.none_scanned);
    none_failed = moves.same_failed ∙ fresh.none_failed;
    source_counted = moves.same_total ∙ known;
  }

  after_copy-Level :
      (n : ℕ) (r : Result (Unit {0})) (u : Unit {0}) (before mid after : Report)
      → OnOk (λ _. Level client honest) r before mid
      → AfterCopy n r u mid after
      → Counted n before
      → after.outcome ≡ copied
      → IsExact after
  after_copy-Level n (ok v) u before mid after level k counted h =
      k (leveled n before mid counted level) h
  after_copy-Level n (err e) u before mid after level k counted h = absurd (k h)

  module _ (pages : ℕ) (source target : TableArn) where
    copy_sound :
        (n : ℕ)
        → Relates
            (λ _ before after. Counted n before → after.outcome ≡ copied → IsExact after)
            (rescue (copy_items client pages source target) then λ r. after_copy client target n r)
    unfolding copy_items
    copy_sound n =
        Relates-then (OnOk (λ _. Level client honest)) (AfterCopy n)
          (λ _ before after. Counted n before → after.outcome ≡ copied → IsExact after) (rescue _) _
          (Relates-rescue (λ _. Level client honest) _
            (pages-Level client honest pages source target none))
          (after_copy_sound target n)
          (λ r u before mid after. after_copy-Level n r u before mid after)

    total_known : (n : ℕ) (report : Report) → IsFresh report → Counted n (set_source_total n report)
    unfolding set_source_total
    total_known n report fresh = (
      record {
        unjudged = fresh.unjudged;
        none_scanned = fresh.none_scanned;
        none_written = fresh.none_written;
        none_failed = fresh.none_failed;
      },
      refl,
    )

    copy_checked-sound :
        (applying : Bool) → Relates Sound (copy_checked client pages applying source target)
    unfolding copy_checked
    copy_checked-sound applying = after_same Sound (count client source) _ (count-same source) (λ n.
        Relates-then (λ _ before after. IsFresh before → Counted n after)
          (λ _ _ before after. Counted n before → after.outcome ≡ copied → IsExact after) Sound
          (update (set_source_total n)) _ (Relates-update _ (set_source_total n) (total_known n))
          (λ _.
            Relates-if _ (not applying) (give tt) _
              (λ _. Relates-give _ tt (λ report (fresh, known) h. absurd (fresh.unjudged h)))
              (λ _. copy_sound n))
          (λ _ _ before mid after p q fresh. q (p fresh)))

    pub check_target-sound :
        (applying : Bool) → Relates Sound (check_target client pages applying source target)
    unfolding check_target
    check_target-sound applying =
        after_same Sound (ask client (Call.scan_first target)) _
          (asked client (Call.scan_first target))
          (λ found.
            Relates-if Sound (num_eq found 0) _ _ (λ _. copy_checked-sound applying)
              (λ _. refused_sound Reason.target_not_empty))
