-- ===== src/Transfer/Relates.antt =====
-- What a job of src/rc_infra/transfer does to its report.
use re_infra.Base.{◌≡◌, refl, ap, ◌∙◌, subst, Bool, true, false, if◌then◌else◌}
use re_infra.Aws.{Error, Result, ok, err}
use re_infra.Calls.{Call, Answer, History, Client}
use re_infra.Action.{pure, attempt, call}
use re_infra.Action.Outcomes.{bind-ok, ok_injective}
use re_infra.Transfer.{Report, Job, give, throw, update, ask, proceed, ◌then◌, rescue}

abbrev pub Relation : Type 0 → Type 1
Relation A = A → Report → Report → Type 0

-- Where the job returns, its result and the report before and after it are related.
pub record Relates {A : Type 0} (R : Relation A) (m : Job A) : Type 0 where
  pub related :
      (report : Report) (past : History) (a : A) (after : Report)
      → (m report past).0 ≡ ok (ok a, after)
      → R a report after

-- A caught result is related as the job relates it, if it is no exception.
abbrev pub OnOk : {A : Type 0} → Relation A → Relation (Result A)
OnOk R (ok a) before after = R a before after
OnOk R (err e) before after = Unit

-- What a job that ended returned, with its report.
abbrev Returned : Type 0 → Type 0
Returned A = Result (Result A × Report)

abbrev returned : {A : Type 0} → Result A → Report → Returned A
returned r report = ok (r, report)

module _ {A : Type 0} (R : Relation A) where
  transported :
      (a b : A) (before after end : Report)
      → returned (ok a) after ≡ returned (ok b) end
      → R a before after
      → R b before end
  transported a b before after end h r =
      let same = ok_injective (ok a, after) (ok b, end) h in
      let same_result = ok_injective a b (ap (λ (p : Result A × Report). p.0) same) in
      subst (λ (x : A). R x before end) same_result
        (subst (λ (x : Report). R a before x) (ap (λ (p : Result A × Report). p.1) same) r)

  pub Relates-give : (a : A) → ((report : Report) → R a report report) → Relates R (give a)
  unfolding give pure
  Relates-give a k = record {
    related = λ report past b after h. transported a b report report after h (k report);
  }

  err-ne_returned :
      (e : Error) (a : A) (report after : Report)
      → returned (err e) report ≡ returned (ok a) after
      → ⊥
  err-ne_returned e a report after h =
      err-ne_ok e a
        (ap (λ (p : Result A × Report). p.0) (ok_injective (err e, report) (ok a, after) h))
    where
      err-ne_ok : (e : Error) (a : A) → err e ≡ ok a → ⊥
      err-ne_ok e a h = cc

  pub Relates-throw : (e : Error) → Relates R (throw e)
  unfolding throw pure
  Relates-throw e = record {
    related = λ report past a after h. absurd (err-ne_returned e a report after h);
  }

  pub Relates-if :
      (test : Bool) (m n : Job A)
      → (test ≡ true → Relates R m)
      → (test ≡ false → Relates R n)
      → Relates R (if test then m else n)
  Relates-if true m n km kn = km refl
  Relates-if false m n km kn = kn refl

  pub Relates-weaken :
      (S : Relation A) (m : Job A)
      → ((a : A) (before after : Report) → S a before after → R a before after)
      → Relates S m
      → Relates R m
  Relates-weaken S m k s = record {
    related = λ report past a after h. k a report after (s.related report past a after h);
  }

pub Relates-update :
    (R : Relation (Unit {0})) (f : Report → Report)
    → ((report : Report) → R tt report (f report))
    → Relates R (update f)
unfolding update pure
Relates-update R f k = record {
  related = λ report past a after h. transported R tt a report (f report) after h (k report);
}

module _ {A B : Type 0} (S : Relation A) (T : A → Relation B) (R : Relation B) where
  Relates-proceed :
      (f : A → Job B) (r : Result A) (before mid : Report) (past : History) (b : B) (after : Report)
      → ((a : A) → r ≡ ok a → S a before mid)
      → ((a : A) → Relates (T a) (f a))
      → ((a : A) (b : B) (mid after : Report) → S a before mid → T a b mid after → R b before after)
      → (proceed f (r, mid) past).0 ≡ ok (ok b, after)
      → R b before after
  unfolding pure
  Relates-proceed f (ok a) before mid past b after s t join h =
      join a b mid after (s a refl) ((t a).related mid past b after h)
  Relates-proceed f (err e) before mid past b after s t join h =
      absurd (err-ne_returned R e b mid after h)

  pub Relates-then :
      (m : Job A) (f : A → Job B)
      → Relates S m
      → ((a : A) → Relates (T a) (f a))
      → ((a : A) (b : B) (before mid after : Report)
          → S a before mid
          → T a b mid after
          → R b before after)
      → Relates R (m then f)
  unfolding ◌then◌
  Relates-then m f s t join = record {
    related = λ report past b after h.
        let (step, first, rest) = bind-ok (m report) (proceed f) past (ok b, after) h in
        Relates-proceed f step.0 report step.1 (m report past).1 b after
          (λ a same.
            s.related report past a step.1 (first ∙ ap (λ (r : Result A). returned r step.1) same))
          t (λ a b mid after. join a b report mid after) rest;
  }

module _ {A : Type 0} (R : Relation A) where
  caught :
      (r : Result A) (before after : Report)
      → ((a : A) → r ≡ ok a → R a before after)
      → OnOk R r before after
  caught (ok a) before after k = k a refl
  caught (err e) before after k = tt

  pub Relates-rescue : (m : Job A) → Relates R m → Relates (OnOk R) (rescue m)
  unfolding rescue pure
  Relates-rescue m k = record {
    related = λ report past x after h.
        let (step, first, rest) = bind-ok (m report) _ past (ok x, after) h in
        transported (OnOk R) step.0 x report step.1 after rest (
          caught step.0 report step.1 (λ a same.
            k.related report past a step.1
              (first ∙ ap (λ (r : Result A). returned r step.1) same)));
  }

pub Relates-ask :
    (client : Client) (c : Call) (R : Relation (Answer c))
    → ((report : Report) (past : History) (a : Answer c)
        → client.reply past c ≡ ok a
        → R a report report)
    → Relates R (ask client c)
unfolding ask pure attempt call
Relates-ask client c R k = record {
  related = λ report past a after h.
      let (r, first, rest) = bind-ok (attempt (call client c)) _ past (ok a, after) h in
      let same = ok_injective (r, report) (ok a, after) rest in
      subst (λ (end : Report). R a report end) (ap (λ (p : Result (Answer c) × Report). p.1) same)
        (k report past a (
          ok_injective (client.reply past c) r first
          ∙ ap (λ (p : Result (Answer c) × Report). p.0) same));
}
