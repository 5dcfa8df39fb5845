-- ===== src/Transfer/Keeps.antt =====
-- What is known of a job of src/rc_infra/transfer: the calls it makes.
use re_infra.Base.{◌≡◌, refl, Bool, true, false, if◌then◌else◌}
use re_infra.Aws.{Error, Result, ok, err}
use re_infra.Calls.{Call, Client}
use re_infra.Action.{attempt, call}
use re_infra.Action.Keeps.{Keeps, Keeps-pure, Keeps-bind, Keeps-attempt, Keeps-call}
use re_infra.Transfer.{Report, Job, give, throw, update, ask, proceed, ◌then◌, rescue}

-- Every call that the job makes is allowed.
pub record JobKeeps {A : Type 0} (P : Call → Type 0) (m : Job A) : Type 0 where
  pub kept : (report : Report) → Keeps P (m report)

module _ {A : Type 0} {P : Call → Type 0} where
  pub JobKeeps-give : (a : A) → JobKeeps P (give a)
  unfolding give
  JobKeeps-give a = record { kept = λ report. Keeps-pure _ }

  pub JobKeeps-throw : (e : Error) → JobKeeps P (throw {A = A} e)
  unfolding throw
  JobKeeps-throw e = record { kept = λ report. Keeps-pure _ }

  pub JobKeeps-if :
      (test : Bool) (m n : Job A)
      → (test ≡ true → JobKeeps P m)
      → (test ≡ false → JobKeeps P n)
      → JobKeeps P (if test then m else n)
  JobKeeps-if true m n km kn = km refl
  JobKeeps-if false m n km kn = kn refl

  pub JobKeeps-rescue : (m : Job A) → JobKeeps P m → JobKeeps P (rescue m)
  unfolding rescue
  JobKeeps-rescue m k = record {
    kept = λ report. Keeps-bind (m report) _ (k.kept report) (λ (r, now). Keeps-pure _);
  }

module _ {P : Call → Type 0} where
  pub JobKeeps-update : (f : Report → Report) → JobKeeps P (update f)
  unfolding update
  JobKeeps-update f = record { kept = λ report. Keeps-pure _ }

  pub JobKeeps-ask : (client : Client) (c : Call) → P c → JobKeeps P (ask client c)
  unfolding ask
  JobKeeps-ask client c p = record {
    kept = λ report.
        Keeps-bind (attempt (call client c)) _ (Keeps-attempt _ (Keeps-call client c p))
          (λ r. Keeps-pure _);
  }

module _ {A B : Type 0} {P : Call → Type 0} where
  JobKeeps-proceed :
      (f : A → Job B) (r : Result A) (report : Report)
      → ((a : A) → JobKeeps P (f a))
      → Keeps P (proceed f (r, report))
  JobKeeps-proceed f (ok a) report k = (k a).kept report
  JobKeeps-proceed f (err e) report k = Keeps-pure _

  pub JobKeeps-then :
      (m : Job A) (f : A → Job B)
      → JobKeeps P m
      → ((a : A) → JobKeeps P (f a))
      → JobKeeps P (m then f)
  unfolding ◌then◌
  JobKeeps-then m f km kf = record {
    kept = λ report.
        Keeps-bind (m report) _ (km.kept report) (λ (r, now). JobKeeps-proceed f r now kf);
  }

pub ruleset job_rules =
    (JobKeeps-give, JobKeeps-throw, JobKeeps-if, JobKeeps-rescue, JobKeeps-update, JobKeeps-then)
