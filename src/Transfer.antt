-- ===== src/Transfer.antt =====
-- src/rc_infra/transfer/models.py: what a transfer found and did. A job updates its report as it
-- goes, so the report survives an exception.
pub mod Keeps
pub mod Relates
pub mod Meets
pub mod Configs
pub mod Copying
pub mod Table
use re_infra.Base.{ℕ, String, Bool, true, false, Option, none, some, List, [], ◌∷◌, ◌++◌}
use re_infra.Aws.{Error, Result, ok, err}
use re_infra.Calls.{Call, Answer, Client, Config}
use re_infra.Action.{Action, pure, attempt, call, ◌>>=◌}

pub data Outcome : Type 0 where
  checked copied refused failed interrupted : Outcome

-- A field where the source and the target disagree; `none` is a value that is absent.
pub record Diff : Type 0 where
  pub path : String
  pub source : Option Config
  pub target : Option Config
  pub blocking : Bool

pub record Counts : Type 0 where
  pub scanned : ℕ
  pub written : ℕ
  pub retries : ℕ
  pub failed : ℕ
  pub source_total : Option ℕ
  pub target_total : Option ℕ

-- What `reasons` report.
pub data Reason : Type 0 where
  same_table : Reason
  foreign_account : String → List String → Reason
  table_not_found : String → Reason
  configs_differ : Reason
  target_not_empty : Reason
  unprocessed : ℕ → Reason
  target_differs : ℕ → ℕ → Reason
  source_changed : ℕ → ℕ → Reason
  was_interrupted : ℕ → Reason

pub record Report : Type 0 where
  pub apply : Bool
  pub outcome : Outcome
  pub reasons : List Reason
  pub diffs : List Diff
  pub counts : Counts

unfoldable pub refuse : Reason → Report → Report
refuse reason report = record report {
  outcome = refused;
  reasons = report.reasons ++ (reason ∷ []);
}

unfoldable pub fail : Reason → Report → Report
fail reason report = record report { outcome = failed; reasons = report.reasons ++ (reason ∷ []) }

-- Code that updates a report and may raise.
abbrev pub Job : Type 0 → Type 0
Job A = Report → Action (Result A × Report)

module _ {A : Type 0} where
  unfoldable pub give : A → Job A
  give a report = pure (ok a, report)

  unfoldable pub throw : Error → Job A
  throw e report = pure (err e, report)

unfoldable pub update : (Report → Report) → Job (Unit {0})
update f report = pure (ok tt, f report)

unfoldable pub ask : Client → (c : Call) → Job (Answer c)
ask client c report = attempt (call client c) >>= λ r. pure (r, report)

module _ {A B : Type 0} where
  abbrev pub proceed : (A → Job B) → Result A × Report → Action (Result B × Report)
  proceed f (ok a, report) = f a report
  proceed f (err e, report) = pure (err e, report)

  infixl 5 ◌then◌
  unfoldable pub ◌then◌ : Job A → (A → Job B) → Job B
  ◌then◌ m f report = m report >>= proceed f

module _ {A : Type 0} where
  -- `try`: what follows takes the exception as a value.
  unfoldable pub rescue : Job A → Job (Result A)
  rescue m report = m report >>= λ (r, now). pure (ok r, now)
