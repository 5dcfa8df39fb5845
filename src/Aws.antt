-- ===== src/Aws.antt =====
-- The value types of src/rc_infra/aws.py, and the errors that end an operation.
use re_infra.Base.{ℕ, String, Bool, ◌&&◌, not, Option, List, ◌==◌}
use re_infra.Base.Dicts.{Dict}
use re_infra.Base.Texts.{has_suffix}
use re_infra.Schema.Failures.{SyncError}

pub data ChangeSetKind : Type 0 where
  create update : ChangeSetKind

pub record Stack : Type 0 where
  pub name : String
  pub status : String
  pub tags : Dict String
  pub termination_protection : Bool
  pub outputs : Dict String

unfoldable pub is_pending_review : Stack → Bool
is_pending_review stack = stack.status == "REVIEW_IN_PROGRESS"

unfoldable pub is_failed_create : Stack → Bool
is_failed_create stack = stack.status == "ROLLBACK_COMPLETE"

unfoldable pub is_busy : Stack → Bool
unfolding is_pending_review has_suffix
is_busy stack = has_suffix "_IN_PROGRESS" stack.status && not (is_pending_review stack)

unfoldable pub is_broken : Stack → Bool
unfolding has_suffix
is_broken stack = has_suffix "_FAILED" stack.status

pub record ResourceChange : Type 0 where
  pub action : String
  pub logical_id : String
  pub resource_type : String
  pub replacement : Option String

pub record StackResource : Type 0 where
  pub logical_id : String
  pub physical_id : String
  pub resource_type : String

-- Why a teardown is refused (the messages of TeardownRefused, by what they report).
pub data Refusal : Type 0 where
  protected_environment : String → Refusal
  still_declared : String → Refusal
  wrong_stack : String → String → Refusal
  unmanaged : String → Dict (Option String) → Refusal
  termination_protected : String → Refusal
  app_stack_exists : String → Refusal
  tables_left : String → List String → Refusal
  foreign_bucket : String → String → Refusal

-- Why the outputs of a stack cannot be used.
pub data Unavailable : Type 0 where
  no_stack : String → Unavailable
  untrusted : String → String → Unavailable
  no_output : String → String → Unavailable

-- The exceptions, each with what its message formats. `client_error` has boto's code and message,
-- `interrupted` is a KeyboardInterrupt. `still_running` is none: a loop that the source does not
-- bound was not done after the given number of rounds.
pub data Error : Type 0 where
  client_error : String → String → Error
  waiter_error : Error
  change_set_failed : String → String → Error
  deploy_failed : String → ChangeSetKind → Error
  delete_failed : String → Error
  teardown_refused : Refusal → Error
  destructive_change : List ResourceChange → Error
  not_owned : String → Dict (Option String) → Error
  unreadable_template : String → Error
  missing_target : String → Error
  outputs_unavailable : Unavailable → Error
  schema_sync_error : SyncError → Error
  key_error : String → Error
  not_json : Error
  copy_failed : ℕ → Error
  interrupted : Error
  still_running : Error

pub data Result (A : Type 0) : Type 0 where
  ok : A → Result A
  err : Error → Result A
