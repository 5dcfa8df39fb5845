-- ===== src/Apply.antt =====
-- src/rc_infra/apply.py: carrying out a plan. Log lines are left out.
pub mod Outcome
pub mod Safety
pub mod Specs
pub mod Tests
use re_infra.Base.{
  ℕ, zero, suc, ◌+◌, String, Bool, true, false, ◌&&◌, ◌||◌, not, Option, none, some, List, [], ◌∷◌,
  ◌++◌, map, ◌==◌, leb, if◌then◌else◌, length, is_some, is_nil,
}
use re_infra.Base.Dicts.{Dict, get}
use re_infra.Base.Sorting.{sort_by}
use re_infra.Aws.{
  ChangeSetKind, Stack, ResourceChange, Error, not_owned, missing_target, interrupted, Result, ok,
  err,
}
use re_infra.Calls.{ChangeSet, Client}
use re_infra.Action.{Action, pure, raise, lift, attempt, ◌>>=◌, ◌>>◌}
use re_infra.EnvConfig.{EnvConfig, names}
use re_infra.Templates.{template_text}
use re_infra.Cfn
use re_infra.Teardown.{teardown}
use re_infra.Planner.{
  ActionKind, blocked, delete, create, update, noop, StackSpec, stack_specs, refuse_destructive,
  is_halting, foreign_tags, Step, Plan, halting,
}

-- A line of `ApplyResult.failed`, by what it reports.
pub data Failure : Type 0 where
  skipped : String → String → Failure
  was_blocked : String → Failure
  failed : String → Error → Failure

pub record ApplyResult : Type 0 where
  pub completed : List String
  pub failures : List Failure

-- ApplyRefused with the halting targets, or the result.
pub data Applied : Type 0 where
  refused : List String → Applied
  applied : ApplyResult → Applied

abbrev pub is_delete : ActionKind → Bool
is_delete delete = true
is_delete _ = false

-- `{spec.target: spec for spec in specs}.get(target)`: the last one counts.
unfoldable pub spec_for : String → List StackSpec → Option StackSpec
spec_for target [] = none
spec_for target (spec ∷ specs) = elim (spec_for target specs) [
  | some later ↦ some later
  | none ↦ if spec.target == target then some spec else none
]

-- `position.get(target, len(position))`: the index of the last one, `len(position)` the number of
-- different targets.
last_index : String → ℕ → List StackSpec → Option ℕ
last_index target i [] = none
last_index target i (spec ∷ specs) = elim (last_index target (suc i) specs) [
  | some later ↦ some later
  | none ↦ if spec.target == target then some i else none
]

distinct_targets : List StackSpec → ℕ
unfolding spec_for
distinct_targets [] = 0
distinct_targets (spec ∷ specs) =
    let rest = distinct_targets specs in
    if is_some (spec_for spec.target specs) then rest else suc rest

pub position : List StackSpec → String → ℕ
unfolding last_index distinct_targets
position specs target = elim (last_index target 0 specs) [
  | some i ↦ i
  | none ↦ distinct_targets specs
]

-- The order of the loop: deletions last, the others by position.
pub runs_before : List StackSpec → Step → Step → Bool
unfolding position
runs_before specs a b = elim (is_delete a.kind) [
  | true ↦ is_delete b.kind && leb (position specs a.target) (position specs b.target)
  | false ↦ is_delete b.kind || leb (position specs a.target) (position specs b.target)
]

abbrev guard_of : ActionKind → Cfn.Guard
guard_of update changes = refuse_destructive changes
guard_of _ changes = none

abbrev change_set_kind : ActionKind → ChangeSetKind
change_set_kind update = ChangeSetKind.update
change_set_kind _ = ChangeSetKind.create

-- The stack is read again right before it is deleted.
unfoldable pub still_owned : StackSpec → String → Option Stack → Result (Unit {0})
unfolding foreign_tags
still_owned spec name none = ok tt
still_owned spec name (some stack) =
    if is_nil (foreign_tags spec stack)
    then ok tt
    else err (not_owned name (foreign_tags spec stack))

module _ (client : Client) where
  protect_found : String → Option Stack → Action (Unit {0})
  protect_found name none = pure tt
  protect_found name (some stack) =
      if stack.termination_protection
      then pure tt
      else Cfn.set_termination_protection client name true

  pub protect : Step → Action (Unit {0})
  unfolding protect_found
  protect step = do found ← Cfn.get_stack client step.stack; protect_found step.stack found

  pub replace_failed : Step → StackSpec → Action (Unit {0})
  unfolding still_owned
  replace_failed step spec = do
    found ← Cfn.get_stack client step.stack
    lift (still_owned spec step.stack found)
    Cfn.delete_stack client step.stack

  abbrev request : Step → StackSpec → String → ChangeSet
  request step spec body = record {
    stack_name = step.stack;
    kind = change_set_kind step.kind;
    template_body = body;
    tags = spec.tags;
    parameters = spec.parameters;
  }

  pub deploy : Step → StackSpec → Action (Unit {0})
  deploy step spec = do
    if step.replace_failed_stack then replace_failed step spec else pure tt
    body ← template_text client spec.template_path
    Cfn.deploy client (request step spec body) (guard_of step.kind)
    if spec.protect then protect step else pure tt

  pub deploy_known : Step → Option StackSpec → Action (Unit {0})
  deploy_known step none = raise (missing_target step.target)
  deploy_known step (some spec) = deploy step spec

  pub run_kind : EnvConfig → Step → ActionKind → Action (Unit {0})
  run_kind config step blocked = pure tt
  run_kind config step delete = teardown client step.target (names config)
  run_kind config step create = deploy_known step (spec_for step.target (stack_specs config))
  run_kind config step update = deploy_known step (spec_for step.target (stack_specs config))
  run_kind config step noop = if step.repair_protection then protect step else pure tt

-- The result so far, and the foundation that failed.
pub record Progress : Type 0 where
  pub result : ApplyResult
  pub foundation_failed : Option String

abbrev pub add_failure : Failure → Progress → Progress
add_failure f p = record p { result = record p.result { failures = p.result.failures ++ f ∷ [] } }

-- The `except` and `else` of the loop. KeyboardInterrupt is no Exception and is not caught.
pub settle : Step → Result (Unit {0}) → Progress → Result Progress
unfolding is_halting
settle step (ok _) p =
    ok
      (record p { result = record p.result { completed = p.result.completed ++ step.target ∷ [] } })
settle step (err interrupted) p = err interrupted
settle step (err e) p =
    let p' = add_failure (failed step.target e) p in
    ok (
      if not (is_delete step.kind) && is_halting step.target
      then record p' { foundation_failed = some step.target }
      else p')

module _ (client : Client) (config : EnvConfig) where
  pub run_step : Step → ActionKind → Progress → Action Progress
  run_step step blocked p = pure (add_failure (was_blocked step.target) p)
  run_step step kind p = do
    done ← attempt (run_kind client config step kind)
    lift (settle step done p)

  pub visit : Step → Option String → Progress → Action Progress
  visit step (some foundation) p = pure (add_failure (skipped step.target foundation) p)
  visit step none p = run_step step step.kind p

  pub run_steps : List Step → Progress → Action Progress
  run_steps [] p = pure p
  run_steps (step ∷ steps) p = do p' ← visit step p.foundation_failed p; run_steps steps p'

  abbrev pub start : Progress
  start = record { result = record { completed = []; failures = [] }; foundation_failed = none }

  abbrev pub ordered : Plan → List Step
  ordered plan = sort_by (runs_before (stack_specs config)) plan.actions

  run_ordered : Plan → Action Applied
  run_ordered plan = do p ← run_steps (ordered plan) start; pure (applied p.result)

  unfoldable pub apply_plan : Plan → Action Applied
  unfolding run_ordered
  apply_plan plan =
      if is_nil (halting plan)
      then run_ordered plan
      else pure (refused (map (λ (s : Step). s.target) (halting plan)))
