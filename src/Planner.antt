-- ===== src/Planner.antt =====
-- src/rc_infra/planner.py: what `apply` would do, decided by comparing the config with AWS.
-- Messages are values that carry what the text formats.
pub mod ReadOnly
pub mod Previews
pub mod Tests
pub mod Targets
use re_infra.Base.{
  ℕ, String, Bool, true, false, ◌&&◌, ◌||◌, not, Option, none, some, List, [], ◌∷◌, ◌++◌, map, ◌==◌,
  ltb, num_eq, text_leb, if◌then◌else◌, elem, is_some, is_nil, keep_if,
}
use re_infra.Base.Dicts.{Dict, get, has_value}
use re_infra.Base.Sorting.{sort_by}
use re_infra.Aws.{
  Stack, is_pending_review, is_failed_create, is_busy, is_broken, ResourceChange, Error,
  teardown_refused, destructive_change, Result, ok, err,
}
use re_infra.Calls.{Client}
use re_infra.Action.{Action, pure, raise, lift, attempt, ◌>>=◌, ◌>>◌}
use re_infra.EnvConfig.{
  EnvName, Environment, EnvConfig, names, core_stack_prefix, platform_stack_name, is_protected,
  core_stack_name, environment_from_core_stack,
}
use re_infra.Templates.{
  platform_template_path, environment_template_path, managed_by_tag, managed_by_value,
  platform_tags, environment_tags, mismatched_tags, template_text,
}
use re_infra.Cfn
use re_infra.Teardown.{Deletion, describe, Inventory, check_deletable, inventory}

abbrev pub platform_target : String
platform_target = "platform"

-- REPLACEMENT_PROTECTED_TYPES
abbrev pub protected_types : List String
protected_types =
    "AWS::Cognito::UserPool" ∷ "AWS::Cognito::UserPoolClient" ∷ "AWS::Cognito::UserPoolDomain"
    ∷ "AWS::Cognito::UserPoolIdentityProvider" ∷ "AWS::DynamoDB::Table" ∷ "AWS::ECR::Repository"
    ∷ "AWS::IAM::Role" ∷ "AWS::S3::Bucket" ∷ []

pub data ActionKind : Type 0 where
  blocked delete create update noop : ActionKind

-- `_ORDER`
abbrev pub order : ActionKind → ℕ
order blocked = 0
order delete = 1
order create = 2
order update = 3
order noop = 4

pub record StackSpec : Type 0 where
  pub target : String
  pub stack : String
  pub template_path : String
  pub tags : Dict String
  pub protect : Bool
  pub parameters : Dict String

unfoldable pub environment_spec : Environment → StackSpec
unfolding environment_tags core_stack_name is_protected
environment_spec env = record {
  target = env.name;
  stack = core_stack_name env.name;
  template_path = environment_template_path;
  tags = environment_tags env;
  protect = is_protected env.name;
  parameters = [];
}

unfoldable pub stack_specs : EnvConfig → List StackSpec
unfolding platform_tags
stack_specs config =
    record {
      target = platform_target;
      stack = platform_stack_name;
      template_path = platform_template_path;
      tags = platform_tags;
      protect = true;
      parameters = [];
    }
    ∷ map environment_spec config.environments

unfoldable pub is_destructive : ResourceChange → Bool
is_destructive change =
    if not (elem change.resource_type protected_types)
    then false
    else has_value "True" change.replacement
      || has_value "Conditional" change.replacement
      || change.action == "Remove"

-- `refuse_destructive`, as the guard of a deployment: the exception that it raises, if any.
unfoldable pub refuse_destructive : List ResourceChange → Option Error
unfolding is_destructive
refuse_destructive changes =
    let destructive = keep_if is_destructive changes in
    if is_nil destructive then none else some (destructive_change destructive)

unfoldable pub is_halting : String → Bool
unfolding is_protected
is_halting target = is_protected target || target == platform_target

-- A line of an action's details, by what it reports.
pub data Detail : Type 0 where
  foreign_stack : String → Dict (Option String) → Detail
  unusable_status : String → Detail
  enable_protection : Detail
  change : ResourceChange → Detail
  refusal : Error → Detail
  deletion : Deletion → Detail

-- `Action` of the source.
pub record Step : Type 0 where
  pub kind : ActionKind
  pub target : String
  pub stack : String
  pub details : List Detail
  pub replace_failed_stack : Bool
  pub repair_protection : Bool

pub record Plan : Type 0 where
  pub actions : List Step
  pub notes : List String

abbrev pub is_blocked : Step → Bool
is_blocked step = num_eq (order step.kind) 0

unfoldable pub halting : Plan → List Step
unfolding is_halting
halting plan = keep_if (λ (s : Step). is_halting s.target) (keep_if is_blocked plan.actions)

abbrev pub plain : ActionKind → String → String → List Detail → Step
plain kind target stack details = record {
  kind = kind;
  target = target;
  stack = stack;
  details = details;
  replace_failed_stack = false;
  repair_protection = false;
}

unfoldable pub foreign_tags : StackSpec → Stack → Dict (Option String)
unfolding mismatched_tags
foreign_tags spec stack = mismatched_tags spec.tags stack.tags

-- An update, unless the guard refuses it.
pub guarded_update : StackSpec → List ResourceChange → Option Error → Step
guarded_update spec changes none = plain update spec.target spec.stack (map change changes)
guarded_update spec changes (some e) = plain blocked spec.target spec.stack (refusal e ∷ [])

-- The decision from the previewed changes.
pub plan_changes : StackSpec → Stack → List ResourceChange → Step
unfolding guarded_update
plan_changes spec stack [] =
    let repair = spec.protect && not stack.termination_protection in
    record (plain noop spec.target spec.stack (if repair then enable_protection ∷ [] else [])) {
      repair_protection = repair;
    }
plan_changes spec stack (c ∷ changes) =
    guarded_update spec (c ∷ changes) (refuse_destructive (c ∷ changes))

pub is_creatable : Stack → Bool
is_creatable stack = is_pending_review stack || is_failed_create stack

pub is_unusable : Stack → Bool
is_unusable stack = is_busy stack || is_broken stack

module _ (client : Client) where
  pub plan_existing : StackSpec → String → Stack → Action Step
  plan_existing spec body stack =
      if not (is_nil (foreign_tags spec stack))
      then pure (
          plain blocked spec.target spec.stack
            (foreign_stack spec.stack (foreign_tags spec stack) ∷ []))
      else if is_creatable stack
      then pure (record (plain create spec.target spec.stack []) {
        replace_failed_stack = is_failed_create stack;
      })
      else if is_unusable stack
      then pure (plain blocked spec.target spec.stack (unusable_status stack.status ∷ []))
      else do
        changes ← Cfn.preview client spec.stack body spec.tags spec.parameters
        pure (plan_changes spec stack changes)

  pub plan_found : StackSpec → String → Option Stack → Action Step
  plan_found spec body none = pure (plain create spec.target spec.stack [])
  plan_found spec body (some stack) = plan_existing spec body stack

  unfoldable pub plan_stack : StackSpec → String → Action Step
  plan_stack spec body = do found ← Cfn.get_stack client spec.stack; plan_found spec body found

  -- The cache of template texts that `build_plan` keeps by path.
  pub cached : String → Dict String → Option String → Action (String × Dict String)
  cached path templates (some body) = pure (body, templates)
  cached path templates none = do
    body ← template_text client path
    pure (body, (path, body) ∷ templates)

  pub plan_specs : Dict String → List StackSpec → Action (List Step)
  plan_specs templates [] = pure []
  plan_specs templates (spec ∷ specs) = do
    found ← cached spec.template_path templates (get spec.template_path templates)
    step ← plan_stack spec found.0
    rest ← plan_specs found.1 specs
    pure (step ∷ rest)

-- What a round of the loop over the live environment stacks adds.
pub data Removed : Type 0 where
  nothing : Removed
  note : String → Removed
  step : Step → Removed

pub as_step : EnvName → Stack → Result Inventory → Action Removed
as_step environment stack (ok found) =
    pure (step (plain delete environment stack.name (map deletion (describe found))))
as_step environment stack (err (teardown_refused r)) =
    pure (step (plain blocked environment stack.name (refusal (teardown_refused r) ∷ [])))
as_step environment stack (err e) = raise e

abbrev pub add_removed : Removed → List Step × List String → List Step × List String
add_removed nothing found = found
add_removed (note n) (steps, notes) = (steps, n ∷ notes)
add_removed (step s) (steps, notes) = (s ∷ steps, notes)

-- The order in which a plan is shown, and kept.
abbrev pub display_le : Step → Step → Bool
display_le a b =
    ltb (order a.kind) (order b.kind)
    || (num_eq (order a.kind) (order b.kind) && text_leb a.target b.target)

module _ (client : Client) (config : EnvConfig) where
  -- The body of the `try`.
  pub deletable : EnvName → Stack → Action Inventory
  deletable environment stack = do
    lift (check_deletable environment stack (names config))
    inventory client environment

  pub plan_removed_stack : Option EnvName → Stack → Action Removed
  plan_removed_stack none stack = pure nothing
  plan_removed_stack (some environment) stack =
      if elem environment (names config)
      then pure nothing
      else if not (has_value managed_by_value (get managed_by_tag stack.tags))
      then pure (note stack.name)
      else do found ← attempt (deletable environment stack); as_step environment stack found

  pub plan_removed_stacks : List Stack → Action (List Step × List String)
  plan_removed_stacks [] = pure ([], [])
  plan_removed_stacks (stack ∷ stacks) = do
    removed ← plan_removed_stack (environment_from_core_stack stack.name) stack
    rest ← plan_removed_stacks stacks
    pure (add_removed removed rest)

  unfoldable pub plan_removed_environments : Action (List Step × List String)
  plan_removed_environments = do
    stacks ← Cfn.list_stacks client core_stack_prefix
    plan_removed_stacks stacks

  unfoldable pub build_plan : Action Plan
  build_plan = do
    actions ← plan_specs client [] (stack_specs config)
    removed ← plan_removed_environments
    pure (record { actions = sort_by display_le (actions ++ removed.0); notes = removed.1 })
