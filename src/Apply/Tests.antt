-- ===== src/Apply/Tests.antt =====
-- Applying the plan for a concrete account.
use re_infra.Base.{◌+◌, ◌≡◌, refl, true, some, [], ◌∷◌, All, elem, is_nil, length, if◌then◌else◌}
use re_infra.Base.Sorting.{sort_by}
use re_infra.Aws.{client_error, ok, err}
use re_infra.Calls.{Call, Client}
use re_infra.Action.{pure, call, ◌>>=◌}
use re_infra.EnvConfig.{EnvConfig, names}
use re_infra.Templates.{template_text, platform_template_path, environment_template_path}
use re_infra.Planner.{
  blocked, create, platform_target, StackSpec, environment_spec, stack_specs, is_halting, halting,
  Step, Plan, plain,
}
use re_infra.Planner.Tests.{plan, planned}
use re_infra.Apply.{
  was_blocked, ApplyResult, applied, spec_for, run_kind, run_steps, run_step, visit, deploy_known,
  deploy, start, ordered, run_ordered, apply_plan,
}
use re_infra.Apply.Outcome.{
  counted-apply_plan, StopsAt, run_steps-foundation, DeletionsLast, ordered-DeletionsLast,
}
use re_infra.Apply.Safety.{IsApply, IsSpecStack, apply_plan-build_plan}
use re_infra.Apply.Specs.{spec_for-platform}
use re_infra.World.{environment_of, config, world}

apply_plan-build_plan_example :
    All (IsApply config (IsSpecStack config)) (apply_plan world config plan []).1
apply_plan-build_plan_example = apply_plan-build_plan world world config [] plan planned

ordered-DeletionsLast_example : DeletionsLast (ordered world config plan)
ordered-DeletionsLast_example = ordered-DeletionsLast world config plan

-- One blocked step, which does not halt.
abbrev small_plan : Plan
small_plan = record { actions = plain blocked "old" "rc-env-old" [] ∷ []; notes = [] }

abbrev small_result : ApplyResult
small_result = record { completed = []; failures = was_blocked "old" ∷ [] }

small_applied : (apply_plan world config small_plan []).0 ≡ ok (applied small_result)
unfolding ◌>>=◌ pure apply_plan run_ordered run_steps visit run_step halting is_halting sort_by
small_applied = refl

counted-apply_plan_example :
    (is_nil (halting small_plan) ≡ true)
    × (length small_result.completed + length small_result.failures ≡ length small_plan.actions)
counted-apply_plan_example =
    counted-apply_plan world config small_plan [] small_result small_applied

-- An account that refuses every call.
abbrev denied : Client
denied = record { reply = λ past c. err (client_error "AccessDenied" "denied") }

abbrev dev_step : Step
dev_step = plain create "dev" "rc-env-dev" []

denied_dev : run_kind denied config dev_step create [] ≡ (
  err (client_error "AccessDenied" "denied"),
  Call.read_template environment_template_path ∷ [],
)
unfolding run_kind deploy_known deploy stack_specs environment_spec spec_for template_text
denied_dev = unfold ◌>>=◌ pure call in refl

is_halting-dev : is_halting "dev" ≡ true
unfolding is_halting
is_halting-dev = refl

run_steps-foundation_example :
    StopsAt denied config
      (Call.read_template environment_template_path ∷ [])
      (start denied config)
      (dev_step ∷ plain create "prod" "rc-env-prod" [] ∷ [])
      (start denied config)
      []
run_steps-foundation_example =
    run_steps-foundation denied config dev_step (plain create "prod" "rc-env-prod" [] ∷ [])
      (start denied config) [] (Call.read_template environment_template_path ∷ [])
      (client_error "AccessDenied" "denied") refl (λ e. cc) (λ e. cc) (λ e. cc) is_halting-dev
      denied_dev

-- A config with an environment named `platform`.
abbrev odd : EnvConfig
odd = record config { environments = environment_of "platform" "preview" ∷ [] }

abbrev odd_spec : StackSpec
odd_spec = environment_spec (environment_of "platform" "preview")

odd_found : spec_for platform_target (stack_specs odd) ≡ some odd_spec
unfolding spec_for stack_specs environment_spec
odd_found = refl

spec_for-platform_example : odd_spec.template_path ≡ (
    if elem platform_target (names odd) then environment_template_path else platform_template_path)
spec_for-platform_example = spec_for-platform odd odd_spec odd_found
