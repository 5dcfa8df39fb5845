-- ===== src/Planner/Tests.antt =====
-- The plan for a concrete account: three environments and the platform are created, and the
-- removed one is deleted.
use mathlib.Core.List.{flatten}
use re_infra.Base.{◌≡◌, refl, [], ◌∷◌, All}
use re_infra.Base.Sorting.{sort_by}
use re_infra.Aws.{ok}
use re_infra.Action.{pure, raise, lift, attempt, call, keep_each, ◌>>=◌}
use re_infra.EnvConfig.{
  names, environment_from_core_stack, core_stack_name, app_stack_name, table_prefix, is_protected,
}
use re_infra.Templates.{template_text}
use re_infra.Tables.{list_names}
use re_infra.Cfn.{get_stack, list_stacks, stack_resources}
use re_infra.Teardown.{
  bucket_deletion, stack_deletion, describe, check_deletable, inventory, check_core_cleaned_up,
  managed_table, no_app_stack, no_tables, bucket_names,
}
use re_infra.Planner.{
  delete, create, environment_spec, stack_specs, deletion, Plan, plain, plan_found, plan_stack,
  cached, plan_specs, as_step, deletable, plan_removed_stack, plan_removed_stacks,
  plan_removed_environments, build_plan,
}
use re_infra.Cfn.Previews.{DeletesOwn}
use re_infra.Planner.ReadOnly.{IsPlanning}
use re_infra.Planner.Previews.{build_plan-IsPlanning}
use re_infra.World.{config, world}

abbrev pub plan : Plan
plan = record {
  actions =
      plain delete "old" "rc-env-old" (
        deletion (bucket_deletion "rc-env-old-avatars")
        ∷ deletion (stack_deletion "rc-env-old")
        ∷ [])
      ∷ plain create "dev" "rc-env-dev" []
      ∷ plain create "platform" "rc-platform" []
      ∷ plain create "prod" "rc-env-prod" []
      ∷ plain create "staging" "rc-env-staging" []
      ∷ [];
  notes = [];
}

pub planned : (build_plan world config []).0 ≡ ok plan
unfolding build_plan plan_specs cached plan_stack plan_found stack_specs environment_spec
    plan_removed_environments plan_removed_stacks plan_removed_stack deletable as_step describe
    check_deletable inventory get_stack list_stacks stack_resources template_text
    environment_from_core_stack core_stack_name app_stack_name table_prefix is_protected names
    sort_by list_names check_core_cleaned_up managed_table no_app_stack no_tables bucket_names pure
    raise lift attempt call keep_each ◌>>=◌ flatten
planned = refl

build_plan-IsPlanning_example :
    All IsPlanning (build_plan world config []).1 × DeletesOwn world (build_plan world config []).1
build_plan-IsPlanning_example = build_plan-IsPlanning world config
