-- ===== src/Planner/Previews.antt =====
-- Planning deletes only the change sets that it created.
use re_infra.Base.{String, Option, none, some, List, [], ◌∷◌, All}
use re_infra.Base.Dicts.{Dict}
use re_infra.Aws.{Stack}
use re_infra.Calls.{Client}
use re_infra.Action.{pure}
use re_infra.Action.Keeps.{Keeps-pure}
use re_infra.Action.Ensures.{Preserves, Preserves-if, Preserves-bind}
use re_infra.EnvConfig.{EnvConfig}
use re_infra.Cfn.Previews.{reading, DeletesOwn, preview-DeletesOwn, kept_own}
use re_infra.Cfn.Keeps.{get_stack-Keeps}
use re_infra.Planner.{
  Step, StackSpec, stack_specs, plan_existing, plan_found, plan_stack, plan_specs, build_plan,
}
use re_infra.Planner.ReadOnly.{
  IsPlanning, cached-Keeps, plan_removed_environments-Keeps, build_plan_lem,
}

module _ (client : Client) where
  plan_existing-DeletesOwn :
      (spec : StackSpec) (body : String) (stack : Stack)
      → Preserves (DeletesOwn client) (plan_existing client spec body stack)
  unfolding plan_existing
  plan_existing-DeletesOwn spec body stack =
      let done = λ (s : Step). kept_own client (pure s) (Keeps-pure s) in
      search (Preserves-if, Preserves-bind, done, preview-DeletesOwn client)

  plan_found-DeletesOwn :
      (spec : StackSpec) (body : String) (found : Option Stack)
      → Preserves (DeletesOwn client) (plan_found client spec body found)
  unfolding plan_found
  plan_found-DeletesOwn spec body none = kept_own client _ (Keeps-pure _)
  plan_found-DeletesOwn spec body (some stack) = plan_existing-DeletesOwn spec body stack

  plan_stack-DeletesOwn :
      (spec : StackSpec) (body : String)
      → Preserves (DeletesOwn client) (plan_stack client spec body)
  unfolding plan_stack
  plan_stack-DeletesOwn spec body =
      Preserves-bind _ _ (kept_own client _ (get_stack-Keeps reading client spec.stack))
        (plan_found-DeletesOwn spec body)

  plan_specs-DeletesOwn :
      (templates : Dict String) (specs : List StackSpec)
      → Preserves (DeletesOwn client) (plan_specs client templates specs)
  unfolding plan_specs
  plan_specs-DeletesOwn templates [] = kept_own client _ (Keeps-pure _)
  plan_specs-DeletesOwn templates (spec ∷ specs) =
      Preserves-bind _ _ (kept_own client _ (cached-Keeps reading client _ _ _)) (λ found.
        Preserves-bind _ _ (plan_stack-DeletesOwn spec found.0) (λ step.
          Preserves-bind _ _ (plan_specs-DeletesOwn found.1 specs)
            (λ rest. kept_own client _ (Keeps-pure _))))

module _ (client : Client) (config : EnvConfig) where
  build_plan-DeletesOwn : Preserves (DeletesOwn client) (build_plan client config)
  unfolding build_plan
  build_plan-DeletesOwn =
      Preserves-bind _ _ (plan_specs-DeletesOwn client [] (stack_specs config)) (λ actions.
        Preserves-bind _ _
          (kept_own client _ (plan_removed_environments-Keeps reading client config))
          (λ removed. kept_own client _ (Keeps-pure _)))

  -- Whatever AWS answers, planning only reads, creates change sets that would update a stack, and
  -- deletes change sets, each of which it created before.
  pub build_plan-IsPlanning :
      All IsPlanning (build_plan client config []).1
      × DeletesOwn client (build_plan client config []).1
  build_plan-IsPlanning = (build_plan_lem client config, build_plan-DeletesOwn.holds [] tt)
