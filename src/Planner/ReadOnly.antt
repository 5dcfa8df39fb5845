-- ===== src/Planner/ReadOnly.antt =====
-- What planning calls: it changes nothing, but creates and discards change sets that would update.
use re_infra.Base.{String, ◌≡◌, refl, true, Option, none, some, List, [], ◌∷◌, All}
use re_infra.Base.Dicts.{Dict}
use re_infra.Aws.{update, Stack, teardown_refused, Result, ok, err}
use re_infra.Calls.{Call, Client, is_read, AllowsReads}
use re_infra.Action.Keeps.{Keeps, Keeps-All, Keeps-call, keeps_rules}
use re_infra.EnvConfig.{EnvName, EnvConfig}
use re_infra.Templates.{template_text}
use re_infra.Cfn
use re_infra.Cfn.Keeps.{get_stack-Keeps, list_stacks-Keeps, preview-Keeps}
use re_infra.Teardown.{Inventory}
use re_infra.Teardown.Safety.{inventory-Keeps}
use re_infra.Planner.{
  StackSpec, plan_existing, plan_found, plan_stack, cached, plan_specs, as_step, deletable,
  plan_removed_stack, plan_removed_stacks, plan_removed_environments, build_plan,
}

-- A call that leaves every stack, bucket and table as it is. A change set of kind CREATE is none:
-- it leaves a stack behind.
abbrev pub IsPlanning : Call → Type 0
IsPlanning (Call.create_change_set request) = request.kind ≡ update
IsPlanning (Call.delete_change_set id) = Unit
IsPlanning c = is_read c ≡ true

reads : AllowsReads IsPlanning
reads = record { allows = allows }
  where
    allows : (c : Call) → is_read c ≡ true → IsPlanning c
    allows (Call.create_change_set request) h = cc
    allows (Call.delete_change_set id) h = tt
    allows _ h = h

module _ {P : Call → Type 0} (may : AllowsReads P) (client : Client) where
  template_text-Keeps : (path : String) → Keeps P (template_text client path)
  unfolding template_text
  template_text-Keeps path =
      Keeps-call client (Call.read_template path) (may.allows (Call.read_template path) refl)

  pub cached-Keeps :
      (path : String) (templates : Dict String) (found : Option String)
      → Keeps P (cached client path templates found)
  unfolding cached
  cached-Keeps path templates none = search (keeps_rules, template_text-Keeps)
  cached-Keeps path templates (some body) = search (keeps_rules)

module _ (client : Client) where
  previewed :
      (stack body : String) (tags parameters : Dict String)
      → Keeps IsPlanning (Cfn.preview client stack body tags parameters)
  previewed stack body tags parameters =
      preview-Keeps reads client stack body tags parameters (λ request e. e)
        (λ request past id e made. tt)

  plan_existing-IsPlanning :
      (spec : StackSpec) (body : String) (stack : Stack)
      → Keeps IsPlanning (plan_existing client spec body stack)
  unfolding plan_existing
  plan_existing-IsPlanning spec body stack = search (keeps_rules, previewed)

  plan_found-IsPlanning :
      (spec : StackSpec) (body : String) (found : Option Stack)
      → Keeps IsPlanning (plan_found client spec body found)
  unfolding plan_found
  plan_found-IsPlanning spec body none = search (keeps_rules)
  plan_found-IsPlanning spec body (some stack) = plan_existing-IsPlanning spec body stack

  plan_stack-IsPlanning :
      (spec : StackSpec) (body : String) → Keeps IsPlanning (plan_stack client spec body)
  unfolding plan_stack
  plan_stack-IsPlanning spec body =
      search (keeps_rules, get_stack-Keeps reads client, plan_found-IsPlanning)

  plan_specs-IsPlanning :
      (templates : Dict String) (specs : List StackSpec)
      → Keeps IsPlanning (plan_specs client templates specs)
  unfolding plan_specs
  plan_specs-IsPlanning templates [] = search (keeps_rules)
  plan_specs-IsPlanning templates (spec ∷ specs) =
      let rest = λ (found : Dict String). plan_specs-IsPlanning found specs in
      search (keeps_rules, cached-Keeps reads client, plan_stack-IsPlanning, rest)

as_step-Keeps :
    {P : Call → Type 0} (environment : EnvName) (stack : Stack) (found : Result Inventory)
    → Keeps P (as_step environment stack found)
unfolding as_step
as_step-Keeps environment stack (ok found) = search (keeps_rules)
as_step-Keeps environment stack (err (teardown_refused r)) = search (keeps_rules)
as_step-Keeps environment stack (err _) = search (keeps_rules)

module _ {P : Call → Type 0} (may : AllowsReads P) (client : Client) (config : EnvConfig) where
  deletable-Keeps :
      (environment : EnvName) (stack : Stack) → Keeps P (deletable client config environment stack)
  unfolding deletable
  deletable-Keeps environment stack = search (keeps_rules, inventory-Keeps may client)

  plan_removed_stack-Keeps :
      (environment : Option EnvName) (stack : Stack)
      → Keeps P (plan_removed_stack client config environment stack)
  unfolding plan_removed_stack
  plan_removed_stack-Keeps none stack = search (keeps_rules)
  plan_removed_stack-Keeps (some environment) stack =
      search (keeps_rules, deletable-Keeps, as_step-Keeps)

  plan_removed_stacks-Keeps :
      (stacks : List Stack) → Keeps P (plan_removed_stacks client config stacks)
  unfolding plan_removed_stacks
  plan_removed_stacks-Keeps [] = search (keeps_rules)
  plan_removed_stacks-Keeps (stack ∷ stacks) =
      let rest = plan_removed_stacks-Keeps stacks in search (keeps_rules, plan_removed_stack-Keeps)

  pub plan_removed_environments-Keeps : Keeps P (plan_removed_environments client config)
  unfolding plan_removed_environments
  plan_removed_environments-Keeps =
      search (keeps_rules, list_stacks-Keeps may client, plan_removed_stacks-Keeps)

module _ (client : Client) (config : EnvConfig) where
  pub build_plan_lem : All IsPlanning (build_plan client config []).1
  unfolding build_plan
  build_plan_lem =
      let removed = plan_removed_environments-Keeps reads client config in
      let kept : Keeps IsPlanning (build_plan client config) =
        search (keeps_rules, plan_specs-IsPlanning client) in
      Keeps-All _ [] kept tt
