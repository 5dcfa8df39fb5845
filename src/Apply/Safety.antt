-- ===== src/Apply/Safety.antt =====
-- What applying a plan may delete.
use re_infra.Base.{
  String, ◌≡◌, refl, ◌⊎◌, inl, inr, true, Option, none, some, List, [], ◌∷◌, All, Exists,
  All-weaken,
}
use re_infra.Base.Sorting.{All-sort_by}
use re_infra.Aws.{Stack, ok}
use re_infra.Calls.{Call, History, Client, is_read, AllowsReads}
use re_infra.Action.{pure}
use re_infra.Action.Keeps.{
  Keeps, Keeps-All, Keeps-if, Keeps-bind, Keeps-pure, Keeps-call, keeps_rules,
}
use re_infra.EnvConfig.{EnvName, EnvConfig, names, core_stack_name}
use re_infra.Templates.{template_text}
use re_infra.Cfn
use re_infra.Cfn.Keeps.{get_stack-Keeps, deploy-Keeps, delete_stack-Keeps}
use re_infra.Teardown.Safety.{MayGo, BelongsTo, teardown-Keeps}
use re_infra.Planner.{
  ActionKind, blocked, delete, create, update, noop, StackSpec, stack_specs, Step, Plan, build_plan,
}
use re_infra.Planner.Targets.{FromSpec, IsPlanned, build_plan-IsPlanned}
use re_infra.Apply.{
  runs_before, guard_of, protect_found, protect, replace_failed, request, deploy, deploy_known,
  run_kind, Progress, run_step, visit, run_steps, start, ordered, run_ordered, apply_plan,
}

-- A stack is deleted only as that of an environment that may go, or as one of `replaceable`; a
-- bucket only as that of an environment that may go.
module _ (config : EnvConfig) (replaceable : String → Type 0) where
  abbrev pub MayDeleteStack : String → Type 0
  MayDeleteStack name =
      replaceable name
      ⊎ ((environment : EnvName) × MayGo environment (names config)
          × (name ≡ core_stack_name environment))

  abbrev pub MayDeleteBucket : String → Type 0
  MayDeleteBucket bucket =
      (environment : EnvName) × MayGo environment (names config) × BelongsTo environment bucket

  abbrev pub IsApply : Call → Type 0
  IsApply (Call.delete_stack name) = MayDeleteStack name
  IsApply (Call.delete_bucket bucket) = MayDeleteBucket bucket
  IsApply (Call.delete_objects bucket objects) = MayDeleteBucket bucket
  IsApply _ = Unit

  reads : AllowsReads IsApply
  reads = record { allows = allows }
    where
      allows : (c : Call) → is_read c ≡ true → IsApply c
      allows (Call.delete_stack name) h = cc
      allows (Call.delete_bucket bucket) h = cc
      allows (Call.delete_objects bucket objects) h = cc
      allows _ h = tt

  -- A step that has its stack deleted first has one of the replaceable ones.
  abbrev pub IsReplaceable : Step → Type 0
  IsReplaceable step = step.replace_failed_stack ≡ true → replaceable step.stack

  module _ (client : Client) where
    protect_found-Keeps :
        (name : String) (found : Option Stack) → Keeps IsApply (protect_found client name found)
    unfolding protect_found Cfn.set_termination_protection
    protect_found-Keeps name none = search (keeps_rules)
    protect_found-Keeps name (some stack) =
        Keeps-if _ _ _ (λ _. Keeps-pure tt)
          (λ _. Keeps-call {P = IsApply} client (Call.update_termination_protection name true) tt)

    protect-Keeps : (step : Step) → Keeps IsApply (protect client step)
    unfolding protect
    protect-Keeps step = search (keeps_rules, get_stack-Keeps reads client, protect_found-Keeps)

    replace_failed-Keeps :
        (step : Step) (spec : StackSpec)
        → replaceable step.stack
        → Keeps IsApply (replace_failed client step spec)
    unfolding replace_failed
    replace_failed-Keeps step spec r =
        let deleted = delete_stack-Keeps reads client step.stack (inl r) in
        search (keeps_rules, get_stack-Keeps reads client)

    deploy-IsApply :
        (step : Step) (spec : StackSpec)
        → IsReplaceable step
        → Keeps IsApply (deploy client step spec)
    unfolding deploy
    deploy-IsApply step spec ready =
        let replaced =
          Keeps-if step.replace_failed_stack (replace_failed client step spec) (pure tt)
            (λ e. replace_failed-Keeps step spec (ready e)) (λ _. Keeps-pure tt) in
        let text : Keeps IsApply (template_text client spec.template_path) =
          unfold template_text in Keeps-call client (Call.read_template spec.template_path) tt in
        let deployed = λ (body : String).
          deploy-Keeps reads client (request client step spec body) tt (λ past id h. tt)
            (guard_of step.kind) (λ id. tt) in
        let protected = protect-Keeps step in search (keeps_rules, deployed)

    deploy_known-IsApply :
        (step : Step) (found : Option StackSpec)
        → IsReplaceable step
        → Keeps IsApply (deploy_known client step found)
    unfolding deploy_known
    deploy_known-IsApply step none ready = search (keeps_rules)
    deploy_known-IsApply step (some spec) ready = deploy-IsApply step spec ready

    run_kind-IsApply :
        (step : Step) (kind : ActionKind)
        → IsReplaceable step
        → Keeps IsApply (run_kind client config step kind)
    unfolding run_kind
    run_kind-IsApply step blocked ready = search (keeps_rules)
    run_kind-IsApply step delete ready =
        teardown-Keeps reads client step.target (names config) (λ go. inr (step.target, go, refl))
          (λ go bucket objects own. ((step.target, go, own), (step.target, go, own)))
    run_kind-IsApply step create ready = deploy_known-IsApply step _ ready
    run_kind-IsApply step update ready = deploy_known-IsApply step _ ready
    run_kind-IsApply step noop ready = Keeps-if _ _ _ (λ _. protect-Keeps step) (λ _. Keeps-pure tt)

    run_step-IsApply :
        (step : Step) (kind : ActionKind) (p : Progress)
        → IsReplaceable step
        → Keeps IsApply (run_step client config step kind p)
    unfolding run_step
    run_step-IsApply step blocked p ready = search (keeps_rules)
    run_step-IsApply step kind p ready =
        let ran = run_kind-IsApply step kind ready in search (keeps_rules)

    visit-IsApply :
        (step : Step) (foundation : Option String) (p : Progress)
        → IsReplaceable step
        → Keeps IsApply (visit client config step foundation p)
    unfolding visit
    visit-IsApply step none p ready = run_step-IsApply step step.kind p ready
    visit-IsApply step (some f) p ready = search (keeps_rules)

    run_steps-IsApply :
        (steps : List Step) (p : Progress)
        → All IsReplaceable steps
        → Keeps IsApply (run_steps client config steps p)
    unfolding run_steps
    run_steps-IsApply [] p ready = search (keeps_rules)
    run_steps-IsApply (step ∷ steps) p ready =
        Keeps-bind (visit client config step p.foundation_failed p) _
          (visit-IsApply step p.foundation_failed p ready.0)
          (λ p'. run_steps-IsApply steps p' ready.1)

    -- Whatever the plan, and whatever AWS answers, no stack is deleted but those of environments
    -- that may go and those that the plan replaces, and no bucket but those of such environments.
    apply_plan-IsApply :
        (plan : Plan)
        → All IsReplaceable plan.actions
        → All IsApply (apply_plan client config plan []).1
    unfolding apply_plan run_ordered
    apply_plan-IsApply plan ready =
        let ran =
          run_steps-IsApply (ordered client config plan) (start client config)
            (All-sort_by IsReplaceable (runs_before (stack_specs config)) plan.actions ready) in
        Keeps-All (apply_plan client config plan) [] (search (keeps_rules, ran)) tt

-- The stack of a spec of the config.
abbrev pub IsSpecStack : EnvConfig → String → Type 0
IsSpecStack config name = Exists (λ (spec : StackSpec). name ≡ spec.stack) (stack_specs config)

spec_stack :
    (specs : List StackSpec) (s : Step)
    → Exists (λ spec. FromSpec spec s) specs
    → Exists (λ (spec : StackSpec). s.stack ≡ spec.stack) specs
spec_stack [] s e = e
spec_stack (spec ∷ specs) s (inl here) = inl here.stack
spec_stack (spec ∷ specs) s (inr there) = inr (spec_stack specs s there)

planned-IsReplaceable :
    (config : EnvConfig) (s : Step)
    → IsPlanned config s
    → IsReplaceable config (IsSpecStack config) s
planned-IsReplaceable config s (inl from_spec) e = spec_stack (stack_specs config) s from_spec
planned-IsReplaceable config s (inr from_removed) e = cc (from_removed.not_replaced)

-- A plan made by `build_plan` and applied later, while AWS may have changed, deletes no stack
-- but those of the config's specs and those of environments that are neither protected nor
-- declared; and no bucket but those of such environments.
pub apply_plan-build_plan :
    (planning applying : Client) (config : EnvConfig) (past : History) (plan : Plan)
    → (build_plan planning config past).0 ≡ ok plan
    → All (IsApply config (IsSpecStack config)) (apply_plan applying config plan []).1
apply_plan-build_plan planning applying config past plan h =
    apply_plan-IsApply config (IsSpecStack config) applying plan (
      All-weaken (IsPlanned config) (IsReplaceable config (IsSpecStack config)) plan.actions
        (planned-IsReplaceable config) (build_plan-IsPlanned planning config past plan h))
