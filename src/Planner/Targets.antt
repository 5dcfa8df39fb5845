-- ===== src/Planner/Targets.antt =====
-- Where the steps of a plan come from, and what may be deleted by it.
use re_infra.Base.{
  String, ◌≡◌, ◌≢◌, refl, ◌⊎◌, inl, inr, Bool, false, Option, none, some, List, [], ◌∷◌, ◌++◌, All,
  Exists, All-append, All-weaken, elem,
}
use re_infra.Base.Dicts.{Dict}
use re_infra.Base.Sorting.{sort_by, All-sort_by}
use re_infra.Aws.{Stack, is_failed_create, ResourceChange, Error, teardown_refused, Result, ok, err}
use re_infra.Calls.{History, Client}
use re_infra.Action.Outcomes.{
  Returns, Returns-lift, OnOk, Returns-attempt, Returns-pure, Returns-raise, Returns-if,
  Returns-bind, Returns-bind_using, returns_rules,
}
use re_infra.EnvConfig.{
  EnvName, EnvConfig, names, is_protected, core_stack_name, environment_from_core_stack,
}
use re_infra.EnvConfig.Names.{core_stack_name_of_read}
use re_infra.Teardown.{Inventory, check_deletable}
use re_infra.Teardown.Safety.{MayGo, check_deletable-MayGo}
use re_infra.Planner.{
  ActionKind, blocked, delete, create, StackSpec, stack_specs, Detail, foreign_stack,
  unusable_status, refuse_destructive, foreign_tags, Step, Plan, plain, guarded_update,
  plan_changes, plan_existing, plan_found, plan_stack, plan_specs, Removed, nothing, note, step,
  as_step, add_removed, deletable, plan_removed_stack, plan_removed_stacks,
  plan_removed_environments, display_le, build_plan,
}

-- The step deploys, keeps or reports the stack of a spec. It deletes nothing but a stack whose
-- creation failed, before it creates it again.
pub record FromSpec (spec : StackSpec) (s : Step) : Type 0 where
  pub target : s.target ≡ spec.target
  pub stack : s.stack ≡ spec.stack
  pub keeps : s.kind ≢ delete

-- The step deletes, or reports, the stack of an environment that is no longer declared. It
-- deletes it only if the environment is not protected.
pub record FromRemoved (declared : List EnvName) (s : Step) : Type 0 where
  pub stack : s.stack ≡ core_stack_name s.target
  pub undeclared : elem s.target declared ≡ false
  pub unprotected : s.kind ≡ delete → is_protected s.target ≡ false
  pub not_replaced : s.replace_failed_stack ≡ false

abbrev pub IsPlanned : EnvConfig → Step → Type 0
IsPlanned config s =
    Exists (λ spec. FromSpec spec s) (stack_specs config) ⊎ FromRemoved (names config) s

blocked-ne-delete : blocked ≢ delete
blocked-ne-delete e = cc

create-ne-delete : create ≢ delete
create-ne-delete e = cc

guarded-FromSpec :
    (spec : StackSpec) (changes : List ResourceChange) (refused : Option Error)
    → FromSpec spec (guarded_update spec changes refused)
unfolding guarded_update
guarded-FromSpec spec changes none = record { target = refl; stack = refl; keeps = λ e. cc }
guarded-FromSpec spec changes (some x) = record { target = refl; stack = refl; keeps = λ e. cc }

plan_changes-FromSpec :
    (spec : StackSpec) (stack : Stack) (changes : List ResourceChange)
    → FromSpec spec (plan_changes spec stack changes)
unfolding plan_changes
plan_changes-FromSpec spec stack [] = record { target = refl; stack = refl; keeps = λ e. cc }
plan_changes-FromSpec spec stack (c ∷ changes) =
    guarded-FromSpec spec (c ∷ changes) (refuse_destructive (c ∷ changes))

step_FromSpec :
    (spec : StackSpec) (kind : ActionKind) (details : List Detail) (replace repair : Bool)
    → kind ≢ delete
    → FromSpec spec (record {
      kind = kind;
      target = spec.target;
      stack = spec.stack;
      details = details;
      replace_failed_stack = replace;
      repair_protection = repair;
    })
step_FromSpec spec kind details replace repair keeps = record {
  target = refl;
  stack = refl;
  keeps = keeps;
}

module _ (client : Client) where
  plan_existing-FromSpec :
      (spec : StackSpec) (body : String) (stack : Stack)
      → Returns (FromSpec spec) (plan_existing client spec body stack)
  unfolding plan_existing
  plan_existing-FromSpec spec body stack =
      let foreign =
        step_FromSpec spec blocked (foreign_stack spec.stack (foreign_tags spec stack) ∷ []) false
          false blocked-ne-delete in
      let fresh = step_FromSpec spec create [] (is_failed_create stack) false create-ne-delete in
      let unusable =
        step_FromSpec spec blocked (unusable_status stack.status ∷ []) false false
          blocked-ne-delete in
      search (returns_rules, foreign, fresh, unusable, plan_changes-FromSpec) depth 9

  plan_found-FromSpec :
      (spec : StackSpec) (body : String) (found : Option Stack)
      → Returns (FromSpec spec) (plan_found client spec body found)
  unfolding plan_found
  plan_found-FromSpec spec body none =
      Returns-pure (FromSpec spec) (plain create spec.target spec.stack [])
        (record { target = refl; stack = refl; keeps = create-ne-delete })
  plan_found-FromSpec spec body (some stack) = plan_existing-FromSpec spec body stack

  plan_stack-FromSpec :
      (spec : StackSpec) (body : String) → Returns (FromSpec spec) (plan_stack client spec body)
  unfolding plan_stack
  plan_stack-FromSpec spec body =
      Returns-bind (FromSpec spec) _ _ (λ found. plan_found-FromSpec spec body found)

  plan_specs-FromSpec :
      (templates : Dict String) (specs : List StackSpec)
      → Returns
          (All (λ s. Exists (λ spec. FromSpec spec s) specs))
          (plan_specs client templates specs)
  unfolding plan_specs
  plan_specs-FromSpec templates [] = Returns-pure _ [] tt
  plan_specs-FromSpec templates (spec ∷ specs) =
      let Q = All (λ s. Exists (λ spec'. FromSpec spec' s) (spec ∷ specs)) in
      Returns-bind Q _ _ λ found.
        Returns-bind_using Q (FromSpec spec) _ _ (plan_stack-FromSpec spec found.0) λ s here.
          Returns-bind_using Q (All (λ s'. Exists (λ spec'. FromSpec spec' s') specs)) _ _
            (plan_specs-FromSpec found.1 specs)
            λ rest there.
              Returns-pure Q (s ∷ rest) (inl here, All-weaken _ _ rest (λ x e. inr e) there)

abbrev Removable : List EnvName → Removed → Type 0
Removable declared nothing = Unit
Removable declared (note n) = Unit
Removable declared (step s) = FromRemoved declared s

add_removed-All :
    (declared : List EnvName) (r : Removed) (found : List Step × List String)
    → Removable declared r
    → All (FromRemoved declared) found.0
    → All (FromRemoved declared) (add_removed r found).0
add_removed-All declared nothing found h k = k
add_removed-All declared (note n) found h k = k
add_removed-All declared (step s) found h k = (h, k)

module _ (client : Client) (config : EnvConfig) where
  -- A teardown that is planned for passed the check.
  deletable-unprotected :
      (environment : EnvName) (stack : Stack)
      → Returns
          (λ found. is_protected environment ≡ false)
          (deletable client config environment stack)
  unfolding deletable
  deletable-unprotected environment stack =
      Returns-bind_using _ (λ u. MayGo environment (names config)) _ _
        (Returns-lift _ (check_deletable environment stack (names config))
          (check_deletable-MayGo environment stack (names config)))
        (λ u go. record { holds = λ past found h. go.0 })

  as_step-Removable :
      (environment : EnvName) (stack : Stack) (found : Result Inventory)
      → stack.name ≡ core_stack_name environment
      → elem environment (names config) ≡ false
      → OnOk (λ (i : Inventory). is_protected environment ≡ false) found
      → Returns (Removable (names config)) (as_step environment stack found)
  unfolding as_step
  as_step-Removable environment stack (ok found) named absent free =
      Returns-pure (Removable (names config)) _ (record {
        stack = named;
        undeclared = absent;
        unprotected = λ _. free;
        not_replaced = refl;
      })
  as_step-Removable environment stack (err (teardown_refused r)) named absent free =
      Returns-pure (Removable (names config)) _ (record {
        stack = named;
        undeclared = absent;
        unprotected = λ e. absurd (blocked-ne-delete e);
        not_replaced = refl;
      })
  as_step-Removable environment stack (err _) named absent free =
      Returns-raise (Removable (names config)) _

  plan_removed_stack-Removable :
      (environment : Option EnvName) (stack : Stack)
      → environment_from_core_stack stack.name ≡ environment
      → Returns (Removable (names config)) (plan_removed_stack client config environment stack)
  unfolding plan_removed_stack
  plan_removed_stack-Removable none stack e = Returns-pure (Removable (names config)) nothing tt
  plan_removed_stack-Removable (some environment) stack e =
      let R = Removable (names config) in
      Returns-if R _ _ _ (λ _. Returns-pure R nothing tt)
        λ absent.
          Returns-if R _ _ _ (λ _. Returns-pure R (note stack.name) tt)
            λ _.
              Returns-bind_using R (OnOk (λ (i : Inventory). is_protected environment ≡ false)) _ _
                (Returns-attempt _ _ (deletable-unprotected environment stack))
                (λ found free.
                  as_step-Removable environment stack found
                    (core_stack_name_of_read stack.name environment e).0 absent free)

  plan_removed_stacks-FromRemoved :
      (stacks : List Stack)
      → Returns
          (λ found. All (FromRemoved (names config)) found.0)
          (plan_removed_stacks client config stacks)
  unfolding plan_removed_stacks
  plan_removed_stacks-FromRemoved [] = Returns-pure _ ([], []) tt
  plan_removed_stacks-FromRemoved (stack ∷ stacks) =
      let Q = λ (found : List Step × List String). All (FromRemoved (names config)) found.0 in
      Returns-bind_using Q (Removable (names config)) _ _
        (plan_removed_stack-Removable (environment_from_core_stack stack.name) stack refl)
        λ r here. Returns-bind_using Q Q _ _ (plan_removed_stacks-FromRemoved stacks) λ rest there.
          Returns-pure Q (add_removed r rest) (add_removed-All (names config) r rest here there)

  plan_removed_environments-FromRemoved :
      Returns
        (λ found. All (FromRemoved (names config)) found.0)
        (plan_removed_environments client config)
  unfolding plan_removed_environments
  plan_removed_environments-FromRemoved =
      Returns-bind _ _ _ (λ stacks. plan_removed_stacks-FromRemoved stacks)

  planned :
      (steps removed : List Step)
      → All (λ s. Exists (λ spec. FromSpec spec s) (stack_specs config)) steps
      → All (FromRemoved (names config)) removed
      → All (IsPlanned config) (sort_by display_le (steps ++ removed))
  planned steps removed h k = All-sort_by (IsPlanned config) display_le (steps ++ removed) (
      All-append (IsPlanned config) steps removed
        (All-weaken _ (IsPlanned config) steps (λ s p. inl p) h)
        (All-weaken _ (IsPlanned config) removed (λ s p. inr p) k))

  pub build_plan-IsPlanned :
      (past : History) (plan : Plan)
      → (build_plan client config past).0 ≡ ok plan
      → All (IsPlanned config) plan.actions
  unfolding build_plan
  build_plan-IsPlanned past plan h =
      let Q = λ (p : Plan). All (IsPlanned config) p.actions in
      let whole : Returns Q (build_plan client config) =
        Returns-bind_using Q (All (λ s. Exists (λ spec. FromSpec spec s) (stack_specs config))) _ _
          (plan_specs-FromSpec client [] (stack_specs config))
          λ steps from_specs.
            Returns-bind_using Q (λ found. All (FromRemoved (names config)) found.0) _ _
              plan_removed_environments-FromRemoved
              λ removed from_removed.
                Returns-pure Q _ (planned steps removed.0 from_specs from_removed) in
      whole.holds past plan h
