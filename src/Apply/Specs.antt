-- ===== src/Apply/Specs.antt =====
-- Which spec a step is deployed with. Targets are names of environments, or `platform`.
use re_infra.Base.{
  String, ◌≡◌, refl, inl, inr, some, List, [], ◌∷◌, map, arith, if◌then◌else◌, elem, is_some,
  Option-cases,
}
use re_infra.EnvConfig.{Environment, EnvConfig, names}
use re_infra.Templates.{platform_template_path, environment_template_path}
use re_infra.Planner.{platform_target, StackSpec, environment_spec, stack_specs}
use re_infra.Apply.{spec_for}

-- Among the environments, a target is found exactly if it is the name of one.
spec_for-environment :
    (target : String) (envs : List Environment) (spec : StackSpec)
    → spec_for target (map environment_spec envs) ≡ some spec
    → spec.template_path ≡ environment_template_path
unfolding spec_for environment_spec
spec_for-environment target [] spec h = cc
spec_for-environment target (env ∷ envs) spec h =
    elim (Option-cases (spec_for target (map environment_spec envs))) [
      | inl e ↦ ground (arith, (rw (e, spec_for) at h))
      | inr (later, e) ↦
          ground (arith, (rw (e, spec_for) at h), spec_for-environment target envs later e)
    ]

is_some-spec_for :
    (target : String) (envs : List Environment)
    → is_some (spec_for target (map environment_spec envs))
      ≡ elem target (map (λ (e : Environment). e.name) envs)
unfolding spec_for environment_spec
is_some-spec_for target [] = refl
is_some-spec_for target (env ∷ envs) = ground (arith, is_some-spec_for target envs)

-- The platform's stack is deployed with the platform's template only if no environment is named
-- `platform`: that environment's spec takes its place, and its template is deployed instead.
pub spec_for-platform :
    (config : EnvConfig) (spec : StackSpec)
    → spec_for platform_target (stack_specs config) ≡ some spec
    → spec.template_path ≡ (
        if elem platform_target (names config)
        then environment_template_path
        else platform_template_path)
unfolding spec_for stack_specs names
spec_for-platform config spec h =
    elim (Option-cases (spec_for platform_target (map environment_spec config.environments))) [
      | inl e ↦
          ground
            (arith, (rw (e, spec_for) at h), is_some-spec_for platform_target config.environments)
      | inr (later, e) ↦ ground (
        arith,
        (rw (e, spec_for) at h),
        is_some-spec_for platform_target config.environments,
        spec_for-environment platform_target config.environments later e,
      )
    ]
