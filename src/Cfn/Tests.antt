-- ===== src/Cfn/Tests.antt =====
-- A deployment whose change set would remove a bucket, on a concrete account.
use mathlib.Core.List.{flatten}
use re_infra.Base.{◌≡◌, refl, ◌⊎◌, none, some, [], ◌∷◌}
use re_infra.Aws.{ChangeSetKind, waiter_error, ok}
use re_infra.Calls.{ChangeSet}
use re_infra.Action.Extends.{Extends}
use re_infra.Action.{pure, attempt, call, ◌>>=◌}
use re_infra.Cfn.{
  Guard, after_wait, create_change_set, carry_out, guarded, execute, after_execute, deploy,
}
use re_infra.Cfn.Safety.{IsGuarded, deploy-IsGuarded, guard-deploy}
use re_infra.World.{removal, world}

abbrev request : ChangeSet
request = record {
  stack_name = "rc-env-dev";
  kind = ChangeSetKind.update;
  template_body = "template";
  tags = [];
  parameters = [];
}

abbrev refusing : Guard
refusing [] = none
refusing (c ∷ changes) = some waiter_error

abbrev allowing : Guard
allowing changes = none

deploy-IsGuarded_example :
    Extends (IsGuarded world request refusing []) [] (deploy world request refusing []).1
deploy-IsGuarded_example = deploy-IsGuarded world request refusing []

deployed : (deploy world request allowing []).0 ≡ ok (removal ∷ [])
unfolding deploy create_change_set after_wait carry_out guarded execute after_execute attempt call
    ◌>>=◌ pure flatten
deployed = refl

guard-deploy_example : (removal ∷ [] ≡ []) ⊎ (allowing (removal ∷ []) ≡ none)
guard-deploy_example = guard-deploy world request allowing [] (removal ∷ []) deployed
