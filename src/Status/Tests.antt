-- ===== src/Status/Tests.antt =====
-- The status of an environment of which no stack and no managed table exists.
use re_infra.Base.{◌++◌, ◌≡◌, refl, none, List, [], ◌∷◌, All, map}
use re_infra.Aws.{ok}
use re_infra.Action.{◌>>=◌, attempt, lift, call, pure}
use re_infra.EnvConfig.{bucket_logical_ids}
use re_infra.Status.{bucket, table, not_created, ResourceStatus, status, environment_status}
use re_infra.Status.ReadOnly.{IsRead, environment_status-IsRead}
use re_infra.Status.Reported.{Covers, IsNamed, environment_status-Covers}
use re_infra.World.{environment_of, world}

environment_status-IsRead_example :
    All IsRead (environment_status world (λ template. []) (environment_of "dev" "prod") []).1
environment_status-IsRead_example =
    environment_status-IsRead world (λ template. []) (environment_of "dev" "prod")

abbrev missing : List ResourceStatus
missing =
    map (λ (purpose, id). status "dev" bucket id none not_created) bucket_logical_ids
    ++ status "dev" table "(tables)" none not_created ∷ []

is_reported :
    (environment_status world (λ template. []) (environment_of "dev" "prod") []).0 ≡ ok missing
unfolding environment_status ◌>>=◌ attempt lift call pure re_infra.Cfn.get_stack
    re_infra.EnvConfig.core_stack_name re_infra.Templates.template_text re_infra.Tables.list_names
    re_infra.Action.keep_each mathlib.Core.List.flatten re_infra.EnvConfig.table_prefix
    re_infra.Teardown.managed_table re_infra.Tables.table_tags
    re_infra.Tables.is_managed_by_environment
is_reported = refl

environment_status-Covers_example : Covers bucket_logical_ids missing × All IsNamed missing
environment_status-Covers_example =
    environment_status-Covers world (λ template. []) (environment_of "dev" "prod") [] missing
      is_reported
