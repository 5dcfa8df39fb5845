-- ===== src/Outputs.antt =====
-- src/rc_infra/outputs.py: the deployment contract, read from the outputs of two stacks.
pub mod Complete
pub mod Tests
use re_infra.Base.{String, ◌<>◌, Bool, ◌||◌, Option, none, some, List, [], ◌∷◌, if◌then◌else◌}
use re_infra.Base.Dicts.{Dict, get}
use re_infra.Aws.{
  Stack, is_busy, is_broken, is_pending_review, is_failed_create, Unavailable, no_stack, untrusted,
  no_output, outputs_unavailable, Result, ok, err,
}
use re_infra.Calls.{Client}
use re_infra.Action.{Action, pure, lift, ◌>>=◌, ◌>>◌}
use re_infra.EnvConfig.{
  Environment, bucket_logical_ids, platform_stack_name, core_stack_name, table_prefix,
}
use re_infra.Templates.{bucket_output_keys}
use re_infra.Cfn

abbrev unavailable : {A : Type 0} → Unavailable → Result A
unavailable u = err (outputs_unavailable u)

-- _PLATFORM_OUTPUTS: a field of the contract, and the key of its output.
abbrev pub platform_outputs : Dict String
platform_outputs =
    ("lambda_execution_role_arn", "SharedLambdaExecutionRoleArn")
    ∷ ("base_repository_uri", "LambdaBaseImageRepositoryUri")
    ∷ ("api_repository_uri", "ApiImageRepositoryUri")
    ∷ ("matching_repository_uri", "MatchingImageRepositoryUri")
    ∷ []

-- The schema version and the data generation are constants, and are left out.
pub record Contract : Type 0 where
  pub environment : String
  pub account_id : String
  pub region : String
  pub table_prefix : String
  pub buckets : Dict (String × String)
  pub profile : String
  pub user_pool_id : String
  pub issuer : String
  pub client_id : String
  pub oauth_domain : String
  pub platform : Dict String

-- An operation is under way, or the last one failed.
unfoldable pub is_unsettled : Stack → Bool
unfolding is_busy is_broken is_pending_review is_failed_create
is_unsettled stack =
    is_busy stack || is_broken stack || is_pending_review stack || is_failed_create stack

unfoldable pub trusted_outputs : String → Option Stack → Result (Dict String)
unfolding is_unsettled
trusted_outputs name none = unavailable (no_stack name)
trusted_outputs name (some stack) =
    if is_unsettled stack then unavailable (untrusted name stack.status) else ok stack.outputs

unfoldable pub require : Dict String → String → String → Result String
require outputs stack_name key = elim (get key outputs) [
  | none ↦ unavailable (no_output stack_name key)
  | some value ↦ ok value
]

abbrev pub with_bucket :
    String
    → Result String
    → Result String
    → Result (Dict (String × String))
    → Result (Dict (String × String))
with_bucket purpose (ok name) (ok arn) (ok rest) = ok ((purpose, (name, arn)) ∷ rest)
with_bucket purpose (ok name) (ok arn) (err e) = err e
with_bucket purpose (ok name) (err e) rest = err e
with_bucket purpose (err e) arn rest = err e

unfoldable pub bucket_entries : Dict String → String → Dict String → Result (Dict (String × String))
unfolding require bucket_output_keys
bucket_entries outputs stack [] = ok []
bucket_entries outputs stack ((purpose, logical_id) ∷ ids) =
    with_bucket purpose (require outputs stack (bucket_output_keys logical_id).0)
      (require outputs stack (bucket_output_keys logical_id).1) (bucket_entries outputs stack ids)

abbrev pub with_output : String → Result String → Result (Dict String) → Result (Dict String)
with_output field (ok value) (ok rest) = ok ((field, value) ∷ rest)
with_output field (ok value) (err e) = err e
with_output field (err e) rest = err e

unfoldable pub platform_entries : Dict String → Dict String → Result (Dict String)
unfolding require
platform_entries outputs [] = ok []
platform_entries outputs ((field, key) ∷ fields) =
    with_output field (require outputs platform_stack_name key) (platform_entries outputs fields)

unfoldable pub contract_of : Environment → Dict (String × String) → Dict String → Contract
contract_of env buckets platform = record {
  environment = env.name;
  account_id = env.account_id;
  region = env.region;
  table_prefix = table_prefix env.name;
  buckets = buckets;
  profile = env.identity_profile;
  user_pool_id = env.identity.user_pool_id;
  issuer = "https://cognito-idp." <> env.region <> ".amazonaws.com/" <> env.identity.user_pool_id;
  client_id = env.identity.client_id;
  oauth_domain = env.identity.domain;
  platform = platform;
}

module _ (client : Client) where
  unfoldable pub stack_outputs : String → Action (Dict String)
  unfolding trusted_outputs
  stack_outputs name = do stack ← Cfn.get_stack client name; lift (trusted_outputs name stack)

  unfoldable pub environment_contract : Environment → Action Contract
  unfolding stack_outputs bucket_entries platform_entries contract_of
  environment_contract env = do
    platform ← stack_outputs platform_stack_name
    environment ← stack_outputs (core_stack_name env.name)
    buckets ← lift (bucket_entries environment (core_stack_name env.name) bucket_logical_ids)
    fields ← lift (platform_entries platform platform_outputs)
    pure (contract_of env buckets fields)
