-- ===== src/Outputs/Tests.antt =====
-- The contract of an environment whose two stacks were deployed.
use re_infra.Base.{String, ◌≡◌, refl, false, [], ◌∷◌}
use re_infra.Base.Dicts.{Dict}
use re_infra.Aws.{Stack, Result, ok}
use re_infra.Calls.{Call, Answer, History, Client}
use re_infra.Action.{◌>>=◌, attempt, lift, call, pure}
use re_infra.EnvConfig.{bucket_logical_ids, platform_stack_name, core_stack_name}
use re_infra.Outputs.{platform_outputs, Contract, contract_of, environment_contract}
use re_infra.Outputs.Complete.{HasBuckets, HasOutputs, WasSettled, environment_contract_complete}
use re_infra.World.{environment_of, world}

abbrev outputs : Dict String
outputs =
    ("SharedLambdaExecutionRoleArn", "role")
    ∷ ("LambdaBaseImageRepositoryUri", "base")
    ∷ ("ApiImageRepositoryUri", "api")
    ∷ ("MatchingImageRepositoryUri", "matching")
    ∷ ("EmbeddingsBucketName", "embeddings-1")
    ∷ ("EmbeddingsBucketArn", "arn:embeddings-1")
    ∷ ("UserCorpusBucketName", "corpus-1")
    ∷ ("UserCorpusBucketArn", "arn:corpus-1")
    ∷ ("AvatarsBucketName", "avatars-1")
    ∷ ("AvatarsBucketArn", "arn:avatars-1")
    ∷ ("RecordingsBucketName", "recordings-1")
    ∷ ("RecordingsBucketArn", "arn:recordings-1")
    ∷ ("SchemaDumpsBucketName", "dumps-1")
    ∷ ("SchemaDumpsBucketArn", "arn:dumps-1")
    ∷ ("PropertyRegistryBucketName", "registry-1")
    ∷ ("PropertyRegistryBucketArn", "arn:registry-1")
    ∷ []

abbrev deployed : String → Stack
deployed name = record {
  name = name;
  status = "CREATE_COMPLETE";
  tags = [];
  termination_protection = false;
  outputs = outputs;
}

abbrev reply : History → (c : Call) → Result (Answer c)
reply past (Call.describe_stacks name) = ok (deployed name ∷ [])
reply past c = world.reply past c

abbrev account : Client
account = record { reply = reply }

abbrev contract : Contract
contract =
    contract_of (environment_of "dev" "prod")
      (("embeddings", ("embeddings-1", "arn:embeddings-1"))
        ∷ ("user-corpus", ("corpus-1", "arn:corpus-1"))
        ∷ ("avatars", ("avatars-1", "arn:avatars-1"))
        ∷ ("recordings", ("recordings-1", "arn:recordings-1"))
        ∷ ("schema-dumps", ("dumps-1", "arn:dumps-1"))
        ∷ ("property-registry", ("registry-1", "arn:registry-1"))
        ∷ [])
      (("lambda_execution_role_arn", "role")
        ∷ ("base_repository_uri", "base")
        ∷ ("api_repository_uri", "api")
        ∷ ("matching_repository_uri", "matching")
        ∷ [])

is_returned : (environment_contract account (environment_of "dev" "prod") []).0 ≡ ok contract
unfolding environment_contract ◌>>=◌ attempt lift call pure re_infra.Cfn.get_stack
is_returned = refl

environment_contract_complete_example :
    (platform core : Stack) × WasSettled account platform_stack_name platform
    × WasSettled account (core_stack_name "dev") core
    × HasBuckets core.outputs bucket_logical_ids contract.buckets
    × HasOutputs platform.outputs platform_outputs contract.platform
environment_contract_complete_example =
    environment_contract_complete account (environment_of "dev" "prod") [] contract is_returned
