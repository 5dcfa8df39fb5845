-- ===== src/World.antt =====
-- A small AWS account for the examples: the environment `old` was removed from the config and has
-- a stack and a bucket left, nothing else exists.
use re_infra.Base.{String, false, none, some, [], ◌∷◌, ◌==◌, if◌then◌else◌}
use re_infra.Aws.{Stack, ResourceChange, StackResource, client_error, Result, ok, err}
use re_infra.Calls.{VersionPage, leaf, Call, Answer, History, Client}
use re_infra.EnvConfig.{IdentityProfile, EnvConfigFile, Environment, EnvConfig}

abbrev pub profile : IdentityProfile
profile = record { user_pool_id = "pool"; client_id = "client"; domain = "users" }

-- `prod` stands before `dev` in the file.
abbrev pub file : EnvConfigFile
file = record {
  schema_version = 1;
  account_id = "123456789012";
  region = "eu-west-1";
  identity_profiles = ("prod", profile) ∷ ("preview", profile) ∷ [];
  environments =
      ("prod", record { identity = none })
      ∷ ("dev", record { identity = some "prod" })
      ∷ ("staging", record { identity = some "" })
      ∷ [];
}

abbrev pub environment_of : String → String → Environment
environment_of name profile_name = record {
  name = name;
  account_id = "123456789012";
  region = "eu-west-1";
  identity_profile = profile_name;
  identity = profile;
}

abbrev pub config : EnvConfig
config = record {
  account_id = "123456789012";
  region = "eu-west-1";
  environments =
      environment_of "dev" "prod"
      ∷ environment_of "prod" "prod"
      ∷ environment_of "staging" "preview"
      ∷ [];
  identity_profiles = ("prod", profile) ∷ ("preview", profile) ∷ [];
}

abbrev pub old_stack : Stack
old_stack = record {
  name = "rc-env-old";
  status = "CREATE_COMPLETE";
  tags = ("ManagedBy", "re-infra") ∷ ("Component", "environment") ∷ ("Environment", "old") ∷ [];
  termination_protection = false;
  outputs = [];
}

abbrev pub old_bucket : StackResource
old_bucket = record {
  logical_id = "AvatarsBucket";
  physical_id = "rc-env-old-avatars";
  resource_type = "AWS::S3::Bucket";
}

-- A change that removes a bucket.
abbrev pub removal : ResourceChange
removal = record {
  action = "Remove";
  logical_id = "AvatarsBucket";
  resource_type = "AWS::S3::Bucket";
  replacement = none;
}

abbrev pub version_page : VersionPage
version_page = record { versions = ("photo", "1") ∷ []; delete_markers = ("photo", "2") ∷ [] }

abbrev pub reply : History → (c : Call) → Result (Answer c)
reply past (Call.read_template path) = ok "template"
reply past (Call.describe_stacks name) =
    if name == "rc-env-old"
    then ok (old_stack ∷ [])
    else err (client_error "ValidationError" "Stack does not exist")
reply past Call.describe_all_stacks = ok ((old_stack ∷ []) ∷ [])
reply past (Call.list_stack_resources name) = ok ((old_bucket ∷ []) ∷ [])
reply past (Call.create_change_set request) = ok "change-set"
reply past (Call.change_set_reason id) = ok "limit exceeded"
reply past (Call.describe_change_set id) = ok ((removal ∷ []) ∷ [])
reply past (Call.list_objects bucket) = ok 0
reply past (Call.list_object_versions bucket) = ok (version_page ∷ [])
reply past (Call.list_one_version bucket) = ok version_page
reply past Call.list_tables = ok (("rc2-dev-users" ∷ []) ∷ [])
reply past (Call.describe_table name) = ok "arn"
reply past (Call.list_table_tags arn) = ok []
reply past (Call.scan_one name) = ok 0
reply past (Call.read_schema name) = err (client_error "ResourceNotFoundException" name)
reply past (Call.kinesis_destinations name) = ok []
reply past (Call.scan_rows name) = ok []
reply past (Call.batch_write name rows) = ok []
reply past (Call.fresh_dump_key name) = ok "dump"
reply past (Call.get_dump dump) = ok []
reply past Call.caller_account = ok "123456789012"
reply past (Call.canonical_config table) = ok (leaf "config")
reply past (Call.advisory_config table) = ok (leaf "tags")
reply past (Call.scan_first table) = ok 0
reply past (Call.count_pages table) = ok (0 ∷ [])
reply past (Call.scan_page table start) = ok (record { items = []; last_key = none })
reply past (Call.put_batch table items) = ok []
reply past _ = ok tt

abbrev pub world : Client
world = record { reply = reply }
