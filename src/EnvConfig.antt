-- ===== src/EnvConfig.antt =====
-- src/rc_infra/env_config.py: the environments that envs.yaml declares, and every name derived
-- from them. What pydantic makes of the file is the input of `parse_env_config`.
pub mod Names
pub mod Parsing
pub mod Tests
use Prim.Native.Char.{code}
use Prim.Native.String.{[] as empty, ◌∷◌ as ◌▹◌}
use re_infra.Base.{
  ℕ, zero, suc, String, ◌<>◌, Bool, true, false, ◌&&◌, ◌||◌, not, Option, none, some, List, [], ◌∷◌,
  ◌++◌, map, ◌==◌, leb, num_eq, text_leb, if◌then◌else◌, is_some, is_nil, keep_if, elem,
}
use re_infra.Base.Texts.{after_prefix}
use re_infra.Base.Dicts.{Dict, get, keys}
use re_infra.Base.Sorting.{sort_by}

-- A name of an environment, as `envs.yaml` spells it.
abbrev pub EnvName : Type 0
EnvName = String

-- PROTECTED_ENVIRONMENTS, in the order in which `sorted` lists them.
abbrev pub protected_environments : List EnvName
protected_environments = "dev" ∷ "prod" ∷ "staging" ∷ []

-- BUCKET_LOGICAL_IDS
abbrev pub bucket_logical_ids : Dict String
bucket_logical_ids =
    ("embeddings", "EmbeddingsBucket")
    ∷ ("user-corpus", "UserCorpusBucket")
    ∷ ("avatars", "AvatarsBucket")
    ∷ ("recordings", "RecordingsBucket")
    ∷ ("schema-dumps", "SchemaDumpsBucket")
    ∷ ("property-registry", "PropertyRegistryBucket")
    ∷ []

-- "rc" is RESOURCE_PREFIX and 2 is DATA_GENERATION.
abbrev pub core_stack_prefix : String
core_stack_prefix = "rc-env-"

abbrev pub app_stack_prefix : String
app_stack_prefix = "rc-app-"

abbrev pub platform_stack_name : String
platform_stack_name = "rc-platform"

-- ENVIRONMENT_NAME_PATTERN, `^[a-z][a-z0-9]{1,19}$` under `re.match`: `$` stands at the end of the
-- text and also before a line feed that ends it.
unfoldable pub is_lower : ℕ → Bool
is_lower c = leb b'a' c && leb c b'z'

unfoldable pub is_name_char : ℕ → Bool
unfolding is_lower
is_name_char c = is_lower c || (leb b'0' c && leb c b'9')

unfoldable pub at_end : String → Bool
at_end empty = true
at_end (c ▹ empty) = num_eq (code c) 10
at_end (c ▹ d ▹ s) = false

-- `[a-z0-9]{0,k}$`
unfoldable pub tail_matches : ℕ → String → Bool
unfolding is_name_char at_end
tail_matches zero s = at_end s
tail_matches (suc k) empty = true
tail_matches (suc k) (c ▹ s) = if is_name_char (code c) then tail_matches k s else at_end (c ▹ s)

unfoldable pub name_matches : String → Bool
unfolding tail_matches is_lower
name_matches empty = false
name_matches (a ▹ empty) = false
name_matches (a ▹ b ▹ s) = is_lower (code a) && is_name_char (code b) && tail_matches 18 s

unfoldable pub core_stack_name : EnvName → String
core_stack_name environment = core_stack_prefix <> environment

unfoldable pub app_stack_name : EnvName → String
app_stack_name environment = app_stack_prefix <> environment

unfoldable pub table_prefix : EnvName → String
table_prefix environment = "rc2-" <> (environment <> "-")

unfoldable pub is_protected : EnvName → Bool
is_protected name = elem name protected_environments

unfoldable pub environment_from_core_stack : String → Option EnvName
unfolding name_matches after_prefix
environment_from_core_stack stack_name = elim (after_prefix core_stack_prefix stack_name) [
  | none ↦ none
  | some name ↦ if name_matches name then some name else none
]

pub record IdentityProfile : Type 0 where
  pub user_pool_id : String
  pub client_id : String
  pub domain : String

pub record EnvironmentSpec : Type 0 where
  pub identity : Option String

pub record EnvConfigFile : Type 0 where
  pub schema_version : ℕ
  pub account_id : String
  pub region : String
  pub identity_profiles : Dict IdentityProfile
  pub environments : Dict EnvironmentSpec

pub record Environment : Type 0 where
  pub name : EnvName
  pub account_id : String
  pub region : String
  pub identity_profile : String
  pub identity : IdentityProfile

pub record EnvConfig : Type 0 where
  pub account_id : String
  pub region : String
  pub environments : List Environment
  pub identity_profiles : Dict IdentityProfile

unfoldable pub names : EnvConfig → List EnvName
names config = map (λ (e : Environment). e.name) config.environments

-- `EnvConfig.get`; `none` is the KeyError.
environment_in : EnvName → List Environment → Option Environment
environment_in name [] = none
environment_in name (env ∷ envs) = if env.name == name then some env else environment_in name envs

unfoldable pub get_environment : EnvConfig → EnvName → Option Environment
unfolding environment_in
get_environment config name = environment_in name config.environments

-- A line of the error, by what it reports.
pub data Problem : Type 0 where
  not_a_mapping : Problem
  invalid_field : String → Problem
  unsupported_version : ℕ → Problem
  protected_removed : EnvName → Problem
  bad_name : EnvName → Problem
  unknown_profile : EnvName → String → Problem

-- The config, or the problems of an EnvConfigError.
pub data Loaded : Type 0 where
  loaded : EnvConfig → Loaded
  refused : List Problem → Loaded

-- What pydantic makes of the YAML document.
pub data Validated : Type 0 where
  not_mapping : Validated
  invalid : List String → Validated
  valid : EnvConfigFile → Validated

unfoldable pub default_identity_profile : EnvName → Dict IdentityProfile → String
default_identity_profile name profiles = if is_some (get name profiles) then name else "preview"

-- `spec.identity or ...`: an empty text is false.
pub profile_name : EnvName → EnvironmentSpec → Dict IdentityProfile → String
unfolding default_identity_profile
profile_name name spec profiles = elim spec.identity [
  | none ↦ default_identity_profile name profiles
  | some chosen ↦ if chosen == "" then default_identity_profile name profiles else chosen
]

-- What one round of the loop over the declared environments adds: a problem, or an environment.
pub data Entry : Type 0 where
  problem : Problem → Entry
  environment : Environment → Entry

pub entry_of : EnvConfigFile → EnvName → EnvironmentSpec → Entry
unfolding name_matches profile_name
entry_of file name spec =
    let profile = profile_name name spec file.identity_profiles in
    if not (name_matches name)
    then problem (bad_name name)
    else elim (get profile file.identity_profiles) [
      | none ↦ problem (unknown_profile name profile)
      | some found ↦ environment (record {
        name = name;
        account_id = file.account_id;
        region = file.region;
        identity_profile = profile;
        identity = found;
      })
    ]

abbrev pub add_entry : Entry → List Problem × List Environment → List Problem × List Environment
add_entry (problem p) (ps, es) = (p ∷ ps, es)
add_entry (environment e) (ps, es) = (ps, e ∷ es)

-- The loop: the problems and the environments, each in the order of the names.
pub entries : EnvConfigFile → Dict EnvironmentSpec → List Problem × List Environment
entries file [] = ([], [])
entries file ((name, spec) ∷ rest) = add_entry (entry_of file name spec) (entries file rest)

pub version_problems : EnvConfigFile → List Problem
version_problems file =
    if num_eq file.schema_version 1 then [] else unsupported_version file.schema_version ∷ []

pub removed : EnvConfigFile → List EnvName
removed file = keep_if (λ name. not (elem name (keys file.environments))) protected_environments

pub by_name : String × EnvironmentSpec → String × EnvironmentSpec → Bool
by_name (a, _) (b, _) = text_leb a b

-- The lines of the error, in the order in which the code finds them.
pub problems_of : EnvConfigFile → List Problem
problems_of file =
    version_problems file
    ++ (map protected_removed (removed file)
        ++ (entries file (sort_by by_name file.environments)).0)

abbrev pub config_of : EnvConfigFile → EnvConfig
config_of file = record {
  account_id = file.account_id;
  region = file.region;
  environments = (entries file (sort_by by_name file.environments)).1;
  identity_profiles = file.identity_profiles;
}

unfoldable pub parse_env_config : Validated → Loaded
parse_env_config not_mapping = refused (not_a_mapping ∷ [])
parse_env_config (invalid errors) = refused (map invalid_field errors)
parse_env_config (valid file) =
    if is_nil (problems_of file) then loaded (config_of file) else refused (problems_of file)
