-- ===== src/EnvConfig/Tests.antt =====
-- envs.yaml and the names on concrete inputs.
use re_infra.Base.{◌≡◌, refl, true, false, some, All, elem}
use re_infra.Base.Texts.{after_prefix}
use re_infra.Base.Dicts.{keys}
use re_infra.Base.Sorting.{sort_by}
use re_infra.EnvConfig.{
  EnvName, protected_environments, name_matches, core_stack_name, table_prefix,
  environment_from_core_stack, EnvConfig, names, loaded, valid, by_name, problems_of,
  version_problems, removed, entries, entry_of, profile_name, parse_env_config,
}
use re_infra.EnvConfig.Names.{
  environment_from_core_stack-core_stack_name, core_stack_name_of_read, table_prefix_unambiguous,
}
use re_infra.EnvConfig.Parsing.{
  IsGoodFile, parse_env_config-loaded, protected-names, parse_env_config_good,
}
use re_infra.World.{file, config}

-- `$` also stands before a line feed that ends the text.
name_matches-line_feed : name_matches "preview\n" ≡ true
unfolding name_matches
name_matches-line_feed = refl

name_matches-hyphen : name_matches "my-env" ≡ false
unfolding name_matches
name_matches-hyphen = refl

environment_from_core_stack-core_stack_name_example :
    environment_from_core_stack (core_stack_name "old") ≡ some "old"
unfolding name_matches
environment_from_core_stack-core_stack_name_example =
    environment_from_core_stack-core_stack_name "old"

read-old : environment_from_core_stack "rc-env-old" ≡ some "old"
unfolding environment_from_core_stack
read-old = refl

core_stack_name_of_read_example :
    ("rc-env-old" ≡ core_stack_name "old") × (name_matches "old" ≡ true)
core_stack_name_of_read_example = core_stack_name_of_read "rc-env-old" "old" read-old

old-matches : name_matches "old" ≡ true
unfolding name_matches
old-matches = refl

users-of_old : after_prefix (table_prefix "old") "rc2-old-users" ≡ some "users"
unfolding after_prefix table_prefix
users-of_old = refl

abbrev old : EnvName
old = "old"

table_prefix_unambiguous_example : old ≡ old
table_prefix_unambiguous_example =
    table_prefix_unambiguous "old" "old" "rc2-old-users" "users" "users" old-matches old-matches
      users-of_old users-of_old

pub parsed : parse_env_config (valid file) ≡ loaded config
unfolding parse_env_config problems_of version_problems removed entries entry_of profile_name
    sort_by by_name
parsed = refl

parse_env_config-loaded_example :
    IsGoodFile file × (names config ≡ keys (sort_by by_name file.environments))
parse_env_config-loaded_example = parse_env_config-loaded file config parsed

protected-names_example : All (λ name. elem name (names config) ≡ true) protected_environments
protected-names_example = protected-names file config parsed

is_good : IsGoodFile file
is_good = (parse_env_config-loaded file config parsed).0

parse_env_config_good_example : (c : EnvConfig) × (parse_env_config (valid file) ≡ loaded c)
parse_env_config_good_example = parse_env_config_good file is_good
