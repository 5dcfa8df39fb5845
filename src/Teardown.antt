-- ===== src/Teardown.antt =====
-- src/rc_infra/teardown.py: deleting an environment that was removed from envs.yaml. Its stack is
-- the record that it exists, and goes last.
pub mod Safety
pub mod Tests
use re_infra.Base.{
  String, ◌<>◌, Bool, true, false, ◌||◌, not, Option, none, some, List, [], ◌∷◌, ◌==◌, text_leb,
  if◌then◌else◌, elem, is_some, is_nil,
}
use re_infra.Base.Dicts.{Dict}
use re_infra.Base.Texts.{has_prefix}
use re_infra.Base.Sorting.{sort_by}
use re_infra.Aws.{
  Stack, StackResource, Refusal, protected_environment, still_declared, wrong_stack, unmanaged,
  termination_protected, app_stack_exists, tables_left, foreign_bucket, Error, teardown_refused,
  Result, ok, err,
}
use re_infra.Calls.{Call, Client}
use re_infra.Action.{Action, pure, raise, lift, call, for_each, keep_each, ◌>>=◌, ◌>>◌}
use re_infra.EnvConfig.{EnvName, is_protected, core_stack_name, app_stack_name, table_prefix}
use re_infra.Templates.{
  managed_by_tag, managed_by_value, component_tag, environment_tag, mismatched_tags,
}
use re_infra.Cfn
use re_infra.Tables
use re_infra.Buckets

abbrev refuse : {A : Type 0} → Refusal → Result A
refuse r = err (teardown_refused r)

pub record Inventory : Type 0 where
  pub environment : EnvName
  pub core_stack : String
  pub buckets : List String

-- A line of `Inventory.describe`.
pub data Deletion : Type 0 where
  bucket_deletion : String → Deletion
  stack_deletion : String → Deletion

bucket_lines : List String → String → List Deletion
bucket_lines [] stack = stack_deletion stack ∷ []
bucket_lines (b ∷ bs) stack = bucket_deletion b ∷ bucket_lines bs stack

unfoldable pub describe : Inventory → List Deletion
unfolding bucket_lines
describe found = bucket_lines found.buckets found.core_stack

pub expected_tags : EnvName → Dict String
expected_tags environment =
    (managed_by_tag, managed_by_value)
    ∷ (component_tag, "environment")
    ∷ (environment_tag, environment)
    ∷ []

unfoldable pub check_deletable : EnvName → Stack → List EnvName → Result (Unit {0})
unfolding expected_tags mismatched_tags is_protected
check_deletable environment stack declared =
    let mismatched = mismatched_tags (expected_tags environment) stack.tags in
    if is_protected environment
    then refuse (protected_environment environment)
    else if elem environment declared
    then refuse (still_declared environment)
    else if not (stack.name == core_stack_name environment)
    then refuse (wrong_stack stack.name environment)
    else if not (is_nil mismatched)
    then refuse (unmanaged stack.name mismatched)
    else if stack.termination_protection
    then refuse (termination_protected stack.name)
    else ok tt

abbrev with_name : String → Result (List String) → Result (List String)
with_name name (ok more) = ok (name ∷ more)
with_name name (err e) = err e

-- The loop of `inventory` over the stack's resources.
unfoldable pub bucket_names : String → List StackResource → Result (List String)
bucket_names core_stack [] = ok []
bucket_names core_stack (r ∷ resources) =
    let rest = bucket_names core_stack resources in
    if not (r.resource_type == "AWS::S3::Bucket") || r.physical_id == ""
    then rest
    else if not (has_prefix (core_stack <> "-") r.physical_id)
    then refuse (foreign_bucket core_stack r.physical_id)
    else with_name r.physical_id rest

-- The application stack and the tables belong to retribalize-core, which removes them first.
unfoldable pub no_app_stack : EnvName → Option Stack → Result (Unit {0})
no_app_stack environment none = ok tt
no_app_stack environment (some stack) = refuse (app_stack_exists environment)

unfoldable pub no_tables : EnvName → List String → Result (Unit {0})
no_tables environment tables =
    if is_nil tables then ok tt else refuse (tables_left environment tables)

module _ (client : Client) where
  unfoldable pub managed_table : EnvName → String → Action Bool
  managed_table environment name = do
    tags ← Tables.table_tags client name
    pure (Tables.is_managed_by_environment tags environment)

  unfoldable pub check_core_cleaned_up : EnvName → Action (Unit {0})
  check_core_cleaned_up environment = do
    app ← Cfn.get_stack client (app_stack_name environment)
    lift (no_app_stack environment app)
    names ← Tables.list_names client (table_prefix environment)
    tables ← keep_each (managed_table environment) names
    lift (no_tables environment tables)

  unfoldable pub inventory : EnvName → Action Inventory
  inventory environment = do
    check_core_cleaned_up environment
    resources ← Cfn.stack_resources client (core_stack_name environment)
    buckets ← lift (bucket_names (core_stack_name environment) resources)
    pure (record {
      environment = environment;
      core_stack = core_stack_name environment;
      buckets = sort_by text_leb buckets;
    })

  -- What follows once the core stack was found.
  pub teardown_stack : EnvName → List EnvName → Stack → Action (Unit {0})
  teardown_stack environment declared stack = do
    lift (check_deletable environment stack declared)
    found ← inventory environment
    for_each (Buckets.empty_and_delete client) found.buckets
    Cfn.delete_stack client (core_stack_name environment)

  pub teardown_found : EnvName → List EnvName → Option Stack → Action (Unit {0})
  teardown_found environment declared none = pure tt
  teardown_found environment declared (some stack) = teardown_stack environment declared stack

  unfoldable pub teardown : EnvName → List EnvName → Action (Unit {0})
  teardown environment declared = do
    present ← Cfn.get_stack client (core_stack_name environment)
    teardown_found environment declared present
