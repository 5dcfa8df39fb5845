-- ===== src/Status.antt =====
-- src/rc_infra/status.py: which durable resources of an environment hold data. Which buckets are
-- versioned is read from the parsed template, by a function that is a parameter.
pub mod ReadOnly
pub mod Reported
pub mod Tests
use re_infra.Base.{
  String, Bool, not, Option, none, some, List, [], ◌∷◌, ◌++◌, if◌then◌else◌, elem, is_nil,
}
use re_infra.Base.Dicts.{Dict, get}
use re_infra.Base.Texts.{after_prefix}
use re_infra.Aws.{Stack}
use re_infra.Calls.{Client}
use re_infra.Action.{Action, pure, keep_each, ◌>>=◌, ◌>>◌}
use re_infra.EnvConfig.{Environment, bucket_logical_ids, core_stack_name, table_prefix}
use re_infra.Templates.{bucket_output_keys, environment_template_path, template_text}
use re_infra.Teardown.{managed_table}
use re_infra.Cfn
use re_infra.Tables
use re_infra.Buckets

pub data State : Type 0 where
  empty non_empty not_created : State

pub data Kind : Type 0 where
  bucket table : Kind

pub record ResourceStatus : Type 0 where
  pub environment : String
  pub kind : Kind
  pub resource : String
  pub physical_name : Option String
  pub state : State

abbrev state_of : Bool → State
state_of is_empty = if is_empty then empty else non_empty

abbrev pub outputs_of : Option Stack → Dict String
outputs_of none = []
outputs_of (some stack) = stack.outputs

-- `name.removeprefix(prefix)`
abbrev without_prefix : String → String → String
without_prefix prefix name = elim (after_prefix prefix name) [ none ↦ name | some rest ↦ rest ]

abbrev pub status : String → Kind → String → Option String → State → ResourceStatus
status environment kind resource physical_name state = record {
  environment = environment;
  kind = kind;
  resource = resource;
  physical_name = physical_name;
  state = state;
}

module _ (client : Client) (versioned_in : String → List String) where
  -- A versioned bucket that holds only old versions or delete markers is not empty.
  unfoldable pub bucket_state : List String → String → Option String → Action State
  bucket_state versioned logical_id none = pure not_created
  bucket_state versioned logical_id (some name) = do
    is_empty ← Buckets.is_empty client name (elem logical_id versioned)
    pure (state_of is_empty)

  unfoldable pub bucket_statuses :
      String → Dict String → List String → Dict String → Action (List ResourceStatus)
  unfolding bucket_state bucket_output_keys
  bucket_statuses environment outputs versioned [] = pure []
  bucket_statuses environment outputs versioned ((purpose, logical_id) ∷ ids) = do
    let name = get (bucket_output_keys logical_id).0 outputs
    state ← bucket_state versioned logical_id name
    rest ← bucket_statuses environment outputs versioned ids
    pure (status environment bucket logical_id name state ∷ rest)

  unfoldable pub bucket_status : Environment → Action (List ResourceStatus)
  unfolding bucket_statuses
  bucket_status env = do
    stack ← Cfn.get_stack client (core_stack_name env.name)
    template ← template_text client environment_template_path
    bucket_statuses env.name (outputs_of stack) (versioned_in template) bucket_logical_ids

  unfoldable pub table_statuses : String → List String → Action (List ResourceStatus)
  unfolding after_prefix
  table_statuses environment [] = pure []
  table_statuses environment (name ∷ names) = do
    is_empty ← Tables.is_empty client name
    rest ← table_statuses environment names
    pure (
        status environment table (without_prefix (table_prefix environment) name) (some name)
          (state_of is_empty)
        ∷ rest)

  -- The tables are created by the schema sync, not by apply.
  unfoldable pub described_tables : String → List String → Action (List ResourceStatus)
  unfolding table_statuses
  described_tables environment names =
      if is_nil names
      then pure (status environment table "(tables)" none not_created ∷ [])
      else table_statuses environment names

  unfoldable pub table_status : Environment → Action (List ResourceStatus)
  unfolding described_tables
  table_status env = do
    names ← Tables.list_names client (table_prefix env.name)
    managed ← keep_each (managed_table client env.name) names
    described_tables env.name managed

  unfoldable pub environment_status : Environment → Action (List ResourceStatus)
  unfolding bucket_status table_status
  environment_status env = do
    buckets ← bucket_status env
    tables ← table_status env
    pure (buckets ++ tables)
