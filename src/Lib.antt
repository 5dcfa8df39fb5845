-- ===== src/Lib.antt =====
-- Retribalize infrastructure: what src/rc_infra does to an AWS account.
--
-- The package rc_infra reads envs.yaml, which declares the environments, and brings an AWS
-- account in line with it: a platform stack and one core stack per environment. It plans first
-- and then applies the plan, and it tears down environments that envs.yaml declares no longer.
--
-- Which file models what (paths from the repository's root):
--   * EnvConfig: src/rc_infra/env_config.py, the rules for envs.yaml and every derived name.
--   * Aws: the value types of src/rc_infra/aws.py, and the exceptions as values.
--   * Calls: the calls to boto3. `Client` is the account: a reply may depend on every call made
--     before, so a theorem for all clients covers any behaviour of AWS, and any change that is
--     made meanwhile by somebody else.
--   * Action: code that makes calls and may raise. It returns the calls made, also where it
--     raises, so what was done before an exception stays done. Action.Extends says how a list of
--     calls went on; Action.Keeps, Action.Outcomes and Action.Ensures hold the rules by which a
--     property of all calls, of all results, or of both, is composed along the code.
--   * Templates, Tables, Buckets, Cfn: templates.py, tables.py, buckets.py and cfn.py of
--     src/rc_infra, one function per method.
--   * Teardown, Planner, Apply: src/rc_infra/teardown.py, planner.py and apply.py. `Planner.Step`
--     is the class `Action` of the source.
--   * Outputs: src/rc_infra/outputs.py, the contract that other repositories read. Status:
--     src/rc_infra/status.py, which durable resources hold data; which buckets a template versions
--     is a parameter.
--   * Schema: python_packages/rc_dynamo/src/rc_dynamo/schema, which brings DynamoDB tables in
--     line with what Python declares. Schema.Options models options.py; Schema.Findings,
--     Schema.Shape and Schema.Diff model diff.py, and Schema.Shape the schemas that it compares.
--     A dict of options is a function; what is encrypted or limited matters only by whether it
--     is, and the messages of findings are left out. Schema.Items models the checks on items of
--     base_item.py and the declared schema of base_table.py; Schema.Values the conversions of
--     utils/numeric.py. Schema.Sync models sync.py: the request for an index, how base_table.py
--     reads it back, and the decision of _sync_table; Schema.Sync.Creation and Schema.Sync.Tags
--     how a table is created and tagged, Schema.Sync.Dumps how its rows are dumped and restored,
--     Schema.Sync.Changes the remedies, and Schema.Sync.Run the run over all tables. That
--     DynamoDB reports an index as it was requested is how `reported` is defined. The polling of
--     wait_table_active and the retries of _set_point_in_time_recovery are one call each, and so
--     are the three reads of actual_schema. An instance of BaseTable is a record (Table), whose
--     pydantic model is the function `validate`.
--   * Transfer: src/rc_infra/transfer. Transfer is the report of models.py and the jobs that
--     update it, Transfer.Configs and Transfer.Copying are dynamodb.py, and Transfer.Table is the
--     job for tables of jobs.py. Transfer.Keeps, Transfer.Relates and
--     Transfer.Meets hold the rules for jobs.
--   * Base: lists, texts, dicts and sorting. World: a small account for the examples, which stand
--     in the modules named Tests.
--
-- A paginated read is one call that is answered with all of its pages. Messages are values that
-- carry what the text formats; log lines are left out. A dict is a list of its items. Numbers are
-- natural. Loops run over lists, except for two that the source does not bound. The loop of
-- _batch_write_items has `rounds`; as many as there are rows are enough if every answer processes
-- a row. The loop of copy_items has `pages`, of which a scan needs as many as it has; a job whose
-- pages run out raises `still_running`, which no code catches, and so reports no copy. The depth
-- down to which configurations are compared is that of the source's.
--
-- Not modelled: what pydantic and the YAML and JSON libraries do (their results are inputs), the
-- text of plans and reports, the command lines, the transfer of buckets and its manifest, ARN
-- parsing, importing a schema module, the rest of the package rc_dynamo, and rc_identity.
pub mod Base
pub mod Aws
pub mod Calls
pub mod Action
pub mod EnvConfig
pub mod World
pub mod Apply
pub mod Buckets
pub mod Cfn
pub mod Outputs
pub mod Planner
pub mod Schema
pub mod Status
pub mod Tables
pub mod Teardown
pub mod Templates
pub mod Transfer
