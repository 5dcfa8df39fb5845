-- ===== src/Calls.antt =====
-- The calls that the program makes to AWS through boto3, and what they are answered. The services
-- are a parameter: a reply may depend on every call made before, so it covers any behaviour of
-- AWS and of whoever else changes it meanwhile. A paginated read is one call, answered with all
-- of its pages. Reading a template file is a call too.
use re_infra.Base.{ℕ, String, ◌≡◌, Bool, true, false, Option, List}
use re_infra.Base.Dicts.{Dict}
use re_infra.Aws.{ChangeSetKind, Stack, ResourceChange, StackResource, Result}
use re_infra.Schema.Options.{OptionName, OptionValue, Options}
use re_infra.Schema.Shape.{Actual, KeyElement, IndexRequest}
use re_infra.Schema.Values.{Row}

-- What `create_change_set` is given.
pub record ChangeSet : Type 0 where
  pub stack_name : String
  pub kind : ChangeSetKind
  pub template_body : String
  pub tags : Dict String
  pub parameters : Dict String

-- A page of `list_object_versions`: its versions and its delete markers, by key and version.
pub record VersionPage : Type 0 where
  pub versions : List (String × String)
  pub delete_markers : List (String × String)

-- What `create_table` is given.
pub record TableRequest : Type 0 where
  pub table_name : String
  pub key_schema : List KeyElement
  pub attribute_definitions : Dict String
  pub indexes : Dict IndexRequest
  pub tags : Dict String
  pub options : Options

-- Where a dump of a table is in S3.
pub record Dump : Type 0 where
  pub bucket : String
  pub key : String

-- A table of a transfer, by its ARN.
pub record TableArn : Type 0 where
  pub arn : String
  pub region : String
  pub account : String
  pub name : String

-- A configuration as nested dicts; a leaf is any other value.
mutual
  pub data Config : Type 0 where
    leaf : String → Config
    dict : Fields → Config

  pub data Fields : Type 0 where
    no_fields : Fields
    field : String → Config → Fields → Fields

-- A page of a scan: its items, as the low-level client returns them, and where the next one starts.
pub record ScanPage : Type 0 where
  pub items : List String
  pub last_key : Option String

pub data Call : Type 0 where
  read_template : String → Call
  describe_stacks : String → Call
  describe_all_stacks : Call
  list_stack_resources : String → Call
  create_change_set : ChangeSet → Call
  wait_change_set : String → Call
  change_set_reason : String → Call
  describe_change_set : String → Call
  delete_change_set : String → Call
  execute_change_set : String → Call
  wait_stack : String → ChangeSetKind → Call
  stack_events : String → Call
  update_termination_protection : String → Bool → Call
  delete_stack : String → Call
  wait_stack_deleted : String → Call
  head_bucket : String → Call
  list_objects : String → Call
  list_object_versions : String → Call
  list_one_version : String → Call
  delete_objects : String → List (String × String) → Call
  delete_bucket : String → Call
  list_tables : Call
  describe_table : String → Call
  list_table_tags : String → Call
  scan_one : String → Call
  delete_table : String → Call
  wait_table_deleted : String → Call
  read_schema : String → Call
  wait_table_active : String → Call
  create_table : TableRequest → Call
  set_option : String → OptionName → OptionValue → Call
  set_time_to_live : String → Bool → String → Call
  set_point_in_time_recovery : String → Bool → Call
  create_index : String → String → IndexRequest → Dict String → Call
  delete_index : String → String → Call
  kinesis_destinations : String → Call
  get_resource_policy : String → Call
  tag_table : String → Dict String → Call
  scan_rows : String → Call
  batch_write : String → List Row → Call
  fresh_dump_key : String → Call
  put_dump : Dump → List Row → Call
  get_dump : Dump → Call
  delete_dump : Dump → Call
  caller_account : Call
  canonical_config : TableArn → Call
  advisory_config : TableArn → Call
  scan_first : TableArn → Call
  count_pages : TableArn → Call
  scan_page : TableArn → Option String → Call
  put_batch : TableArn → List String → Call
  sleep : ℕ → Call

-- The type of a call's answer.
abbrev pub Answer : Call → Type 0
Answer (Call.read_template path) = String
Answer (Call.describe_stacks name) = List Stack
Answer Call.describe_all_stacks = List (List Stack)
Answer (Call.list_stack_resources name) = List (List StackResource)
Answer (Call.create_change_set request) = String
Answer (Call.change_set_reason id) = String
Answer (Call.describe_change_set id) = List (List ResourceChange)
Answer (Call.list_objects bucket) = ℕ
Answer (Call.list_object_versions bucket) = List VersionPage
Answer (Call.list_one_version bucket) = VersionPage
Answer Call.list_tables = List (List String)
Answer (Call.describe_table name) = String
Answer (Call.list_table_tags arn) = List (Dict String)
Answer (Call.scan_one name) = ℕ
Answer (Call.read_schema name) = Actual
Answer (Call.kinesis_destinations name) = List (String × String)
Answer (Call.scan_rows name) = List (List Row)
Answer (Call.batch_write name rows) = List Row
Answer (Call.fresh_dump_key name) = String
Answer (Call.get_dump dump) = List Row
Answer Call.caller_account = String
Answer (Call.canonical_config table) = Config
Answer (Call.advisory_config table) = Config
Answer (Call.scan_first table) = ℕ
Answer (Call.count_pages table) = List ℕ
Answer (Call.scan_page table start) = ScanPage
Answer (Call.put_batch table items) = List String
Answer _ = Unit

-- Latest call first.
abbrev pub History : Type 0
History = List Call

-- The services and the template files.
pub record Client : Type 0 where
  pub reply : History → (c : Call) → Result (Answer c)

-- Whether a call only reads. A change set is created, so it is none.
abbrev pub is_read : Call → Bool
is_read (Call.create_change_set request) = false
is_read (Call.delete_change_set id) = false
is_read (Call.execute_change_set id) = false
is_read (Call.update_termination_protection name enabled) = false
is_read (Call.delete_stack name) = false
is_read (Call.delete_objects bucket objects) = false
is_read (Call.delete_bucket bucket) = false
is_read (Call.delete_table name) = false
is_read (Call.create_table request) = false
is_read (Call.set_option name option value) = false
is_read (Call.set_time_to_live name enabled attribute) = false
is_read (Call.set_point_in_time_recovery name enabled) = false
is_read (Call.create_index name index request definitions) = false
is_read (Call.delete_index name index) = false
is_read (Call.tag_table name tags) = false
is_read (Call.batch_write name rows) = false
is_read (Call.put_dump dump rows) = false
is_read (Call.delete_dump dump) = false
is_read (Call.put_batch table items) = false
is_read _ = true

-- Every read is allowed.
pub record AllowsReads (P : Call → Type 0) : Type 0 where
  pub allows : (c : Call) → is_read c ≡ true → P c
