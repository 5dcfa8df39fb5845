-- ===== src/Status/ReadOnly.antt =====
-- What reporting the status calls.
use re_infra.Base.{String, Bool, ◌≡◌, refl, true, Option, none, some, List, [], ◌∷◌, All}
use re_infra.Base.Dicts.{Dict}
use re_infra.Calls.{Call, Client, is_read, AllowsReads}
use re_infra.Action.{call}
use re_infra.Teardown.{managed_table}
use re_infra.Action.Keeps.{Keeps, Keeps-All, Keeps-call, keeps_rules, Keeps-keep_each}
use re_infra.EnvConfig.{Environment}
use re_infra.Templates.{template_text}
use re_infra.Cfn.Keeps.{get_stack-Keeps}
use re_infra.Teardown.Safety.{list_names-Keeps, managed_table-Keeps}
use re_infra.Tables
use re_infra.Buckets
use re_infra.Status.{
  bucket_state, bucket_statuses, bucket_status, table_statuses, described_tables, table_status,
  environment_status,
}

abbrev pub IsRead : Call → Type 0
IsRead c = is_read c ≡ true

reads : AllowsReads IsRead
reads = record { allows = λ c h. h }

module _ (client : Client) (versioned_in : String → List String) where
  bucket_empty-IsRead :
      (name : String) (versions : Bool) → Keeps IsRead (Buckets.is_empty client name versions)
  unfolding Buckets.is_empty
  bucket_empty-IsRead name versions =
      let count : Keeps IsRead (call client (Call.list_objects name)) =
        Keeps-call client (Call.list_objects name) refl in
      let page : Keeps IsRead (call client (Call.list_one_version name)) =
        Keeps-call client (Call.list_one_version name) refl in
      search (keeps_rules, count, page) depth 8

  table_empty-IsRead : (name : String) → Keeps IsRead (Tables.is_empty client name)
  unfolding Tables.is_empty
  table_empty-IsRead name =
      let found : Keeps IsRead (call client (Call.scan_one name)) =
        Keeps-call client (Call.scan_one name) refl in
      search (keeps_rules, found)

  bucket_state-IsRead :
      (versioned : List String) (id : String) (name : Option String)
      → Keeps IsRead (bucket_state client versioned_in versioned id name)
  unfolding bucket_state
  bucket_state-IsRead versioned id none = search (keeps_rules)
  bucket_state-IsRead versioned id (some name) = search (keeps_rules, bucket_empty-IsRead)

  bucket_statuses-IsRead :
      (environment : String) (outputs : Dict String) (versioned : List String) (ids : Dict String)
      → Keeps IsRead (bucket_statuses client versioned_in environment outputs versioned ids)
  unfolding bucket_statuses
  bucket_statuses-IsRead environment outputs versioned [] = search (keeps_rules)
  bucket_statuses-IsRead environment outputs versioned ((purpose, id) ∷ ids) =
      let rest = bucket_statuses-IsRead environment outputs versioned ids in
      search (keeps_rules, bucket_state-IsRead)

  table_statuses-IsRead :
      (environment : String) (names : List String)
      → Keeps IsRead (table_statuses client versioned_in environment names)
  unfolding table_statuses
  table_statuses-IsRead environment [] = search (keeps_rules)
  table_statuses-IsRead environment (name ∷ names) =
      let rest = table_statuses-IsRead environment names in search (keeps_rules, table_empty-IsRead)

  described-IsRead :
      (environment : String) (names : List String)
      → Keeps IsRead (described_tables client versioned_in environment names)
  unfolding described_tables
  described-IsRead environment names = search (keeps_rules, table_statuses-IsRead)

  template_text-IsRead : (path : String) → Keeps IsRead (template_text client path)
  unfolding template_text
  template_text-IsRead path = Keeps-call client (Call.read_template path) refl

  status-IsRead : (env : Environment) → Keeps IsRead (environment_status client versioned_in env)
  unfolding environment_status bucket_status table_status
  status-IsRead env =
      let stack = get_stack-Keeps reads client in
      let names = list_names-Keeps reads client in
      let managed = λ (found : List String).
        Keeps-keep_each (managed_table client env.name) found
          (managed_table-Keeps reads client env.name) in
      search
        (
          keeps_rules, stack, names, managed, template_text-IsRead, bucket_statuses-IsRead,
          described-IsRead,
        )
        depth 9

  -- Whatever AWS answers, reporting the status of an environment only reads.
  pub environment_status-IsRead :
      (env : Environment) → All IsRead (environment_status client versioned_in env []).1
  environment_status-IsRead env = Keeps-All _ [] (status-IsRead env) tt
