-- ===== src/Schema/Sync/Run/Replacing.antt =====
-- What the steps of sync.py that replace a table call.
use re_infra.Base.{ℕ, String, ◌≡◌, refl, true, Option, List, [], any_of}
use re_infra.Base.Dicts.{Dict}
use re_infra.Calls.{Call, Client, Dump, AllowsReads}
use re_infra.Action.{Action, call}
use re_infra.Action.Keeps.{Keeps, Keeps-call, Keeps-bind, Keeps-if, keeps_rules}
use re_infra.Schema.Options.{Options}
use re_infra.Schema.Findings.{Finding}
use re_infra.Schema.Shape.{Gsi, Actual}
use re_infra.Schema.Values.{Row, Conversion}
use re_infra.Schema.Sync.Creation.{Table, live_schema, unmanaged_options}
use re_infra.Schema.Sync.Dumps.{dump_table}
use re_infra.Schema.Sync.Changes.{
  has_remedy, is_create_table, is_recreate_table, delete_table, replace_table, recreate_read,
  refuse_unsafe_recreate, recreate_table, recreate_into, apply_knowing, apply_findings,
}
use re_infra.Schema.Sync.Reads
use re_infra.Schema.Sync.Run.{Sync}
use re_infra.Schema.Sync.Run.Permission.{MayChange, IsPermitted, reads, changes}
use re_infra.Schema.Sync.Writes.{
  AllowsChanges, wait_call, create_table-Keeps, restore_table-Keeps, apply_in_place-Keeps,
}

module _ (client : Client) (sync : Sync) (names : List String) (table : Table)
    (may : MayChange sync names table.name) where
  abbrev Allowed : {A : Type 0} → Action A → Type 0
  Allowed = Keeps (IsPermitted client sync names)

  changed : AllowsChanges (IsPermitted client sync names) table.name
  changed = changes client sync names table.name may

  may_read : AllowsReads (IsPermitted client sync names)
  may_read = reads client sync names

  module _ (granted : sync.settings.allow_table_recreate ≡ true) where
    pub put_call : (dump : Dump) (rows : List Row) → Allowed (call client (Call.put_dump dump rows))
    put_call dump rows = Keeps-call client (Call.put_dump dump rows) (may.0, granted)

    pub delete_dump_call : (dump : Dump) → Allowed (call client (Call.delete_dump dump))
    delete_dump_call dump = Keeps-call client (Call.delete_dump dump) (may.0, granted)

    pub delete_call : Allowed (call client (Call.delete_table table.name))
    delete_call = Keeps-call client (Call.delete_table table.name) (may, granted)

    pub wait_deleted_call : Allowed (call client (Call.wait_table_deleted table.name))
    wait_deleted_call = Keeps-call client (Call.wait_table_deleted table.name) refl

    pub scan_call : Allowed (call client (Call.scan_rows table.name))
    scan_call = Keeps-call client (Call.scan_rows table.name) refl

    pub key_call : Allowed (call client (Call.fresh_dump_key table.name))
    key_call = Keeps-call client (Call.fresh_dump_key table.name) refl

    pub dump_table-Keeps :
        (convert : Conversion) (bucket : String) → Allowed (dump_table client convert table bucket)
    unfolding dump_table
    dump_table-Keeps convert bucket = search (keeps_rules, scan_call, key_call, put_call) depth 8

    pub delete_table-Keeps : Allowed (delete_table client table)
    unfolding delete_table
    delete_table-Keeps =
        let exists = Reads.table_exists-Keeps may_read client in
        search (keeps_rules, exists, delete_call, wait_deleted_call)

    pub refuse_unsafe_recreate-Keeps :
        (actual : Actual) → Allowed (refuse_unsafe_recreate client table actual)
    unfolding refuse_unsafe_recreate
    refuse_unsafe_recreate-Keeps actual =
        let attached = Reads.unmodeled_attachments-Keeps may_read client in
        search (keeps_rules, attached)

    pub replace_table-Keeps :
        (rounds : ℕ) (convert : Conversion) (tags : Dict String) (actual : Actual) (dump : Dump)
        → Allowed (replace_table client rounds convert table tags actual dump)
    unfolding replace_table
    replace_table-Keeps rounds convert tags actual dump =
        let made = create_table-Keeps client table changed in
        let restored = restore_table-Keeps client table changed in
        let waited = wait_call client table changed in
        search (keeps_rules, delete_table-Keeps, delete_dump_call) depth 9

    pub recreate_read-Keeps :
        (rounds : ℕ) (convert : Conversion) (bucket : String) (tags : Dict String) (actual : Actual)
        → Allowed (recreate_read client rounds convert table bucket tags actual)
    unfolding recreate_read
    recreate_read-Keeps rounds convert bucket tags actual =
        search (keeps_rules, refuse_unsafe_recreate-Keeps, dump_table-Keeps, replace_table-Keeps)

    pub recreate_table-Keeps :
        (rounds : ℕ) (convert : Conversion) (bucket : String) (tags : Dict String)
        → Allowed (recreate_table client rounds convert table bucket tags)
    unfolding recreate_table
    recreate_table-Keeps rounds convert bucket tags =
        Keeps-bind (call client (Call.read_schema table.name)) _
          (Keeps-call client (Call.read_schema table.name) refl)
          (λ actual. recreate_read-Keeps rounds convert bucket tags actual)

    pub recreate_into-Keeps :
        (rounds : ℕ) (convert : Conversion) (bucket : Option String) (tags : Dict String)
        → Allowed (recreate_into client rounds convert table bucket tags)
    unfolding recreate_into
    recreate_into-Keeps rounds convert bucket tags =
        let required = Reads.require_dump_bucket-Keeps may_read client in
        search (keeps_rules, required, recreate_table-Keeps)

  pub apply_knowing-Keeps :
      (rounds : ℕ) (convert : Conversion) (options : Options) (fs : List Finding)
      (bucket : Option String) (tags : Dict String) (live : Dict Gsi)
      → (any_of (has_remedy is_recreate_table) fs ≡ true
          → sync.settings.allow_table_recreate ≡ true)
      → Allowed (apply_knowing client rounds convert table options fs bucket tags live)
  unfolding apply_knowing
  apply_knowing-Keeps rounds convert options fs bucket tags live permitted =
      Keeps-if (any_of (has_remedy is_create_table) fs) _ _
        (λ _. create_table-Keeps client table changed [] tags unmanaged_options)
        (λ _.
          Keeps-if (any_of (has_remedy is_recreate_table) fs) _ _
            (λ wanted. recreate_into-Keeps (permitted wanted) rounds convert bucket tags)
            (λ _. apply_in_place-Keeps client table changed options live fs))

  pub apply_findings-Keeps :
      (rounds : ℕ) (convert : Conversion) (options : Options) (fs : List Finding)
      (bucket : Option String) (tags : Dict String)
      → (any_of (has_remedy is_recreate_table) fs ≡ true
          → sync.settings.allow_table_recreate ≡ true)
      → Allowed (apply_findings client rounds convert table options fs bucket tags)
  unfolding apply_findings
  apply_findings-Keeps rounds convert options fs bucket tags permitted =
      Keeps-bind (live_schema client table.name) _
        (Reads.live_schema-Keeps may_read client table.name)
        (λ live. apply_knowing-Keeps rounds convert options fs bucket tags _ permitted)
