-- ===== src/Schema/Sync/Writes.antt =====
-- What the steps of sync.py that create, restore and change a table call.
use re_infra.Base.{
  ℕ, zero, suc, String, ◌≡◌, refl, inl, inr, Bool, true, false, Option, none, some, List, [], ◌∷◌,
  All-always, ap, sym, Option-cases,
}
use re_infra.Base.Dicts.{Dict}
use re_infra.Aws.{Result, ok, err}
use re_infra.Calls.{Call, Client, Dump, TableRequest, AllowsReads}
use re_infra.Action.{Action, call, lift, for_each}
use re_infra.Action.Keeps.{
  Keeps, Keeps-call, Keeps-bind, Keeps-lift, Keeps-check, Keeps-for_each, keeps_rules,
}
use re_infra.Action.Outcomes.{ok_injective}
use re_infra.Schema.Options.{
  OptionName, billing_mode, table_class, deletion_protection, stream_view_type, ttl_attribute,
  point_in_time_recovery, OptionValue, off, flag, text, Setting, unmanaged, managed, Options,
}
use re_infra.Schema.Findings.{Subject, Finding}
use re_infra.Schema.Shape.{Gsi, IndexRequest, KeyElement}
use re_infra.Schema.Values.{Row, Conversion}
use re_infra.Schema.Sync.{key_schema_to_boto}
use re_infra.Schema.Sync.Creation.{
  Table, create_gsis, index_requests, table_request, enable_ttl, request_from, creation_options,
  create_absent, create_table,
}
use re_infra.Schema.Sync.Dumps.{
  restore_item, batch_write_items, write_rest, restore_rows, restore_table,
}
use re_infra.Schema.Sync.Changes.{
  delete_gsi, create_gsi, update_table_option, enable_new_ttl, disable_old_ttl, apply_option,
  apply_option_finding, apply_option_of, rebuild_gsi, apply_in_place,
}
use re_infra.Schema.Sync.Reads

-- The calls with which a table of this name is created, restored and changed in place are allowed.
pub record AllowsChanges (P : Call → Type 0) (name : String) : Type 0 where
  pub reads : AllowsReads P
  pub creates : (request : TableRequest) → request.table_name ≡ name → P (Call.create_table request)
  pub sets_option :
      (option : OptionName) (value : OptionValue) → P (Call.set_option name option value)
  pub sets_ttl :
      (enabled : Bool) (attribute : String) → P (Call.set_time_to_live name enabled attribute)
  pub sets_recovery : (enabled : Bool) → P (Call.set_point_in_time_recovery name enabled)
  pub creates_index :
      (index : String) (request : IndexRequest) (definitions : Dict String)
      → P (Call.create_index name index request definitions)
  pub deletes_index : (index : String) → P (Call.delete_index name index)
  pub writes : (rows : List Row) → P (Call.batch_write name rows)

module _ {P : Call → Type 0} (client : Client) (table : Table)
    (may : AllowsChanges P table.name) where
  abbrev Allowed : {A : Type 0} → Action A → Type 0
  Allowed = Keeps P

  pub wait_call : Allowed (call client (Call.wait_table_active table.name))
  wait_call =
      Keeps-call client (Call.wait_table_active table.name)
        (may.reads.allows (Call.wait_table_active table.name) refl)

  pub ttl_call :
      (enabled : Bool) (attribute : String)
      → Allowed (call client (Call.set_time_to_live table.name enabled attribute))
  ttl_call enabled attribute =
      Keeps-call client (Call.set_time_to_live table.name enabled attribute)
        (may.sets_ttl enabled attribute)

  pub recovery_call :
      (enabled : Bool) → Allowed (call client (Call.set_point_in_time_recovery table.name enabled))
  recovery_call enabled =
      Keeps-call client (Call.set_point_in_time_recovery table.name enabled)
        (may.sets_recovery enabled)

  pub option_call :
      (name : OptionName) (value : OptionValue)
      → Allowed (call client (Call.set_option table.name name value))
  option_call name value =
      Keeps-call client (Call.set_option table.name name value) (may.sets_option name value)

  pub batch_call : (rows : List Row) → Allowed (call client (Call.batch_write table.name rows))
  batch_call rows = Keeps-call client (Call.batch_write table.name rows) (may.writes rows)

  pub delete_index_call :
      (name : String) → Allowed (call client (Call.delete_index table.name name))
  delete_index_call name =
      Keeps-call client (Call.delete_index table.name name) (may.deletes_index name)

  pub create_index_call :
      (name : String) (request : IndexRequest) (definitions : Dict String)
      → Allowed (call client (Call.create_index table.name name request definitions))
  create_index_call name request definitions =
      Keeps-call client (Call.create_index table.name name request definitions)
        (may.creates_index name request definitions)

  pub enable_ttl-Keeps : (s : Setting) → Allowed (enable_ttl client table.name s)
  unfolding enable_ttl
  enable_ttl-Keeps (managed (text attribute)) = ttl_call true attribute
  enable_ttl-Keeps (managed off) = search (keeps_rules)
  enable_ttl-Keeps (managed (flag b)) = search (keeps_rules)
  enable_ttl-Keeps unmanaged = search (keeps_rules)

  pub request_from-name :
      (tags : Dict String) (options : Options) (gsis : Dict Gsi)
      (indexes : Result (Dict IndexRequest)) (keys : Option (List KeyElement))
      (request : TableRequest)
      → request_from table tags options gsis indexes keys ≡ ok request
      → request.table_name ≡ table.name
  unfolding request_from
  request_from-name tags options gsis (err e) keys request h = cc
  request_from-name tags options gsis (ok indexes) none request h = cc
  request_from-name tags options gsis (ok indexes) (some keys) request h =
      ap (λ (r : TableRequest). r.table_name) (sym (ok_injective _ request h))

  pub create_absent-Keeps :
      (live : Dict Gsi) (tags : Dict String) (options : Options)
      → Allowed (create_absent client table live tags options)
  unfolding create_absent table_request
  create_absent-Keeps live tags options =
      Keeps-bind (lift (creation_options table.name table.expected.options options)) _
        (Keeps-lift _)
        (λ resolved. Keeps-check (table_request table live tags resolved) _ (λ request made.
          Keeps-bind (call client (Call.create_table request)) _
            (Keeps-call client (Call.create_table request) (
              may.creates request (
                request_from-name tags resolved (create_gsis table.expected.gsis live)
                  (index_requests live (create_gsis table.expected.gsis live))
                  (key_schema_to_boto table.expected.key_schema) request made)))
            (λ _. search (keeps_rules, wait_call, enable_ttl-Keeps, recovery_call))))

  pub create_table-Keeps :
      (live : Dict Gsi) (tags : Dict String) (options : Options)
      → Allowed (create_table client table live tags options)
  unfolding create_table
  create_table-Keeps live tags options =
      let exists = Reads.table_exists-Keeps may.reads client in
      search (keeps_rules, exists, create_absent-Keeps)

  pub batch_write_items-Keeps :
      (rounds : ℕ) (rows : List Row) → Allowed (batch_write_items client rounds table.name rows)
  unfolding batch_write_items
  batch_write_items-Keeps zero rows = search (keeps_rules)
  batch_write_items-Keeps (suc rounds) rows =
      let rest = batch_write_items-Keeps rounds in search (keeps_rules, batch_call, rest)

  pub write_rest-Keeps :
      (rounds : ℕ) (rows : List Row) → Allowed (write_rest client rounds table.name rows)
  unfolding write_rest
  write_rest-Keeps rounds [] = search (keeps_rules)
  write_rest-Keeps rounds (row ∷ rows) = batch_write_items-Keeps rounds (row ∷ rows)

  pub restore_rows-Keeps :
      (rounds : ℕ) (convert : Conversion) (batch raws : List Row)
      → Allowed (restore_rows client rounds convert table batch raws)
  unfolding restore_rows
  restore_rows-Keeps rounds convert batch [] = write_rest-Keeps rounds batch
  restore_rows-Keeps rounds convert batch (raw ∷ raws) =
      let rest = λ (next : List Row). restore_rows-Keeps rounds convert next raws in
      elim (Option-cases (restore_item convert table raw)) [
        | inl e ↦ rw (e, restore_rows) (rest batch)
        | inr (item, e) ↦ rw (e, restore_rows) (search (keeps_rules, rest, batch_write_items-Keeps))
      ]

  pub restore_table-Keeps :
      (rounds : ℕ) (convert : Conversion) (dump : Dump)
      → Allowed (restore_table client rounds convert table dump)
  unfolding restore_table
  restore_table-Keeps rounds convert dump =
      Keeps-bind (call client (Call.get_dump dump)) _
        (Keeps-call client (Call.get_dump dump) (may.reads.allows (Call.get_dump dump) refl))
        (λ raws. restore_rows-Keeps rounds convert [] raws)

  pub delete_gsi-Keeps : (name : String) → Allowed (delete_gsi client table name)
  unfolding delete_gsi
  delete_gsi-Keeps name = search (keeps_rules, delete_index_call, wait_call)

  pub create_gsi-Keeps :
      (live : Dict Gsi) (name : String) → Allowed (create_gsi client table live name)
  unfolding create_gsi
  create_gsi-Keeps live name = search (keeps_rules, create_index_call, wait_call)

  pub update_table_option-Keeps :
      (name : OptionName) (value : OptionValue)
      → Allowed (update_table_option client table name value)
  unfolding update_table_option
  update_table_option-Keeps name value = search (keeps_rules, option_call, wait_call)

  pub enable_new_ttl-Keeps :
      (declared live : OptionValue) → Allowed (enable_new_ttl client table declared live)
  unfolding enable_new_ttl
  enable_new_ttl-Keeps (text attribute) live = search (keeps_rules, ttl_call)
  enable_new_ttl-Keeps off live = search (keeps_rules)
  enable_new_ttl-Keeps (flag b) live = search (keeps_rules)

  pub disable_old_ttl-Keeps : (live : OptionValue) → Allowed (disable_old_ttl client table live)
  unfolding disable_old_ttl
  disable_old_ttl-Keeps (text attribute) = ttl_call false attribute
  disable_old_ttl-Keeps off = search (keeps_rules)
  disable_old_ttl-Keeps (flag b) = search (keeps_rules)

  pub apply_option-Keeps :
      (name : OptionName) (declared live : OptionValue)
      → Allowed (apply_option client table name declared live)
  unfolding apply_option
  apply_option-Keeps billing_mode declared live = search (keeps_rules, update_table_option-Keeps)
  apply_option-Keeps table_class declared live = update_table_option-Keeps table_class declared
  apply_option-Keeps deletion_protection declared live =
      update_table_option-Keeps deletion_protection declared
  apply_option-Keeps stream_view_type declared live =
      search (keeps_rules, update_table_option-Keeps)
  apply_option-Keeps point_in_time_recovery declared live = recovery_call _
  apply_option-Keeps ttl_attribute declared live =
      search (keeps_rules, disable_old_ttl-Keeps, enable_new_ttl-Keeps)

  pub apply_option_of-Keeps :
      (live : Options) (about : Subject) → Allowed (apply_option_of client table live about)
  unfolding apply_option_of
  apply_option_of-Keeps live (Subject.option name) = apply_option-Keeps name _ _
  apply_option_of-Keeps live _ = search (keeps_rules)

  pub apply_option_finding-Keeps :
      (live : Options) (f : Finding) → Allowed (apply_option_finding client table live f)
  unfolding apply_option_finding
  apply_option_finding-Keeps live f = apply_option_of-Keeps live f.subject

  pub rebuild_gsi-Keeps :
      (live : Dict Gsi) (f : Finding) → Allowed (rebuild_gsi client table live f)
  unfolding rebuild_gsi
  rebuild_gsi-Keeps live f = search (keeps_rules, delete_gsi-Keeps, create_gsi-Keeps)

  pub each :
      (body : Finding → Action (Unit {0})) (fs : List Finding)
      → ((f : Finding) → Allowed (body f))
      → Allowed (for_each body fs)
  each body fs k = Keeps-for_each body fs (All-always fs k)

  pub apply_in_place-Keeps :
      (options : Options) (live : Dict Gsi) (fs : List Finding)
      → Allowed (apply_in_place client table options live fs)
  unfolding apply_in_place
  apply_in_place-Keeps options live fs = search (
    keeps_rules, each, apply_option_finding-Keeps, delete_gsi-Keeps, rebuild_gsi-Keeps,
    create_gsi-Keeps,
  )
