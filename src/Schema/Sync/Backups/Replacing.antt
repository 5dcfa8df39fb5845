-- ===== src/Schema/Sync/Backups/Replacing.antt =====
-- A table that is replaced, and the calls that came before.
use mathlib.Core.List.{flatten}
use re_infra.Base.{ℕ, String, Option, List, [], map, All-weaken, any_of}
use re_infra.Base.Dicts.{Dict}
use re_infra.Calls.{Dump, Call, History, Client}
use re_infra.Action.{Action, call, lift, when, ◌>>◌}
use re_infra.Action.Extends.{Extends, here, next, Ever, this, before, Ever-Extends}
use re_infra.Action.Keeps.{Keeps, Keeps-call, Keeps-bind, Keeps-lift, keeps_rules}
use re_infra.Action.Ensures.{
  Ensures, Ensures-bind, Ensures-call, Ensures-Keeps, Ensures-ok, Ensures-if, Ensures-pure,
  Ensures-weaken, Preserves, Preserves-Ensures, Preserves-if, Preserves-Keeps, Preserves-bind,
}
use re_infra.Schema.Findings.{Finding}
use re_infra.Schema.Options.{Options}
use re_infra.Schema.Shape.{Actual, Gsi}
use re_infra.Schema.Values.{Row, Conversion, row_to_float}
use re_infra.Schema.Sync.Creation.{
  Table, table_exists, create_table, unmanaged_options, live_schema,
}
use re_infra.Schema.Sync.Dumps.{serialized, dump_table, restore_table, require_dump_bucket}
use re_infra.Schema.Sync.Changes.{
  delete_table, refuse_unsafe_recreate, replace_table, recreate_read, recreate_table, recreate_into,
  apply_knowing, apply_findings, has_remedy, is_create_table, is_recreate_table,
}
use re_infra.Schema.Sync.Reads
use re_infra.Schema.Sync.Writes
use re_infra.Schema.Sync.Backups.{
  IsPlain, reads-IsPlain, changes-IsPlain, Dumped, Restored, Due, IsBackedUp,
}
use re_infra.Schema.Sync.Backups.Restoring.{restore_table-Restored, dump_table-Dumped}

put-IsPlain :
    (client : Client) (dump : Dump) (rows : List Row)
    → Keeps IsPlain (call client (Call.put_dump dump rows))
put-IsPlain client dump rows = Keeps-call client (Call.put_dump dump rows) tt

module _ (client : Client) (convert : Conversion) (Listed : Table → Type 0) where
  abbrev BackedUp : History → Type 0
  BackedUp = IsBackedUp client convert Listed

  Due-IsPlain : (c : Call) (past : History) → IsPlain c → Due client convert Listed c past
  Due-IsPlain (Call.delete_table name) past p = absurd p
  Due-IsPlain (Call.delete_dump dump) past p = absurd p
  Due-IsPlain _ past p = tt

  -- Calls that end no life need nothing.
  pub plain_kept : (past now : History) → Extends IsPlain past now → BackedUp past → BackedUp now
  plain_kept past _ here i = i
  plain_kept past _ (next c now p e) i = (Due-IsPlain c now p, plain_kept past now e i)

  module _ (table : Table) (listed : Listed table) where
    abbrev Saved : Dump → History → Type 0
    Saved dump = Ever (Dumped client convert table.name dump)

    saved_kept :
        (dump : Dump) (past now : History)
        → Extends IsPlain past now
        → Saved dump past
        → Saved dump now
    saved_kept dump past now e h = Ever-Extends e h

    plain :
        {A : Type 0} (dump : Dump) (m : Action A)
        → Keeps IsPlain m
        → Ensures BackedUp (Saved dump) m (λ _. Saved dump)
    plain dump m k = Ensures-Keeps m k plain_kept (saved_kept dump)

    delete_present :
        (dump : Dump)
        → Ensures BackedUp
            (Saved dump)
            (call client (Call.delete_table table.name)
              >> call client (Call.wait_table_deleted table.name))
            (λ _. Saved dump)
    delete_present dump =
        Ensures-bind (call client (Call.delete_table table.name)) _
          (Ensures-call client (Call.delete_table table.name) (λ _. Saved dump)
            (λ past i h. ((dump, h), i))
            (λ past a i h e. before (Call.delete_table table.name) past h))
          (λ _.
            plain dump (call client (Call.wait_table_deleted table.name))
              (Keeps-call client (Call.wait_table_deleted table.name) tt))

    delete_saved :
        (dump : Dump) → Ensures BackedUp (Saved dump) (delete_table client table) (λ _. Saved dump)
    unfolding delete_table when
    delete_saved dump =
        Ensures-bind (table_exists client table.name) _
          (plain dump _ (Reads.table_exists-Keeps reads-IsPlain client table.name))
          (λ found.
            Ensures-if found _ _ (λ _. Saved dump) (λ _. delete_present dump)
              (λ _. Ensures-pure tt (λ _. Saved dump) (λ past i h. h)))

    Restored-kept :
        (dump : Dump) (past now : History)
        → Extends IsPlain past now
        → Saved dump past × Restored client convert table dump past
        → Saved dump now × Restored client convert table dump now
    Restored-kept dump past now e (saved, (raws, got, (batches, all, wrote))) = (
      Ever-Extends e saved,
      (
        raws,
        Ever-Extends e got,
        (batches, all, All-weaken _ _ batches (λ b h. Ever-Extends e h) wrote),
      ),
    )

    replace_saved :
        (rounds : ℕ) (tags : Dict String) (actual : Actual) (dump : Dump)
        → Ensures BackedUp
            (Saved dump)
            (replace_table client rounds convert table tags actual dump)
            (λ _ _. Unit)
    unfolding replace_table
    replace_saved rounds tags actual dump =
        Ensures-bind (delete_table client table) _ (delete_saved dump) (λ _.
          Ensures-bind (create_table client table actual.gsis tags actual.options) _
            (plain dump _ (
              Writes.create_table-Keeps client table (changes-IsPlain table.name) actual.gsis tags
                actual.options))
            (λ _.
              Ensures-bind (restore_table client rounds convert table dump) _
                (Ensures-ok (λ _. Restored client convert table dump) _
                  (Writes.restore_table-Keeps client table (changes-IsPlain table.name) rounds
                    convert dump)
                  plain_kept (saved_kept dump)
                  (λ past _ h. restore_table-Restored client rounds convert table dump past h))
                (λ _.
                  Ensures-bind (call client (Call.wait_table_active table.name)) _
                    (Ensures-Keeps _ (Keeps-call client (Call.wait_table_active table.name) tt)
                      plain_kept (Restored-kept dump))
                    (λ _.
                      Ensures-call client (Call.delete_dump dump) (λ _ _. Unit)
                        (λ past i (saved, restored). ((table, listed, saved, restored), i))
                        (λ past a i h e. tt)))))

    refuse-IsPlain : (actual : Actual) → Keeps IsPlain (refuse_unsafe_recreate client table actual)
    unfolding refuse_unsafe_recreate
    refuse-IsPlain actual =
        let attached = Reads.unmodeled_attachments-Keeps reads-IsPlain client in
        search (keeps_rules, attached)

    dump-IsPlain : (bucket : String) → Keeps IsPlain (dump_table client convert table bucket)
    unfolding dump_table
    dump-IsPlain bucket =
        Keeps-bind (call client (Call.scan_rows table.name)) _
          (Keeps-call client (Call.scan_rows table.name) tt)
          (λ pages.
            Keeps-bind (lift (serialized (map (row_to_float convert) (flatten pages)))) _
              (Keeps-lift _)
              (λ rows.
                Keeps-bind (call client (Call.fresh_dump_key table.name)) _
                  (Keeps-call client (Call.fresh_dump_key table.name) tt)
                  (λ key. search (keeps_rules, put-IsPlain))))

    recreate_saved :
        (rounds : ℕ) (bucket : String) (tags : Dict String) (actual : Actual)
        → Preserves BackedUp (recreate_read client rounds convert table bucket tags actual)
    unfolding recreate_read
    recreate_saved rounds bucket tags actual =
        Preserves-bind (refuse_unsafe_recreate client table actual) _
          (Preserves-Keeps _ plain_kept (refuse-IsPlain actual))
          (λ _.
            Preserves-Ensures {Pre = λ _. Unit} _ (λ past. tt)
              (Ensures-bind (dump_table client convert table bucket) _
                (Ensures-ok (λ dump. Dumped client convert table.name dump) _ (dump-IsPlain bucket)
                  plain_kept (λ past now e h. h)
                  (λ past dump h. dump_table-Dumped client convert table bucket past dump h))
                (λ dump.
                  Ensures-weaken _ (λ past (_, h). this past h)
                    (replace_saved rounds tags actual dump))))

    into_saved :
        (rounds : ℕ) (bucket : Option String) (tags : Dict String)
        → Preserves BackedUp (recreate_into client rounds convert table bucket tags)
    unfolding recreate_into recreate_table
    into_saved rounds bucket tags =
        Preserves-bind (require_dump_bucket client bucket) _
          (Preserves-Keeps _ plain_kept
            (Reads.require_dump_bucket-Keeps reads-IsPlain client bucket))
          (λ found.
            Preserves-bind (call client (Call.read_schema table.name)) _
              (Preserves-Keeps _ plain_kept (Keeps-call client (Call.read_schema table.name) tt))
              (λ actual. recreate_saved rounds found tags actual))

    apply_saved :
        (rounds : ℕ) (options : Options) (fs : List Finding) (bucket : Option String)
        (tags : Dict String) (live : Dict Gsi)
        → Preserves BackedUp (apply_knowing client rounds convert table options fs bucket tags live)
    unfolding apply_knowing
    apply_saved rounds options fs bucket tags live =
        Preserves-if (any_of (has_remedy is_create_table) fs) _ _
          (Preserves-Keeps _ plain_kept (
            Writes.create_table-Keeps client table (changes-IsPlain table.name) [] tags
              unmanaged_options))
          (Preserves-if (any_of (has_remedy is_recreate_table) fs) _ _
            (into_saved rounds bucket tags)
            (Preserves-Keeps _ plain_kept (
              Writes.apply_in_place-Keeps client table (changes-IsPlain table.name) options live
                fs)))

    pub apply_findings-BackedUp :
        (rounds : ℕ) (options : Options) (fs : List Finding) (bucket : Option String)
        (tags : Dict String)
        → Preserves BackedUp (apply_findings client rounds convert table options fs bucket tags)
    unfolding apply_findings
    apply_findings-BackedUp rounds options fs bucket tags =
        Preserves-bind (live_schema client table.name) _
          (Preserves-Keeps _ plain_kept (Reads.live_schema-Keeps reads-IsPlain client table.name))
          (λ live. apply_saved rounds options fs bucket tags _)
