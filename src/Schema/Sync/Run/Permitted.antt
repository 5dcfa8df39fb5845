-- ===== src/Schema/Sync/Run/Permitted.antt =====
-- Which calls a run of the schema sync makes.
use package.text.Mathlib.TextPositions.{eq_refl}
use re_infra.Base.{
  ◌∙◌, ap, String, ◌≡◌, refl, inl, inr, Bool, true, false, ◌&&◌, not, Option, List, [], ◌∷◌, map,
  elem, any_of, keep_if, All, All-weaken, subst, is_nil, arith, Bool-cases,
}
use re_infra.Base.Dicts.{Dict}
use re_infra.Aws.{ok}
use re_infra.Action.Outcomes.{bind-ok, ok_injective}
use re_infra.Calls.{Call, Client, History, is_read}
use re_infra.Action.{call, pure, when}
use re_infra.Action.Keeps.{
  Keeps-All, Keeps, Keeps-call, Keeps-bind_returning, Keeps-bind, Keeps-pure, Keeps-when,
  keeps_rules,
}
use re_infra.Schema.Options.{text, Options}
use re_infra.Schema.Findings.{
  Remedy, Finding, Granted, SchemaDiff, allow_table_recreate, is_actionable, is_permitted,
  required_permission, actionable,
}
use re_infra.Schema.Shape.{Actual}
use re_infra.Schema.Sync.{Decision, apply, decide}
use re_infra.Schema.Sync.Gate.{decide-apply_lem}
use re_infra.Schema.Diff.{diff_schemas}
use re_infra.Schema.Sync.Creation.{Table, live_schema, table_exists, granted_permissions}
use re_infra.Schema.Sync.Tags.{tag_changes, table_arn_and_tags, add_tags, ensure_table_tags}
use re_infra.Schema.Sync.Changes.{has_remedy, is_recreate_table}
use re_infra.Schema.Sync.Reads
use re_infra.Schema.Sync.Run.{
  options_of, Sync, granted, carry_out, sync_table, sync_and_tag, sync_each, unresolved_after_apply,
  unresolved_tables, confirm, require_bucket, sync_tables,
}
use re_infra.Schema.Sync.Run.Permission.{IsPermitted, reads}
use re_infra.Schema.Sync.Run.Replacing.{apply_findings-Keeps}

and_right : (a b : Bool) → a && b ≡ true → b ≡ true
and_right true b h = h
and_right false b h = cc

remedy_granted :
    (granted : Granted) (remedy : Remedy)
    → is_recreate_table remedy ≡ true
    → is_permitted granted remedy ≡ true
    → granted allow_table_recreate ≡ true
unfolding is_permitted required_permission
remedy_granted granted Remedy.recreate_table wanted permitted = permitted
remedy_granted granted _ wanted permitted = cc

-- A recreate among the findings that are acted on is allowed.
recreate_granted :
    (granted : Granted) (diff : SchemaDiff)
    → any_of (has_remedy is_recreate_table) (keep_if (is_actionable granted) diff) ≡ true
    → granted allow_table_recreate ≡ true
unfolding has_remedy
recreate_granted granted [] h = cc
recreate_granted granted (f ∷ diff) h = elim (Bool-cases (is_actionable granted f)) [
  | inl acted ↦ elim (Bool-cases (is_recreate_table f.remedy)) [
    | inl wanted ↦ remedy_granted granted f.remedy wanted (and_right _ _ acted)
    | inr other ↦ recreate_granted granted diff (rw (acted, other) at h)
  ]
  | inr passed ↦ recreate_granted granted diff (rw passed at h)
]

module _ (client : Client) (sync : Sync) (names : List String) where
  carry_out-Keeps :
      (table : Table) (live : Options) (decision : Decision)
      → elem table.name names ≡ true
      → ((fs : List Finding)
          → decision ≡ apply fs
          → (sync.applying ≡ true)
            × (any_of (has_remedy is_recreate_table) fs ≡ true
                → sync.settings.allow_table_recreate ≡ true))
      → Keeps (IsPermitted client sync names) (carry_out client sync table live decision)
  unfolding carry_out
  carry_out-Keeps table live (apply fs) known decided =
      let (asked, permitted) = decided fs refl in
      let applied = λ (bucket : Option String).
        apply_findings-Keeps client sync names table (asked, known) sync.rounds sync.convert live fs
          bucket sync.tags permitted in
      search (keeps_rules, applied)
  carry_out-Keeps table live _ known decided = search (keeps_rules)

  decided_permitted :
      (diff : SchemaDiff) (fs : List Finding)
      → decide sync.applying (granted sync) diff ≡ apply fs
      → (sync.applying ≡ true)
        × (any_of (has_remedy is_recreate_table) fs ≡ true
            → sync.settings.allow_table_recreate ≡ true)
  unfolding actionable granted_permissions
  decided_permitted diff fs h =
      let (asked, _, _, same) = decide-apply_lem sync.applying (granted sync) diff fs h in
      (
        asked,
        λ wanted.
            recreate_granted (granted sync) diff
              (subst (λ found. any_of (has_remedy is_recreate_table) found ≡ true) same wanted),
      )

  sync_table-Keeps :
      (table : Table)
      → elem table.name names ≡ true
      → Keeps (IsPermitted client sync names) (sync_table client sync table)
  unfolding sync_table
  sync_table-Keeps table known =
      let exists = Reads.table_exists-Keeps (reads client sync names) client in
      let live = Reads.live_schema-Keeps (reads client sync names) client in
      let wait : Keeps (IsPermitted client sync names)
          (call client (Call.wait_table_active table.name)) =
        Keeps-call client (Call.wait_table_active table.name) refl in
      let carried = λ (actual : Option Actual).
        carry_out-Keeps table (options_of actual)
          (decide sync.applying (granted sync) (diff_schemas table.expected actual)) known
          (decided_permitted (diff_schemas table.expected actual)) in
      Keeps-bind (table_exists client table.name) _ (exists table.name) (λ found.
        Keeps-bind (when found (call client (Call.wait_table_active table.name))) _
          (Keeps-when found _ (λ _. wait))
          (λ _. Keeps-bind (live_schema client table.name) _ (live table.name) carried))

  -- The ARN that is found is the one that AWS describes the table with.
  described_arn :
      (name : String) (past : History) (arn : String) (live : Dict String)
      → (table_arn_and_tags client name past).0 ≡ ok (arn, live)
      → client.reply past (Call.describe_table name) ≡ ok arn
  unfolding table_arn_and_tags call pure
  described_arn name past arn live h =
      let (found, e, rest) = bind-ok (call client (Call.describe_table name)) _ past _ h in
      let (pages, _, done) = bind-ok (call client (Call.list_table_tags found)) _ _ _ rest in
      e ∙ ap ok (ap (λ (x : String × Dict String). x.0) (ok_injective _ (arn, live) done))

  add_tags-Keeps :
      (table : Table)
      → elem table.name names ≡ true
      → Keeps (IsPermitted client sync names) (add_tags client table.name sync.tags sync.applying)
  unfolding add_tags
  add_tags-Keeps table known =
      let listed = Reads.table_arn_and_tags-Keeps (reads client sync names) client table.name in
      let Read : String × Dict String → Type 0 = λ (arn, live).
        (past : History) × (client.reply past (Call.describe_table table.name) ≡ ok arn)
        × ((table_arn_and_tags client table.name past).0 ≡ ok (arn, live)) in
      Keeps-bind_returning Read (table_arn_and_tags client table.name) _ listed
        (λ past (arn, live) h. (past, described_arn table.name past arn live h, h))
        (λ (arn, live) (past, described, read).
          Keeps-bind
            (when (not (is_nil (tag_changes sync.tags live)) && sync.applying)
              (call client (Call.tag_table arn (tag_changes sync.tags live))))
            _
            (Keeps-when _ _ (λ test.
              let asked =
                and_right (not (is_nil (tag_changes sync.tags live))) sync.applying test in
              Keeps-call client (Call.tag_table arn (tag_changes sync.tags live))
                (table.name, (asked, known), (past, live, described, read, refl))))
            (λ _. Keeps-pure (tag_changes sync.tags live)))

  ensure_table_tags-Keeps :
      (table : Table)
      → elem table.name names ≡ true
      → Keeps
          (IsPermitted client sync names)
          (ensure_table_tags client table sync.tags sync.applying)
  unfolding ensure_table_tags
  ensure_table_tags-Keeps table known =
      let exists = Reads.table_exists-Keeps (reads client sync names) client in
      search (keeps_rules, exists, add_tags-Keeps)

  sync_and_tag-Keeps :
      (table : Table)
      → elem table.name names ≡ true
      → Keeps (IsPermitted client sync names) (sync_and_tag client sync table)
  unfolding sync_and_tag
  sync_and_tag-Keeps table known = search (keeps_rules, sync_table-Keeps, ensure_table_tags-Keeps)

  sync_each-Keeps :
      (tables : List Table)
      → All (λ (t : Table). elem t.name names ≡ true) tables
      → Keeps (IsPermitted client sync names) (sync_each client sync tables)
  unfolding sync_each
  sync_each-Keeps [] known = search (keeps_rules)
  sync_each-Keeps (table ∷ tables) known =
      let rest = sync_each-Keeps tables known.1 in search (keeps_rules, sync_and_tag-Keeps)

  unresolved_tables-Keeps :
      (tables : List Table)
      → Keeps (IsPermitted client sync names) (unresolved_tables client sync tables)
  unfolding unresolved_tables unresolved_after_apply
  unresolved_tables-Keeps [] = search (keeps_rules)
  unresolved_tables-Keeps (table ∷ tables) =
      let live = Reads.live_schema-Keeps (reads client sync names) client in
      let rest = unresolved_tables-Keeps tables in search (keeps_rules, live)

  sync_tables-Keeps :
      (tables : List Table)
      → All (λ (t : Table). elem t.name names ≡ true) tables
      → Keeps (IsPermitted client sync names) (sync_tables client sync tables)
  unfolding sync_tables require_bucket confirm
  sync_tables-Keeps tables known =
      let required = Reads.require_dump_bucket-Keeps (reads client sync names) client in
      let each = sync_each-Keeps tables known in
      let left = unresolved_tables-Keeps tables in search (keeps_rules, required) depth 10

-- The tables of a run are those of its names.
all_listed :
    (tables : List Table)
    → All (λ (t : Table). elem t.name (map (λ (u : Table). u.name) tables) ≡ true) tables
all_listed [] = tt
all_listed (table ∷ tables) = (
  rw (eq_refl table.name) refl,
  All-weaken _ _ tables
      (λ (t : Table) (h : elem t.name (map (λ (u : Table). u.name) tables) ≡ true).
        ground (arith, h))
      (all_listed tables),
)

dry_reads :
    (client : Client) (sync : Sync) (names : List String) (c : Call)
    → sync.applying ≡ false
    → IsPermitted client sync names c
    → is_read c ≡ true
dry_reads client sync names (Call.delete_table name) dry h = cc
dry_reads client sync names (Call.put_dump dump rows) dry h = cc
dry_reads client sync names (Call.delete_dump dump) dry h = cc
dry_reads client sync names (Call.create_table request) dry h = cc
dry_reads client sync names (Call.set_option name o value) dry h = cc
dry_reads client sync names (Call.set_time_to_live name enabled attribute) dry h = cc
dry_reads client sync names (Call.set_point_in_time_recovery name enabled) dry h = cc
dry_reads client sync names (Call.create_index name index request definitions) dry h = cc
dry_reads client sync names (Call.delete_index name index) dry h = cc
dry_reads client sync names (Call.tag_table arn tags) dry (name, may, read) = cc (dry, may.0)
dry_reads client sync names (Call.batch_write name rows) dry h = cc
dry_reads client sync names _ dry h = h

module _ (client : Client) (sync : Sync) (tables : List Table) where
  -- Whatever AWS answers, a sync only reads, and changes only its own tables, and these only with
  -- --apply: it tags only an ARN with which AWS describes such a table, with tags of the run that
  -- are not among those read from it. It deletes a table, and writes or deletes a dump, only if a recreate
  -- is allowed too.
  pub sync_tables-IsPermitted :
      All
        (IsPermitted client sync (map (λ (t : Table). t.name) tables))
        (sync_tables client sync tables []).1
  sync_tables-IsPermitted =
      Keeps-All _ []
        (sync_tables-Keeps client sync (map (λ (t : Table). t.name) tables) tables
          (all_listed tables))
        tt

  -- Without --apply, a sync only reads.
  pub sync_tables-dry_run :
      sync.applying ≡ false → All (λ c. is_read c ≡ true) (sync_tables client sync tables []).1
  sync_tables-dry_run dry =
      All-weaken _ _ _ (λ c h. dry_reads client sync (map (λ (t : Table). t.name) tables) c dry h)
        sync_tables-IsPermitted
