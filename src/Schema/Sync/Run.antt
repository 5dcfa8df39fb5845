-- ===== src/Schema/Sync/Run.antt =====
-- python_packages/rc_dynamo/src/rc_dynamo/schema/sync.py: which tables are selected, and how each
-- is reconciled with its declaration. Progress messages are left out.
mod Permission
pub mod BackedUp
mod Replacing
pub mod Permitted
pub mod Settled
pub mod Tests
use re_infra.Base.{
  ℕ, String, Bool, true, false, ◌&&◌, ◌||◌, not, Option, none, some, List, [], ◌∷◌, map, ◌==◌, ◌++◌,
  if◌then◌else◌, is_nil, is_some, keep_if,
}
use re_infra.Base.Dicts.{Dict, get}
use re_infra.Aws.{Result, ok, err}
use re_infra.Calls.{Call, Client}
use re_infra.Action.{Action, pure, raise, lift, when, call, for_each, ◌>>=◌, ◌>>◌}
use re_infra.Schema.Options.{Options}
use re_infra.Schema.Findings.{Finding, Granted, SchemaDiff, actionable}
use re_infra.Schema.Failures.{
  irreconcilable, not_allowed, unresolved, no_tables_named, unknown_tables,
}
use re_infra.Schema.Shape.{Actual}
use re_infra.Schema.Values.{Conversion}
use re_infra.Schema.Diff.{diff_schemas}
use re_infra.Schema.Sync.{
  Decision, in_sync, cannot_reconcile, not_permitted, would_change, apply, decide,
}
use re_infra.Schema.Sync.Creation.{
  refuse, Table, Settings, granted_permissions, table_exists, unmanaged_options, live_schema,
}
use re_infra.Schema.Sync.Tags.{ensure_table_tags}
use re_infra.Schema.Sync.Dumps.{require_dump_bucket}
use re_infra.Schema.Sync.Changes.{apply_findings}

-- `--tables`: `all`, or the keys between the commas, stripped and without the empty ones.
pub data Selection : Type 0 where
  every_table : Selection
  named : List String → Selection

abbrev pub table_named : Dict Table → String → List Table
table_named tables name = elim (get name tables) [ none ↦ [] | some table ↦ table ∷ [] ]

abbrev pub tables_named : Dict Table → List String → List Table
tables_named tables [] = []
tables_named tables (name ∷ names) = table_named tables name ++ tables_named tables names

unfoldable pub select_tables : Dict Table → Selection → Result (List Table)
select_tables tables every_table = ok (map (λ (k, table). table) tables)
select_tables tables (named names) =
    let unknown = keep_if (λ name. not (is_some (get name tables))) names in
    if is_nil names
    then refuse no_tables_named
    else if not (is_nil unknown)
    then refuse (unknown_tables unknown)
    else ok (tables_named tables names)

abbrev pub options_of : Option Actual → Options
options_of none = unmanaged_options
options_of (some actual) = actual.options

-- The parameters of a run that every table shares. `rounds` bounds the loop of a batch write.
pub record Sync : Type 0 where
  pub rounds : ℕ
  pub convert : Conversion
  pub applying : Bool
  pub dump_bucket : Option String
  pub settings : Settings
  pub tags : Dict String

abbrev pub granted : Sync → Granted
granted sync = granted_permissions sync.settings

-- `dump_bucket or None`
abbrev pub bucket_or_none : Option String → Option String
bucket_or_none none = none
bucket_or_none (some bucket) = if bucket == "" then none else some bucket

module _ (client : Client) where
  -- What `_sync_table` does as it was decided; whether anything differed.
  unfoldable pub carry_out : Sync → Table → Options → Decision → Action Bool
  carry_out sync table live in_sync = pure false
  carry_out sync table live (cannot_reconcile findings) =
      lift (refuse (irreconcilable table.name findings))
  carry_out sync table live (not_permitted findings) =
      lift (refuse (not_allowed table.name findings))
  carry_out sync table live would_change = pure true
  carry_out sync table live (apply findings) = do
    apply_findings client sync.rounds sync.convert table live findings
        (bucket_or_none sync.dump_bucket) sync.tags
    pure true

  unfoldable pub sync_table : Sync → Table → Action Bool
  unfolding carry_out
  sync_table sync table = do
    exists ← table_exists client table.name
    when exists (call client (Call.wait_table_active table.name))
    actual ← live_schema client table.name
    carry_out sync table (options_of actual)
        (decide sync.applying (granted sync) (diff_schemas table.expected actual))

  -- A table of the loop of `sync_tables`: it is reconciled and then tagged.
  unfoldable pub sync_and_tag : Sync → Table → Action Bool
  unfolding sync_table
  sync_and_tag sync table = do
    differed ← sync_table sync table
    when (not (is_nil sync.tags))
        (ensure_table_tags client table sync.tags sync.applying >> pure tt)
    pure differed

  unfoldable pub sync_each : Sync → List Table → Action Bool
  unfolding sync_and_tag
  sync_each sync [] = pure false
  sync_each sync (table ∷ tables) = do
    differed ← sync_and_tag sync table
    more ← sync_each sync tables
    pure (differed || more)

  unfoldable pub unresolved_after_apply : Sync → Table → Action (List Finding)
  unresolved_after_apply sync table = do
    actual ← live_schema client table.name
    pure (actionable (granted sync) (diff_schemas table.expected actual))

  -- The tables for which something is left to do.
  unfoldable pub unresolved_tables : Sync → List Table → Action (Dict (List Finding))
  unfolding unresolved_after_apply
  unresolved_tables sync [] = pure []
  unresolved_tables sync (table ∷ tables) = do
    left ← unresolved_after_apply sync table
    more ← unresolved_tables sync tables
    pure (if is_nil left then more else (table.name, left) ∷ more)

  -- What follows the loop of `sync_tables`.
  unfoldable pub confirm : Sync → List Table → Action (Unit {0})
  unfolding unresolved_tables
  confirm sync tables = do
    left ← unresolved_tables sync tables
    lift (if is_nil left then ok tt else refuse (unresolved left))

  unfoldable pub require_bucket : Sync → Action (Unit {0})
  require_bucket sync = do require_dump_bucket client (bucket_or_none sync.dump_bucket); pure tt

  unfoldable pub sync_tables : Sync → List Table → Action Bool
  unfolding sync_each confirm require_bucket
  sync_tables sync tables = do
    when (sync.applying && sync.settings.allow_table_recreate) (require_bucket sync)
    differed ← sync_each sync tables
    when sync.applying (confirm sync tables)
    pure differed
