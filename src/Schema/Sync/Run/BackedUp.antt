-- ===== src/Schema/Sync/Run/BackedUp.antt =====
-- The order in which a run of the schema sync dumps, deletes and restores.
use re_infra.Base.{
  String, ◌≡◌, refl, inl, inr, true, ◌&&◌, not, List, [], ◌∷◌, is_nil, All, All-weaken, Exists,
}
use re_infra.Base.Dicts.{Dict}
use re_infra.Calls.{Call, History, Client}
use re_infra.Action.{Action, call, when, pure, ◌>>◌}
use re_infra.Action.Keeps.{Keeps, Keeps-call, Keeps-bind, Keeps-when, Keeps-pure, keeps_rules}
use re_infra.Action.Ensures.{Preserves, Preserves-Keeps, Preserves-bind}
use re_infra.Schema.Options.{Options}
use re_infra.Schema.Sync.{Decision, apply}
use re_infra.Schema.Sync.Creation.{Table, table_exists, live_schema}
use re_infra.Schema.Sync.Tags.{add_tags, ensure_table_tags}
use re_infra.Schema.Sync.Reads
use re_infra.Schema.Sync.Backups.{IsPlain, reads-IsPlain, IsBackedUp}
use re_infra.Schema.Sync.Backups.Replacing.{plain_kept, apply_findings-BackedUp}
use re_infra.Schema.Sync.Run.{
  options_of, Sync, bucket_or_none, carry_out, sync_table, sync_and_tag, sync_each,
  unresolved_after_apply, unresolved_tables, confirm, require_bucket, sync_tables,
}

module _ (client : Client) (sync : Sync) (tables : List Table) where
  abbrev pub Listed : Table → Type 0
  Listed table = Exists (λ (t : Table). t ≡ table) tables

  abbrev pub BackedUp : History → Type 0
  BackedUp = IsBackedUp client sync.convert Listed

  plain : {A : Type 0} (m : Action A) → Keeps IsPlain m → Preserves BackedUp m
  plain m k = Preserves-Keeps m (plain_kept client sync.convert Listed) k

  carry_out-BackedUp :
      (table : Table) (live : Options) (decision : Decision)
      → Listed table
      → Preserves BackedUp (carry_out client sync table live decision)
  unfolding carry_out
  carry_out-BackedUp table live (apply fs) listed =
      Preserves-bind _ _
        (apply_findings-BackedUp client sync.convert Listed table listed sync.rounds live fs
          (bucket_or_none sync.dump_bucket) sync.tags)
        (λ _. plain (pure true) (Keeps-pure true))
  carry_out-BackedUp table live _ listed = plain _ (search (keeps_rules))

  sync_table-BackedUp :
      (table : Table) → Listed table → Preserves BackedUp (sync_table client sync table)
  unfolding sync_table
  sync_table-BackedUp table listed =
      Preserves-bind (table_exists client table.name) _
        (plain _ (Reads.table_exists-Keeps reads-IsPlain client table.name))
        (λ found.
          Preserves-bind (when found (call client (Call.wait_table_active table.name))) _
            (plain _
              (Keeps-when found _ (λ _. Keeps-call client (Call.wait_table_active table.name) tt)))
            (λ _.
              Preserves-bind (live_schema client table.name) _
                (plain _ (Reads.live_schema-Keeps reads-IsPlain client table.name))
                (λ actual. carry_out-BackedUp table (options_of actual) _ listed)))

  tag-IsPlain :
      (table : Table) → Keeps IsPlain (ensure_table_tags client table sync.tags sync.applying)
  unfolding ensure_table_tags add_tags
  tag-IsPlain table =
      let exists = Reads.table_exists-Keeps reads-IsPlain client in
      let listed = Reads.table_arn_and_tags-Keeps reads-IsPlain client in
      let tagged : (arn : String) (tags : Dict String)
          → Keeps IsPlain (call client (Call.tag_table arn tags)) =
        λ arn tags. Keeps-call client (Call.tag_table arn tags) tt in
      search (keeps_rules, exists, listed, tagged) depth 10

  tag_step :
      (table : Table)
      → Keeps IsPlain (
          when
            (not (is_nil sync.tags))
            (ensure_table_tags client table sync.tags sync.applying >> pure tt))
  tag_step table = search (keeps_rules, tag-IsPlain)

  each-BackedUp :
      (some : List Table) → All Listed some → Preserves BackedUp (sync_each client sync some)
  unfolding sync_each sync_and_tag
  each-BackedUp [] listed = plain _ (search (keeps_rules))
  each-BackedUp (table ∷ rest) listed =
      Preserves-bind _ _
        (Preserves-bind (sync_table client sync table) _ (sync_table-BackedUp table listed.0)
          (λ differed. plain _ (Keeps-bind _ _ (tag_step table) (λ _. Keeps-pure differed))))
        (λ differed.
          Preserves-bind (sync_each client sync rest) _ (each-BackedUp rest listed.1)
            (λ more. plain _ (Keeps-pure _)))

  unresolved-IsPlain : (some : List Table) → Keeps IsPlain (unresolved_tables client sync some)
  unfolding unresolved_tables unresolved_after_apply
  unresolved-IsPlain [] = search (keeps_rules)
  unresolved-IsPlain (table ∷ rest) =
      let live = Reads.live_schema-Keeps reads-IsPlain client in
      let more = unresolved-IsPlain rest in search (keeps_rules, live)

  require-IsPlain : Keeps IsPlain (require_bucket client sync)
  unfolding require_bucket
  require-IsPlain =
      let required = Reads.require_dump_bucket-Keeps reads-IsPlain client in
      search (keeps_rules, required)

  confirm-IsPlain : Keeps IsPlain (confirm client sync tables)
  unfolding confirm
  confirm-IsPlain = search (keeps_rules, unresolved-IsPlain)

every_listed :
    (tables : List Table) → All (λ (table : Table). Exists (λ (t : Table). t ≡ table) tables) tables
every_listed [] = tt
every_listed (table ∷ tables) =
    (inl refl, All-weaken _ _ tables (λ t h. inr h) (every_listed tables))

module _ (client : Client) (sync : Sync) (tables : List Table) where
  -- Whatever AWS answers, whenever a sync deletes a table, every row of a scan of it was put into a
  -- dump before; and whenever it deletes a dump, the dump was read and every row that can be
  -- restored to its table was written to it, in batches that were sent again until nothing was
  -- left unprocessed.
  pub sync_tables-IsBackedUp :
      IsBackedUp client sync.convert
        (Listed client sync tables)
        (sync_tables client sync tables []).1
  unfolding sync_tables
  sync_tables-IsBackedUp =
      let kept : Preserves (BackedUp client sync tables) (sync_tables client sync tables) =
        Preserves-bind _ _
          (plain client sync tables _ (
            Keeps-when (sync.applying && sync.settings.allow_table_recreate) _
              (λ _. require-IsPlain client sync tables)))
          (λ _.
            Preserves-bind (sync_each client sync tables) _
              (each-BackedUp client sync tables tables (every_listed tables))
              (λ differed. plain client sync tables _ (
                Keeps-bind _ _
                  (Keeps-when sync.applying _ (λ _. confirm-IsPlain client sync tables))
                  (λ _. Keeps-pure differed)))) in
      kept.holds [] tt
