-- ===== src/Schema/Sync/Run/Settled.antt =====
-- What a run of the schema sync that returned has found last.
use re_infra.Base.{
  ◌≡◌, refl, sym, ap, subst, ◌∙◌, Bool, true, ◌&&◌, List, [], ◌∷◌, All, is_nil, if◌then◌else◌,
  String,
}
use re_infra.Base.Dicts.{Dict}
use re_infra.Aws.{Error, Result, ok, err}
use re_infra.Calls.{Call, History, Client, is_read, AllowsReads}
use re_infra.Action.{pure, lift, when}
use re_infra.Action.Extends.{Extends, Extends-trans}
use re_infra.Action.Keeps.{Keeps, keeps_rules}
use re_infra.Action.Outcomes.{bind-ok, bind-run, ok_injective}
use re_infra.Schema.Findings.{Finding}
use re_infra.Schema.Sync.Creation.{Table}
use re_infra.Schema.Sync.Reads
use re_infra.Schema.Sync.Run.{
  Sync, unresolved_after_apply, unresolved_tables, confirm, sync_each, sync_tables, require_bucket,
}

abbrev pub IsRead : Call → Type 0
IsRead c = is_read c ≡ true

reads-IsRead : AllowsReads IsRead
reads-IsRead = record { allows = λ c h. h }

none_left :
    (name : String) (left : List Finding) (more : Dict (List Finding))
    → (if is_nil left then more else (name, left) ∷ more) ≡ []
    → (left ≡ []) × (more ≡ [])
none_left name [] more h = (refl, h)
none_left name (f ∷ left) more h = cc

module _ (client : Client) (sync : Sync) where
  -- At some time the table had no difference that may be acted on, and since then only reads
  -- were made.
  abbrev pub SettledBy : History → Table → Type 0
  SettledBy end table =
      (mid : History) × ((unresolved_after_apply client sync table mid).0 ≡ ok [])
      × Extends IsRead mid end

  one_reads : (table : Table) → Keeps IsRead (unresolved_after_apply client sync table)
  unfolding unresolved_after_apply
  one_reads table =
      let live = Reads.live_schema-Keeps reads-IsRead client in search (keeps_rules, live)

  all-IsRead : (tables : List Table) → Keeps IsRead (unresolved_tables client sync tables)
  unfolding unresolved_tables
  all-IsRead [] = search (keeps_rules)
  all-IsRead (table ∷ tables) = let rest = all-IsRead tables in search (keeps_rules, one_reads)

  unresolved-SettledBy :
      (tables : List Table) (past : History)
      → (unresolved_tables client sync tables past).0 ≡ ok []
      → All (SettledBy (unresolved_tables client sync tables past).1) tables
  unfolding unresolved_tables pure
  unresolved-SettledBy [] past h = tt
  unresolved-SettledBy (table ∷ tables) past h =
      let one = unresolved_after_apply client sync table in
      let (left, e1, h1) = bind-ok one _ past [] h in
      let rest = unresolved_tables client sync tables in
      let (more, e2, h2) = bind-ok rest _ (one past).1 [] h1 in
      let (nothing, no_more) = none_left table.name left more (ok_injective _ [] h2) in
      let run = bind-run one _ past left e1 ∙ bind-run rest _ (one past).1 more e2 in
      let reached =
        Extends-trans ((one_reads table).made past) ((all-IsRead tables).made (one past).1) in
      subst
        (λ (end : Result (Dict (List Finding)) × History). All (SettledBy end.1) (table ∷ tables))
        (sym run)
        (
          (past, e1 ∙ ap ok nothing, reached),
          unresolved-SettledBy tables (one past).1 (e2 ∙ ap ok no_more),
        )

  if_nil :
      (left : Dict (List Finding)) (e : Error)
      → (if is_nil left then ok tt else err e) ≡ ok tt
      → left ≡ []
  if_nil [] e h = refl
  if_nil (found ∷ left) e h = cc

  confirm-SettledBy :
      (tables : List Table) (past : History)
      → (confirm client sync tables past).0 ≡ ok tt
      → All (SettledBy (confirm client sync tables past).1) tables
  unfolding confirm lift
  confirm-SettledBy tables past h =
      let all = unresolved_tables client sync tables in
      let (left, e1, h1) = bind-ok all _ past tt h in
      subst (λ (end : Result (Unit {0}) × History). All (SettledBy end.1) tables)
        (sym (bind-run all _ past left e1))
        (unresolved-SettledBy tables past (e1 ∙ ap ok (if_nil left _ h1)))

  confirmed :
      (tables : List Table) (past : History)
      → sync.applying ≡ true
      → (when sync.applying (confirm client sync tables) past).0 ≡ ok tt
      → All (SettledBy (when sync.applying (confirm client sync tables) past).1) tables
  unfolding when confirm
  confirmed tables past asked h = rw asked (confirm-SettledBy tables past (rw asked at h))

  -- A sync with --apply that returns has found of each of its tables that no difference is left
  -- that it may act on, and has only read since.
  pub sync_tables-SettledBy :
      (tables : List Table) (differed : Bool)
      → sync.applying ≡ true
      → (sync_tables client sync tables []).0 ≡ ok differed
      → All (SettledBy (sync_tables client sync tables []).1) tables
  unfolding sync_tables when pure
  sync_tables-SettledBy tables differed asked h =
      let first =
        when (sync.applying && sync.settings.allow_table_recreate) (require_bucket client sync) in
      let (_, e1, h1) = bind-ok first _ [] differed h in
      let each = sync_each client sync tables in
      let (b, e2, h2) = bind-ok each _ (first []).1 differed h1 in
      let last = when sync.applying (confirm client sync tables) in
      let past = (each (first []).1).1 in
      let (_, e3, h3) = bind-ok last _ past differed h2 in
      let run =
        bind-run first _ [] tt e1
        ∙ bind-run each _ (first []).1 b e2
        ∙ bind-run last _ past tt e3 in
      subst (λ (end : Result Bool × History). All (SettledBy end.1) tables) (sym run)
        (confirmed tables past asked e3)
