-- ===== src/Teardown/Safety.antt =====
-- A teardown deletes only what belongs to an environment that may go.
use re_infra.Base.{
  String, ◌<>◌, ◌≡◌, refl, true, false, Option, none, some, List, [], ◌∷◌, ◌++◌, is_nil, arith,
  subst, ◌||◌, not, ◌==◌, All, elem, text_leb, inl, inr, Bool-cases,
}
use re_infra.Base.Texts.{has_prefix}
use re_infra.Base.Sorting.{sort_by, All-sort_by}
use re_infra.Aws.{Stack, StackResource, Result, ok, err}
use re_infra.Calls.{VersionPage, Call, History, Client, is_read, AllowsReads}
use re_infra.Action.{pure, lift, call}
use re_infra.Action.Keeps.{
  Keeps-All, Keeps, Keeps-if, Keeps-pure, Keeps-call, Keeps-check, Keeps-bind, Keeps-bind_returning,
  Keeps-for_each, Keeps-keep_each, keeps_rules,
}
use re_infra.Action.Outcomes.{bind-ok}
use re_infra.EnvConfig.{EnvName, is_protected, core_stack_name}
use re_infra.Cfn
use re_infra.Cfn.Keeps.{get_stack-Keeps, stack_resources-Keeps, delete_stack-Keeps}
use re_infra.Tables
use re_infra.Buckets
use re_infra.Teardown.{
  Inventory, check_deletable, with_name, bucket_names, managed_table, check_core_cleaned_up,
  inventory, teardown_stack, teardown_found, teardown,
}

-- The environment may be deleted: it is not protected, and no longer declared.
abbrev pub MayGo : EnvName → List EnvName → Type 0
MayGo environment declared =
    (is_protected environment ≡ false) × (elem environment declared ≡ false)

-- The bucket has the name of one that CloudFormation made for the environment's stack.
abbrev pub BelongsTo : EnvName → String → Type 0
BelongsTo environment bucket = has_prefix (core_stack_name environment <> "-") bucket ≡ true

pub check_deletable-MayGo :
    (environment : EnvName) (stack : Stack) (declared : List EnvName) (u : Unit {0})
    → check_deletable environment stack declared ≡ ok u
    → MayGo environment declared
unfolding check_deletable
check_deletable-MayGo environment stack declared u h = ground arith

with_name-All :
    (P : String → Type 0) (name : String) (r : Result (List String)) (found : List String)
    → P name
    → ((more : List String) → r ≡ ok more → All P more)
    → with_name name r ≡ ok found
    → All P found
with_name-All P name (ok more) found p rest h =
    let e : name ∷ more ≡ found = ground arith in subst (All P) e (p, rest more refl)
with_name-All P name (err e) found p rest h = cc

-- The buckets of an inventory are the environment's own.
bucket_names-BelongsTo :
    (environment : EnvName) (resources : List StackResource) (found : List String)
    → bucket_names (core_stack_name environment) resources ≡ ok found
    → All (BelongsTo environment) found
unfolding bucket_names
bucket_names-BelongsTo environment [] found h =
    let e : [] ≡ found = ground arith in subst (All (BelongsTo environment)) e tt
bucket_names-BelongsTo environment (r ∷ rs) found h =
    elim (Bool-cases (not (r.resource_type == "AWS::S3::Bucket") || r.physical_id == "")) [
      | inl skip ↦ bucket_names-BelongsTo environment rs found (rw skip at h)
      | inr kept ↦
          elim (Bool-cases (has_prefix (core_stack_name environment <> "-") r.physical_id)) [
            | inl own ↦
                with_name-All (BelongsTo environment) r.physical_id
                  (bucket_names (core_stack_name environment) rs) found own
                  (λ more e. bucket_names-BelongsTo environment rs more e) (rw (kept, own) at h)
            | inr other ↦ cc (rw (kept, other) at h)
          ]
    ]

pub inventory-BelongsTo :
    (client : Client) (environment : EnvName) (past : History) (found : Inventory)
    → (inventory client environment past).0 ≡ ok found
    → All (BelongsTo environment) found.buckets
unfolding inventory pure lift
inventory-BelongsTo client environment past found h =
    let (_, _, after_check) = bind-ok (check_core_cleaned_up client environment) _ past found h in
    let (resources, _, after_read) =
      bind-ok (Cfn.stack_resources client (core_stack_name environment)) _ _ found after_check in
    let (buckets, named, done) =
      bind-ok (lift (bucket_names (core_stack_name environment) resources)) _
        (Cfn.stack_resources client (core_stack_name environment)
          (check_core_cleaned_up client environment past).1).1
        found after_read in
    let same : sort_by text_leb buckets ≡ found.buckets = ground arith in
    subst (All (BelongsTo environment)) same (
      All-sort_by (BelongsTo environment) text_leb buckets
        (bucket_names-BelongsTo environment resources buckets named))

module _ {P : Call → Type 0} (reads : AllowsReads P) (client : Client) where
  pub list_names-Keeps : (prefix : String) → Keeps P (Tables.list_names client prefix)
  unfolding Tables.list_names
  list_names-Keeps prefix = let p = reads.allows Call.list_tables refl in search (keeps_rules)

  pub table_tags-Keeps : (name : String) → Keeps P (Tables.table_tags client name)
  unfolding Tables.table_tags
  table_tags-Keeps name =
      let p = reads.allows (Call.describe_table name) refl in
      let q = λ (arn : String). reads.allows (Call.list_table_tags arn) refl in
      search (keeps_rules, q)

  pub managed_table-Keeps :
      (environment : EnvName) (name : String) → Keeps P (managed_table client environment name)
  unfolding managed_table
  managed_table-Keeps environment name = search (keeps_rules, table_tags-Keeps)

  check_core_cleaned_up-Keeps :
      (environment : EnvName) → Keeps P (check_core_cleaned_up client environment)
  unfolding check_core_cleaned_up
  check_core_cleaned_up-Keeps environment =
      let tables = λ (names : List String).
        Keeps-keep_each {P = P} (managed_table client environment) names
          (managed_table-Keeps environment) in
      search (keeps_rules, get_stack-Keeps reads client, list_names-Keeps, tables)

  -- Taking stock only reads.
  pub inventory-Keeps : (environment : EnvName) → Keeps P (inventory client environment)
  unfolding inventory
  inventory-Keeps environment =
      search (keeps_rules, check_core_cleaned_up-Keeps, stack_resources-Keeps reads client)

  exists-Keeps : (bucket : String) → Keeps P (Buckets.exists client bucket)
  unfolding Buckets.exists
  exists-Keeps bucket = let p = reads.allows (Call.head_bucket bucket) refl in search (keeps_rules)

  delete_page-Keeps :
      (bucket : String) (page : VersionPage)
      → ((objects : List (String × String)) → P (Call.delete_objects bucket objects))
      → Keeps P (Buckets.delete_page client bucket page)
  unfolding Buckets.delete_page
  delete_page-Keeps bucket page emptied =
      Keeps-if (is_nil (page.versions ++ page.delete_markers)) (pure tt) _ (λ _. Keeps-pure tt)
        (λ _.
          Keeps-call {P = P} client
            (Call.delete_objects bucket (page.versions ++ page.delete_markers))
            (emptied (page.versions ++ page.delete_markers)))

  delete_pages-Keeps :
      (bucket : String) (pages : List VersionPage)
      → ((objects : List (String × String)) → P (Call.delete_objects bucket objects))
      → All (λ page. Keeps P (Buckets.delete_page client bucket page)) pages
  delete_pages-Keeps bucket [] emptied = tt
  delete_pages-Keeps bucket (page ∷ pages) emptied =
      (delete_page-Keeps bucket page emptied, delete_pages-Keeps bucket pages emptied)

  empty_and_delete-Keeps :
      (bucket : String)
      → ((objects : List (String × String)) → P (Call.delete_objects bucket objects))
      → P (Call.delete_bucket bucket)
      → Keeps P (Buckets.empty_and_delete client bucket)
  unfolding Buckets.empty_and_delete
  empty_and_delete-Keeps bucket emptied deleted =
      let q = reads.allows (Call.list_object_versions bucket) refl in
      let loop = λ (pages : List VersionPage).
        Keeps-for_each (Buckets.delete_page client bucket) pages
          (delete_pages-Keeps bucket pages emptied) in
      let deleting =
        λ (u : Unit {0}). Keeps-call {P = P} client (Call.delete_bucket bucket) deleted in
      Keeps-bind (Buckets.exists client bucket) _ (exists-Keeps bucket) λ present.
        Keeps-if (not present) _ _ (λ _. Keeps-pure tt)
          λ _.
            Keeps-bind (call client (Call.list_object_versions bucket)) _
              (Keeps-call {P = P} client (Call.list_object_versions bucket) q)
              (λ pages. Keeps-bind _ _ (loop pages) deleting)

  module _ (environment : EnvName) (declared : List EnvName)
      (deleted : MayGo environment declared → P (Call.delete_stack (core_stack_name environment)))
      (emptied : MayGo environment declared
        → (bucket : String) (objects : List (String × String)) → BelongsTo environment bucket
        → P (Call.delete_objects bucket objects) × P (Call.delete_bucket bucket)) where
    bucket-Keeps :
        MayGo environment declared
        → (buckets : List String) → All (BelongsTo environment) buckets
        → All (λ b. Keeps P (Buckets.empty_and_delete client b)) buckets
    bucket-Keeps go [] own = tt
    bucket-Keeps go (b ∷ bs) own = (
      empty_and_delete-Keeps b (λ objects. (emptied go b objects own.0).0)
          (emptied go b [] own.0).1,
      bucket-Keeps go bs own.1,
    )

    teardown_stack-Keeps :
        (stack : Stack) → Keeps P (teardown_stack client environment declared stack)
    unfolding teardown_stack
    teardown_stack-Keeps stack =
        Keeps-check (check_deletable environment stack declared) _ λ u passed.
          let go = check_deletable-MayGo environment stack declared u passed in
          Keeps-bind_returning (λ (i : Inventory). All (BelongsTo environment) i.buckets)
            (inventory client environment) _ (inventory-Keeps environment)
            (λ past found h. inventory-BelongsTo client environment past found h)
            (λ found own.
              Keeps-bind _ _
                (Keeps-for_each (Buckets.empty_and_delete client) found.buckets
                  (bucket-Keeps go found.buckets own))
                (λ _. delete_stack-Keeps reads client (core_stack_name environment) (deleted go)))

    teardown_found-Keeps :
        (found : Option Stack) → Keeps P (teardown_found client environment declared found)
    unfolding teardown_found
    teardown_found-Keeps none = search (keeps_rules)
    teardown_found-Keeps (some stack) = teardown_stack-Keeps stack

    -- Whatever allows reads, and these deletions, allows a teardown.
    pub teardown-Keeps : Keeps P (teardown client environment declared)
    unfolding teardown
    teardown-Keeps = search (keeps_rules, get_stack-Keeps reads client, teardown_found-Keeps)

-- The calls that a teardown of the environment may make: reads, and what deletes its own stack
-- and buckets if it may go.
abbrev pub IsTeardown : EnvName → List EnvName → Call → Type 0
IsTeardown environment declared (Call.delete_stack name) =
    MayGo environment declared × (name ≡ core_stack_name environment)
IsTeardown environment declared (Call.delete_bucket bucket) =
    MayGo environment declared × BelongsTo environment bucket
IsTeardown environment declared (Call.delete_objects bucket objects) =
    MayGo environment declared × BelongsTo environment bucket
IsTeardown environment declared c = is_read c ≡ true

IsTeardown-reads :
    (environment : EnvName) (declared : List EnvName)
    → AllowsReads (IsTeardown environment declared)
IsTeardown-reads environment declared = record { allows = allows }
  where
    allows : (c : Call) → is_read c ≡ true → IsTeardown environment declared c
    allows (Call.delete_stack name) h = cc
    allows (Call.delete_bucket bucket) h = cc
    allows (Call.delete_objects bucket objects) h = cc
    allows _ h = h

-- A teardown never deletes anything of a protected or declared environment, nor any stack or
-- bucket that is not the environment's, whatever AWS answers; and it deploys nothing.
pub teardown-IsTeardown :
    (client : Client) (environment : EnvName) (declared : List EnvName)
    → All (IsTeardown environment declared) (teardown client environment declared []).1
teardown-IsTeardown client environment declared =
    Keeps-All _ []
      (teardown-Keeps (IsTeardown-reads environment declared) client environment declared
        (λ go. (go, refl)) (λ go bucket objects own. ((go, own), (go, own))))
      tt
