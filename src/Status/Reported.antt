-- ===== src/Status/Reported.antt =====
-- What a status that was returned says.
use re_infra.Base.{
  String, ◌≡◌, refl, Bool, true, false, Option, none, some, is_some, List, [], ◌∷◌, ◌++◌, All,
  All-append, is_nil,
}
use re_infra.Base.Dicts.{Dict}
use re_infra.Calls.{Client, History}
use re_infra.Aws.{ok}
use re_infra.Action.Outcomes.{Returns, Returns-pure, Returns-if, Returns-bind, Returns-bind_using}
use re_infra.EnvConfig.{Environment, bucket_logical_ids}
use re_infra.Status.{
  State, empty, non_empty, not_created, bucket, ResourceStatus, state_of, outputs_of, bucket_state,
  bucket_statuses, bucket_status, table_statuses, described_tables, table_status,
  environment_status,
}

abbrev pub is_created : State → Bool
is_created not_created = false
is_created empty = true
is_created non_empty = true

-- A resource is said not to be created exactly where it has no physical name.
abbrev pub IsNamed : ResourceStatus → Type 0
IsNamed s = is_created s.state ≡ is_some s.physical_name

-- The list starts with the buckets of these logical IDs, in order.
abbrev pub Covers : Dict String → List ResourceStatus → Type 0
Covers [] statuses = Unit
Covers ((purpose, id) ∷ ids) [] = ⊥
Covers ((purpose, id) ∷ ids) (s ∷ statuses) =
    (s.resource ≡ id) × (s.kind ≡ bucket) × Covers ids statuses

is_created-state_of : (b : Bool) → is_created (state_of b) ≡ true
is_created-state_of true = refl
is_created-state_of false = refl

Covers-append :
    (ids : Dict String) (xs ys : List ResourceStatus) → Covers ids xs → Covers ids (xs ++ ys)
Covers-append [] xs ys h = tt
Covers-append ((p, id) ∷ ids) [] ys h = absurd h
Covers-append ((p, id) ∷ ids) (x ∷ xs) ys (e, k, h) = (e, k, Covers-append ids xs ys h)

module _ (client : Client) (versioned_in : String → List String) where
  bucket_state-Returns :
      (versioned : List String) (id : String) (name : Option String)
      → Returns
          (λ s. is_created s ≡ is_some name)
          (bucket_state client versioned_in versioned id name)
  unfolding bucket_state
  bucket_state-Returns versioned id none = Returns-pure _ not_created refl
  bucket_state-Returns versioned id (some name) =
      Returns-bind _ _ _ (λ b. Returns-pure _ (state_of b) (is_created-state_of b))

  abbrev Reports : Dict String → List ResourceStatus → Type 0
  Reports ids statuses = Covers ids statuses × All IsNamed statuses

  bucket_statuses-Returns :
      (environment : String) (outputs : Dict String) (versioned : List String) (ids : Dict String)
      → Returns
          (Reports ids)
          (bucket_statuses client versioned_in environment outputs versioned ids)
  unfolding bucket_statuses
  bucket_statuses-Returns environment outputs versioned [] = Returns-pure _ [] (tt, tt)
  bucket_statuses-Returns environment outputs versioned ((purpose, id) ∷ ids) =
      Returns-bind_using _ _ _ _ (bucket_state-Returns versioned id _) (λ s named.
        Returns-bind_using _ _ _ _ (bucket_statuses-Returns environment outputs versioned ids)
          (λ rest (covers, all). Returns-pure _ _ ((refl, refl, covers), (named, all))))

  table_statuses-Returns :
      (environment : String) (names : List String)
      → Returns (All IsNamed) (table_statuses client versioned_in environment names)
  unfolding table_statuses
  table_statuses-Returns environment [] = Returns-pure _ [] tt
  table_statuses-Returns environment (name ∷ names) = Returns-bind _ _ _ (λ b.
      Returns-bind_using _ _ _ _ (table_statuses-Returns environment names)
        (λ rest all. Returns-pure _ _ (is_created-state_of b, all)))

  described-Returns :
      (environment : String) (names : List String)
      → Returns (All IsNamed) (described_tables client versioned_in environment names)
  unfolding described_tables
  described-Returns environment names =
      Returns-if _ (is_nil names) _ _ (λ _. Returns-pure _ _ (refl, tt))
        (λ _. table_statuses-Returns environment names)

  table_status-Returns :
      (env : Environment) → Returns (All IsNamed) (table_status client versioned_in env)
  unfolding table_status
  table_status-Returns env =
      Returns-bind _ _ _
        (λ names. Returns-bind _ _ _ (λ managed. described-Returns env.name managed))

  bucket_status-Returns :
      (env : Environment)
      → Returns (Reports bucket_logical_ids) (bucket_status client versioned_in env)
  unfolding bucket_status
  bucket_status-Returns env = Returns-bind _ _ _ (λ stack. Returns-bind _ _ _ (λ template.
      bucket_statuses-Returns env.name (outputs_of stack) (versioned_in template)
        bucket_logical_ids))

  status-Returns :
      (env : Environment)
      → Returns (Reports bucket_logical_ids) (environment_status client versioned_in env)
  unfolding environment_status
  status-Returns env =
      Returns-bind_using _ _ _ _ (bucket_status-Returns env) (λ buckets (covers, named).
        Returns-bind_using _ _ _ _ (table_status-Returns env) (λ tables more. Returns-pure _ _ (
          Covers-append bucket_logical_ids buckets tables covers,
          All-append IsNamed buckets tables named more,
        )))

  -- A status that is returned starts with every durable bucket, in the order of the declaration,
  -- and says of a resource that it is not created exactly where it has no physical name.
  pub environment_status-Covers :
      (env : Environment) (past : History) (statuses : List ResourceStatus)
      → (environment_status client versioned_in env past).0 ≡ ok statuses
      → Covers bucket_logical_ids statuses × All IsNamed statuses
  environment_status-Covers env past statuses h = (status-Returns env).holds past statuses h
