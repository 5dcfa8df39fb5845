-- ===== src/Cfn/Previews.antt =====
-- A preview deletes only the change set that it created.
use mathlib.Core.Option.{some-injective}
use re_infra.Base.{String, ◌≡◌, refl, subst, true, Option, none, some, List, [], ◌∷◌}
use re_infra.Base.Dicts.{Dict}
use re_infra.Aws.{update, ResourceChange, waiter_error, Result, ok, err}
use re_infra.Calls.{ChangeSet, Call, History, Client, is_read, AllowsReads}
use re_infra.Action.{attempt, call}
use re_infra.Action.Extends.{Extends, here, next, Ever, this, Ever-Extends}
use re_infra.Action.Keeps.{Keeps, Keeps-call, Keeps-attempt}
use re_infra.Action.Ensures.{
  Ensures, Ensures-bind, Ensures-call, Ensures-pure, Ensures-raise, Ensures-if, Ensures-Keeps,
  Preserves, Preserves-Ensures, Preserves-Keeps,
}
use re_infra.Cfn.{after_wait, create_change_set, discard, is_no_changes, preview}

abbrev pub Reads : Call → Type 0
Reads c = is_read c ≡ true

pub reading : AllowsReads Reads
reading = record { allows = λ c h. h }

module _ (client : Client) where
  -- The last call created a change set that would update, and was answered with this name.
  abbrev pub IsCreated : String → History → Type 0
  IsCreated id [] = ⊥
  IsCreated id (Call.create_change_set request ∷ past) =
      (request.kind ≡ update) × (client.reply past (Call.create_change_set request) ≡ ok id)
  IsCreated id (c ∷ past) = ⊥

  -- Each change set that was deleted had been created before.
  abbrev pub DeletesOwn : History → Type 0
  DeletesOwn [] = Unit
  DeletesOwn (Call.delete_change_set id ∷ past) = Ever (IsCreated id) past × DeletesOwn past
  DeletesOwn (c ∷ past) = DeletesOwn past

  read_keeps : (past now : History) → Extends Reads past now → DeletesOwn past → DeletesOwn now
  read_keeps past _ here h = h
  read_keeps past _ (next c now p e) h = one c now p (read_keeps past now e h)
    where
      one : (c : Call) (now : History) → is_read c ≡ true → DeletesOwn now → DeletesOwn (c ∷ now)
      one (Call.delete_change_set id) now p h = cc
      one _ now p h = h

  kept_also :
      {A : Type 0} (id : String) (m : History → Result A × History)
      → Keeps Reads m
      → Ensures DeletesOwn (Ever (IsCreated id)) m (λ _. Ever (IsCreated id))
  kept_also id m k = Ensures-Keeps m k read_keeps (λ past now e h. Ever-Extends e h)

  -- What is found was created.
  abbrev Own : Option String × List ResourceChange → History → Type 0
  Own found past = (id : String) → found.0 ≡ some id → Ever (IsCreated id) past

  deleted :
      (id : String)
      → Ensures DeletesOwn
          (Ever (IsCreated id))
          (call client (Call.delete_change_set id))
          (λ _ _. Unit)
  deleted id =
      Ensures-call client (Call.delete_change_set id) (λ _ _. Unit) (λ past i h. (h, i))
        (λ past a i h e. tt)

  after_wait-Own :
      (name id : String) (r : Result (Unit {0}))
      → Ensures DeletesOwn (Ever (IsCreated id)) (after_wait client name id r) Own
  unfolding after_wait
  after_wait-Own name id (ok _) =
      Ensures-bind (call client (Call.describe_change_set id)) _
        (kept_also id _ (Keeps-call client (Call.describe_change_set id) refl))
        (λ pages. Ensures-pure _ Own (λ past i h other same.
          subst (λ x. Ever (IsCreated x) past) (some-injective id other same) h))
  after_wait-Own name id (err waiter_error) =
      Ensures-bind (call client (Call.change_set_reason id)) _
        (kept_also id _ (Keeps-call client (Call.change_set_reason id) refl))
        (λ reason.
          Ensures-if (is_no_changes reason) _ _ Own
            (λ _.
              Ensures-bind (call client (Call.delete_change_set id)) _ (deleted id)
                (λ _. Ensures-pure _ Own (λ past i h other same. cc)))
            (λ _. Ensures-raise _ Own))
  after_wait-Own name id (err _) = Ensures-raise _ Own

  create_change_set-Own :
      (request : ChangeSet)
      → request.kind ≡ update
      → Ensures DeletesOwn (λ _. Unit) (create_change_set client request) Own
  unfolding create_change_set
  create_change_set-Own request kind =
      Ensures-bind (call client (Call.create_change_set request)) _
        (Ensures-call client (Call.create_change_set request) (λ id. Ever (IsCreated id))
          (λ past i h. i) (λ past id i h e. this (Call.create_change_set request ∷ past) (kind, e)))
        (λ id.
          Ensures-bind (attempt (call client (Call.wait_change_set id))) _
            (kept_also id _ (Keeps-attempt _ (Keeps-call client (Call.wait_change_set id) refl)))
            (λ r. after_wait-Own request.stack_name id r))

  discard-Own :
      (found : Option String) (changes : List ResourceChange)
      → Ensures DeletesOwn (Own (found, changes)) (discard client found changes) (λ _ _. Unit)
  unfolding discard
  discard-Own none changes = Ensures-pure changes _ (λ past i h. tt)
  discard-Own (some id) changes =
      Ensures-bind (call client (Call.delete_change_set id)) _
        (Ensures-call client (Call.delete_change_set id) (λ _ _. Unit) (λ past i h. (h id refl, i))
          (λ past a i h e. tt))
        (λ _. Ensures-pure changes _ (λ past i h. tt))

  pub preview-DeletesOwn :
      (stack body : String) (tags parameters : Dict String)
      → Preserves DeletesOwn (preview client stack body tags parameters)
  unfolding preview
  preview-DeletesOwn stack body tags parameters =
      Preserves-Ensures _ (λ past. tt)
        (Ensures-bind (create_change_set client _) _ (create_change_set-Own _ refl)
          (λ (found, changes). discard-Own found changes))

  pub kept_own :
      {A : Type 0} (m : History → Result A × History) → Keeps Reads m → Preserves DeletesOwn m
  kept_own m k = Preserves-Keeps m read_keeps k
