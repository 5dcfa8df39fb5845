-- ===== src/Cfn/Safety.antt =====
-- That a deployment obeys its guard.
use re_infra.Base.{true, String, ◌≡◌, refl, Option, none, some, List, [], arith, ◌⊎◌, inl, inr}
use re_infra.Aws.{ChangeSetKind, ResourceChange, Error, waiter_error, Result, ok, err}
use re_infra.Calls.{ChangeSet, Call, History, Client, is_read, AllowsReads}
use re_infra.Action.{pure, attempt, call}
use re_infra.Action.Extends.{Extends}
use re_infra.Action.Outcomes.{bind-ok, raise-ne-ok, raise_after-ne-ok}
use re_infra.Cfn.{Guard, create_change_set, after_execute, execute, guarded, carry_out, deploy}
use re_infra.Cfn.Keeps.{deploy-Extends}

module _ (client : Client) (request : ChangeSet) (guard : Guard) (past : History) where
  -- What a deployment may call that begins now: it creates the one change set that it was asked
  -- for, executes it only if the guard accepts its changes, and deletes no other.
  abbrev pub IsGuarded : Call → Type 0
  IsGuarded (Call.create_change_set made) = made ≡ request
  IsGuarded (Call.execute_change_set id) =
      (changes : List ResourceChange) × ((create_change_set client request past).0
        ≡ ok (some id, changes))
      × (guard changes ≡ none)
  IsGuarded (Call.delete_change_set id) = client.reply past (Call.create_change_set request) ≡ ok id
  IsGuarded c = is_read c ≡ true

  IsGuarded-reads : AllowsReads IsGuarded
  IsGuarded-reads = record { allows = allows }
    where
      allows : (c : Call) → is_read c ≡ true → IsGuarded c
      allows (Call.create_change_set made) h = cc
      allows (Call.execute_change_set id) h = cc
      allows (Call.delete_change_set id) h = cc
      allows _ h = h

  -- Whatever AWS answers, a deployment only reads, creates the change set that it was asked for,
  -- executes that change set only if the guard accepts the changes that it was found to have, and
  -- deletes no change set but that one.
  pub deploy-IsGuarded : Extends IsGuarded past (deploy client request guard past).1
  deploy-IsGuarded =
      deploy-Extends IsGuarded-reads client request past refl (λ id e. e) guard
        (λ id changes e accepted. (changes, e, accepted))

  after_execute-ok :
      (kind : ChangeSetKind) (name : String) (changes made : List ResourceChange)
      (r : Result (Unit {0})) (then_past : History)
      → (after_execute client name kind changes r then_past).0 ≡ ok made
      → made ≡ changes
  unfolding after_execute pure
  after_execute-ok kind name changes made (ok _) then_past h = ground arith
  after_execute-ok kind name changes made (err waiter_error) then_past h =
      absurd (raise_after-ne-ok _ _ then_past made h)
  after_execute-ok kind name changes made (err _) then_past h =
      absurd (raise-ne-ok {B = List ResourceChange} _ then_past made h)

  guarded-ok :
      (e : Option Error) (id : String) (changes made : List ResourceChange) (then_past : History)
      → (guarded client e request.stack_name request.kind id changes then_past).0 ≡ ok made
      → (made ≡ changes) × (e ≡ none)
  unfolding guarded execute
  guarded-ok (some e) id changes made then_past h = absurd (raise_after-ne-ok _ e then_past made h)
  guarded-ok none id changes made then_past h =
      let (_, _, waiting) = bind-ok (call client (Call.execute_change_set id)) _ then_past made h in
      let (waited, _, done) =
        bind-ok (attempt (call client (Call.wait_stack request.stack_name request.kind))) _ _ made
          waiting in
      (after_execute-ok request.kind request.stack_name changes made waited _ done, refl)

  carry_out-ok :
      (found : Option String × List ResourceChange) (made : List ResourceChange)
      (then_past : History)
      → (carry_out client request guard found then_past).0 ≡ ok made
      → (made ≡ []) ⊎ (guard made ≡ none)
  unfolding carry_out pure
  carry_out-ok (none, changes) made then_past h = inl (ground arith)
  carry_out-ok (some id, changes) made then_past h =
      let (same, passed) = guarded-ok (guard changes) id changes made then_past h in
      inr (rw same passed)

  -- What a deployment reports as done passed its guard.
  pub guard-deploy :
      (made : List ResourceChange)
      → (deploy client request guard past).0 ≡ ok made
      → (made ≡ []) ⊎ (guard made ≡ none)
  unfolding deploy
  guard-deploy made h =
      let (found, created, done) = bind-ok (create_change_set client request) _ past made h in
      carry_out-ok found made _ done
