-- ===== src/Cfn/Keeps.antt =====
-- What the CloudFormation operations may call.
use mathlib.Core.Option.{some-injective}
use re_infra.Base.{
  ap, ◌∙◌, subst, Bool-cases, String, ◌≡◌, refl, Option, none, some, List, inl, inr,
}
use re_infra.Base.Dicts.{Dict}
use re_infra.Aws.{
  ChangeSetKind, update, Stack, ResourceChange, Error, client_error, waiter_error, Result, ok, err,
}
use re_infra.Calls.{ChangeSet, Call, History, Client, AllowsReads}
use re_infra.Action.{pure, attempt, call}
use re_infra.Action.Keeps.{Keeps, Keeps-call, Extends-bind, keeps_rules}
use re_infra.Action.Extends.{Extends}
use re_infra.Action.Outcomes.{ok_injective, bind-ok, raise-ne-ok}
use re_infra.Cfn.{
  Guard, events_found, failure_events, is_no_changes, get_stack, list_stacks, stack_resources,
  after_wait, create_change_set, discard, preview, after_execute, execute, guarded, carry_out,
  deploy, after_delete, delete_present, delete_stack,
}

module _ (client : Client) (request : ChangeSet) where
  after_wait-id :
      (name made id : String) (changes : List ResourceChange) (r : Result (Unit {0}))
      (past : History)
      → (after_wait client name made r past).0 ≡ ok (some id, changes)
      → made ≡ id
  unfolding after_wait pure
  after_wait-id name made id changes (ok _) past h =
      let (pages, _, done) = bind-ok (call client (Call.describe_change_set made)) _ past _ h in
      some-injective made id (
        ap (λ (x : Option String × List ResourceChange). x.0)
          (ok_injective _ (some id, changes) done))
  after_wait-id name made id changes (err waiter_error) past h =
      let (reason, _, done) = bind-ok (call client (Call.change_set_reason made)) _ past _ h in
      elim (Bool-cases (is_no_changes reason)) [
        | inl e ↦
            let (_, _, found) =
              bind-ok (call client (Call.delete_change_set made)) _ _ (some id, changes)
                (rw e at done) in
            cc
        | inr e ↦ absurd (raise-ne-ok _ _ (some id, changes) (rw e at done))
      ]
  after_wait-id name made id changes (err _) past h =
      absurd (raise-ne-ok _ past (some id, changes) h)

  -- The change set that is found is the one that was created.
  pub created_id :
      (past : History) (id : String) (changes : List ResourceChange)
      → (create_change_set client request past).0 ≡ ok (some id, changes)
      → client.reply past (Call.create_change_set request) ≡ ok id
  unfolding create_change_set call
  created_id past id changes h =
      let (made, e, rest) = bind-ok (call client (Call.create_change_set request)) _ past _ h in
      let (waited, _, done) =
        bind-ok (attempt (call client (Call.wait_change_set made))) _ _ _ rest in
      e ∙ ap ok (after_wait-id request.stack_name made id changes waited _ done)

module _ {P : Call → Type 0} (reads : AllowsReads P) (client : Client) where
  pub Keeps-read : (c : Call) → P c → Keeps P (call client c)
  Keeps-read c p = Keeps-call client c p

  pub get_stack-Keeps : (name : String) → Keeps P (get_stack client name)
  unfolding get_stack
  get_stack-Keeps name =
      let p = reads.allows (Call.describe_stacks name) refl in search (keeps_rules)

  pub list_stacks-Keeps : (prefix : String) → Keeps P (list_stacks client prefix)
  unfolding list_stacks
  list_stacks-Keeps prefix =
      let p = reads.allows Call.describe_all_stacks refl in search (keeps_rules)

  pub stack_resources-Keeps : (name : String) → Keeps P (stack_resources client name)
  unfolding stack_resources
  stack_resources-Keeps name =
      let p = reads.allows (Call.list_stack_resources name) refl in search (keeps_rules)

  events_found-Keeps : (r : Result (Unit {0})) → Keeps P (events_found client r)
  unfolding events_found
  events_found-Keeps (ok _) = search (keeps_rules)
  events_found-Keeps (err (client_error code message)) = search (keeps_rules)
  events_found-Keeps (err _) = search (keeps_rules)

  failure_events-Keeps : (name : String) → Keeps P (failure_events client name)
  unfolding failure_events
  failure_events-Keeps name =
      let p = reads.allows (Call.stack_events name) refl in search (keeps_rules, events_found-Keeps)

  after_wait-Keeps :
      (name id : String) (r : Result (Unit {0}))
      → P (Call.delete_change_set id)
      → Keeps P (after_wait client name id r)
  unfolding after_wait
  after_wait-Keeps name id (ok _) discarded =
      let p = reads.allows (Call.describe_change_set id) refl in search (keeps_rules)
  after_wait-Keeps name id (err waiter_error) discarded =
      let p = reads.allows (Call.change_set_reason id) refl in search (keeps_rules)
  after_wait-Keeps name id (err _) discarded = search (keeps_rules)

  after_execute-Keeps :
      (name : String) (kind : ChangeSetKind) (changes : List ResourceChange) (r : Result (Unit {0}))
      → Keeps P (after_execute client name kind changes r)
  unfolding after_execute
  after_execute-Keeps name kind changes (ok _) = search (keeps_rules)
  after_execute-Keeps name kind changes (err waiter_error) =
      search (keeps_rules, failure_events-Keeps)
  after_execute-Keeps name kind changes (err _) = search (keeps_rules)

  guarded-Keeps :
      (e : Option Error) (name : String) (kind : ChangeSetKind) (id : String)
      (changes : List ResourceChange)
      → (e ≡ none → P (Call.execute_change_set id))
      → P (Call.delete_change_set id)
      → Keeps P (guarded client e name kind id changes)
  unfolding guarded execute
  guarded-Keeps none name kind id changes executed discarded =
      let run = executed refl in
      let p = reads.allows (Call.wait_stack name kind) refl in
      search (keeps_rules, after_execute-Keeps)
  guarded-Keeps (some e) name kind id changes executed discarded = search (keeps_rules)

  -- A change set is created now, and only it is deleted or executed.
  module _ (request : ChangeSet) (past : History) (made : P (Call.create_change_set request))
      (discarded : (id : String)
        → client.reply past (Call.create_change_set request) ≡ ok id
        → P (Call.delete_change_set id)) where
    pub create_change_set-Extends : Extends P past (create_change_set client request past).1
    unfolding create_change_set call
    create_change_set-Extends =
        Extends-bind (call client (Call.create_change_set request)) _ past
          ((Keeps-call client (Call.create_change_set request) made).made past)
          (λ id e.
            let p = reads.allows (Call.wait_change_set id) refl in
            let gone = discarded id e in search (keeps_rules, after_wait-Keeps))

    carry_out-Keeps :
        (guard : Guard) (found : Option String × List ResourceChange)
        → (create_change_set client request past).0 ≡ ok found
        → ((id : String) (changes : List ResourceChange)
            → (create_change_set client request past).0 ≡ ok (some id, changes)
            → guard changes ≡ none
            → P (Call.execute_change_set id))
        → Keeps P (carry_out client request guard found)
    unfolding carry_out
    carry_out-Keeps guard (none, changes) e executed = search (keeps_rules)
    carry_out-Keeps guard (some id, changes) e executed =
        guarded-Keeps (guard changes) _ _ id changes (executed id changes e)
          (discarded id (created_id client request past id changes e))

    pub deploy-Extends :
        (guard : Guard)
        → ((id : String) (changes : List ResourceChange)
            → (create_change_set client request past).0 ≡ ok (some id, changes)
            → guard changes ≡ none
            → P (Call.execute_change_set id))
        → Extends P past (deploy client request guard past).1
    unfolding deploy
    deploy-Extends guard executed =
        Extends-bind (create_change_set client request) _ past create_change_set-Extends
          (λ found e. carry_out-Keeps guard found e executed)

  module _ (request : ChangeSet) (made : P (Call.create_change_set request))
      (discarded : (past : History) (id : String)
        → client.reply past (Call.create_change_set request) ≡ ok id
        → P (Call.delete_change_set id)) where
    create_change_set-Keeps : Keeps P (create_change_set client request)
    create_change_set-Keeps = record {
      made = λ past. create_change_set-Extends request past made (discarded past);
    }

    pub deploy-Keeps :
        (guard : Guard)
        → ((id : String) → P (Call.execute_change_set id))
        → Keeps P (deploy client request guard)
    deploy-Keeps guard executed = record {
      made = λ past.
          deploy-Extends request past made (discarded past) guard (λ id changes _ _. executed id);
    }

  discard-Keeps :
      (id : Option String) (changes : List ResourceChange)
      → ((made : String) → id ≡ some made → P (Call.delete_change_set made))
      → Keeps P (discard client id changes)
  unfolding discard
  discard-Keeps none changes discarded = search (keeps_rules)
  discard-Keeps (some id) changes discarded = let gone = discarded id refl in search (keeps_rules)

  pub preview-Keeps :
      (stack body : String) (tags parameters : Dict String)
      → ((request : ChangeSet) → request.kind ≡ update → P (Call.create_change_set request))
      → ((request : ChangeSet) (past : History) (id : String)
          → request.kind ≡ update
          → client.reply past (Call.create_change_set request) ≡ ok id
          → P (Call.delete_change_set id))
      → Keeps P (preview client stack body tags parameters)
  unfolding preview
  preview-Keeps stack body tags parameters made discarded =
      let request : ChangeSet = record {
        stack_name = stack;
        kind = update;
        template_body = body;
        tags = tags;
        parameters = parameters;
      } in
      record {
        made = λ past.
            Extends-bind (create_change_set client request) _ past
              (create_change_set-Extends request past (made request refl)
                (λ id. discarded request past id refl))
              (λ (found, changes) e. discard-Keeps found changes (λ id same.
                discarded request past id refl (
                  created_id client request past id changes (
                    subst (λ x. (create_change_set client request past).0 ≡ ok (x, changes)) same
                      e))));
      }

  after_delete-Keeps :
      (name : String) (r : Result (Unit {0})) → Keeps P (after_delete client name r)
  unfolding after_delete
  after_delete-Keeps name (ok _) = search (keeps_rules)
  after_delete-Keeps name (err waiter_error) = search (keeps_rules, failure_events-Keeps)
  after_delete-Keeps name (err _) = search (keeps_rules)

  delete_present-Keeps :
      (name : String) (found : Option Stack)
      → P (Call.delete_stack name)
      → Keeps P (delete_present client name found)
  unfolding delete_present
  delete_present-Keeps name none deleted = search (keeps_rules)
  delete_present-Keeps name (some stack) deleted =
      let p = reads.allows (Call.wait_stack_deleted name) refl in
      search (keeps_rules, after_delete-Keeps)

  pub delete_stack-Keeps :
      (name : String) → P (Call.delete_stack name) → Keeps P (delete_stack client name)
  unfolding delete_stack
  delete_stack-Keeps name deleted = search (keeps_rules, get_stack-Keeps, delete_present-Keeps)
