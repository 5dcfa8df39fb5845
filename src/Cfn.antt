-- ===== src/Cfn.antt =====
-- src/rc_infra/cfn.py: stacks through CloudFormation. A change set is created, looked at, and
-- executed or deleted.
pub mod Keeps
pub mod Previews
pub mod Safety
pub mod Tests
use mathlib.Core.List.{flatten, head?}
use re_infra.Base.{
  String, Bool, true, false, ◌||◌, Option, none, some, List, [], ◌∷◌, ◌==◌, text_leb, if◌then◌else◌,
  keep_if,
}
use re_infra.Base.Dicts.{Dict}
use re_infra.Base.Texts.{has_prefix, contains_text}
use re_infra.Base.Sorting.{sort_by}
use re_infra.Aws.{
  ChangeSetKind, update, Stack, ResourceChange, StackResource, Error, client_error, waiter_error,
  change_set_failed, deploy_failed, delete_failed, Result, ok, err,
}
use re_infra.Calls.{ChangeSet, Call, Client}
use re_infra.Action.{Action, pure, raise, lift, attempt, call, ◌>>=◌, ◌>>◌}

described : Result (List Stack) → Result (Option Stack)
unfolding contains_text
described (ok stacks) = ok (head? stacks)
described (err (client_error code message)) =
    if contains_text "does not exist" message then ok none else err (client_error code message)
described (err e) = err e

abbrev by_name : Stack → Stack → Bool
by_name a b = text_leb a.name b.name

-- `_NO_CHANGES_REASONS`
unfoldable pub is_no_changes : String → Bool
unfolding contains_text
is_no_changes reason =
    contains_text "didn't contain changes" reason
    || contains_text "No updates are to be performed" reason

-- The guard of `deploy`: the exception with which it refuses a list of changes, if it does.
abbrev pub Guard : Type 0
Guard = List ResourceChange → Option Error

module _ (client : Client) where
  unfoldable pub get_stack : String → Action (Option Stack)
  unfolding described
  get_stack name = do r ← attempt (call client (Call.describe_stacks name)); lift (described r)

  unfoldable pub list_stacks : String → Action (List Stack)
  unfolding sort_by
  list_stacks prefix = do
    pages ← call client Call.describe_all_stacks
    pure (sort_by by_name (keep_if (λ (s : Stack). has_prefix prefix s.name) (flatten pages)))

  unfoldable pub stack_resources : String → Action (List StackResource)
  stack_resources name = do
    pages ← call client (Call.list_stack_resources name)
    pure (flatten pages)

  -- A change set that could not be created: it is no failure if there was nothing to change.
  after_wait : String → String → Result (Unit {0}) → Action (Option String × List ResourceChange)
  unfolding is_no_changes
  after_wait stack_name id (ok _) = do
    pages ← call client (Call.describe_change_set id)
    pure (some id, flatten pages)
  after_wait stack_name id (err waiter_error) = do
    reason ← call client (Call.change_set_reason id)
    if is_no_changes reason
        then (call client (Call.delete_change_set id) >> pure (none, []))
        else raise (change_set_failed stack_name reason)
  after_wait stack_name id (err e) = raise e

  unfoldable pub create_change_set : ChangeSet → Action (Option String × List ResourceChange)
  unfolding after_wait
  create_change_set request = do
    id ← call client (Call.create_change_set request)
    waited ← attempt (call client (Call.wait_change_set id))
    after_wait request.stack_name id waited

  discard : Option String → List ResourceChange → Action (List ResourceChange)
  discard none changes = pure changes
  discard (some id) changes = call client (Call.delete_change_set id) >> pure changes

  unfoldable pub preview :
      String → String → Dict String → Dict String → Action (List ResourceChange)
  unfolding discard
  preview stack_name body tags parameters = do
    made ← create_change_set (record {
      stack_name = stack_name;
      kind = update;
      template_body = body;
      tags = tags;
      parameters = parameters;
    })
    discard made.0 made.1

  -- Only a ClientError is caught.
  events_found : Result (Unit {0}) → Action (Unit {0})
  events_found (ok _) = pure tt
  events_found (err (client_error code message)) = pure tt
  events_found (err e) = raise e

  -- `_failure_events`, whose text is left out.
  failure_events : String → Action (Unit {0})
  unfolding events_found
  failure_events stack_name = do
    found ← attempt (call client (Call.stack_events stack_name))
    events_found found

  -- The wait for the stack: a failure is reported with the failed resources' events.
  after_execute :
      String
      → ChangeSetKind
      → List ResourceChange
      → Result (Unit {0})
      → Action (List ResourceChange)
  unfolding failure_events
  after_execute stack_name kind changes (ok _) = pure changes
  after_execute stack_name kind changes (err waiter_error) = do
    failure_events stack_name
    raise (deploy_failed stack_name kind)
  after_execute stack_name kind changes (err e) = raise e

  execute : String → ChangeSetKind → String → List ResourceChange → Action (List ResourceChange)
  unfolding after_execute
  execute stack_name kind id changes = do
    call client (Call.execute_change_set id)
    waited ← attempt (call client (Call.wait_stack stack_name kind))
    after_execute stack_name kind changes waited

  guarded :
      Option Error
      → String
      → ChangeSetKind
      → String
      → List ResourceChange
      → Action (List ResourceChange)
  unfolding execute
  guarded none stack_name kind id changes = execute stack_name kind id changes
  guarded (some e) stack_name kind id changes = call client (Call.delete_change_set id) >> raise e

  carry_out : ChangeSet → Guard → Option String × List ResourceChange → Action (List ResourceChange)
  unfolding guarded
  carry_out request guard (none, changes) = pure []
  carry_out request guard (some id, changes) =
      guarded (guard changes) request.stack_name request.kind id changes

  unfoldable pub deploy : ChangeSet → Guard → Action (List ResourceChange)
  unfolding carry_out
  deploy request guard = do made ← create_change_set request; carry_out request guard made

  unfoldable pub set_termination_protection : String → Bool → Action (Unit {0})
  set_termination_protection name enabled =
      call client (Call.update_termination_protection name enabled)

  after_delete : String → Result (Unit {0}) → Action (Unit {0})
  unfolding failure_events
  after_delete name (ok _) = pure tt
  after_delete name (err waiter_error) = do failure_events name; raise (delete_failed name)
  after_delete name (err e) = raise e

  delete_present : String → Option Stack → Action (Unit {0})
  unfolding after_delete
  delete_present name none = pure tt
  delete_present name (some stack) = do
    call client (Call.delete_stack name)
    waited ← attempt (call client (Call.wait_stack_deleted name))
    after_delete name waited

  unfoldable pub delete_stack : String → Action (Unit {0})
  unfolding get_stack delete_present
  delete_stack name = do present ← get_stack name; delete_present name present
