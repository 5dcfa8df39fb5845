-- ===== src/Schema/Sync/Dumps.antt =====
-- python_packages/rc_dynamo/src/rc_dynamo/schema/sync.py: the rows of a table that is recreated are
-- dumped to S3 and restored. `rounds` bounds the loop of `_batch_write_items`, which the source
-- does not bound. Compressing and printing the JSON is left out.
pub mod Batches
pub mod Termination
use mathlib.Core.List.{flatten}
use re_infra.Base.{
  ℕ, zero, suc, String, Bool, true, false, ◌&&◌, not, Option, none, some, List, [], ◌∷◌, ◌++◌, map,
  ◌==◌, if◌then◌else◌, keep_if, all_of, elem, is_nil, length, num_eq,
}
use re_infra.Base.Dicts.{keys}
use re_infra.Aws.{client_error, still_running, not_json, Result, ok, err}
use re_infra.Calls.{Dump, Call, Client}
use re_infra.Action.{Action, pure, raise, lift, attempt, call, ◌>>=◌, ◌>>◌}
use re_infra.Schema.Failures.{no_dump_bucket, dump_bucket_missing}
use re_infra.Schema.Values.{Row, Conversion, row_to_float, row_to_decimal, is_json_row}
use re_infra.Schema.Sync.Creation.{refuse, Table}

abbrev bucket_missing : List String
bucket_missing = "404" ∷ "NoSuchBucket" ∷ "NotFound" ∷ []

head_outcome : String → Result (Unit {0}) → Result String
head_outcome bucket (ok u) = ok bucket
head_outcome bucket (err (client_error code message)) =
    if elem code bucket_missing
    then refuse (dump_bucket_missing bucket)
    else err (client_error code message)
head_outcome bucket (err e) = err e

abbrev pub dump_at : String → String → Dump
dump_at bucket key = record { bucket = bucket; key = key }

-- `json.dumps` of the rows.
unfoldable pub serialized : List Row → Result (List Row)
unfolding is_json_row
serialized rows = if all_of is_json_row rows then ok rows else err not_json

required_key_fields : Table → List String
required_key_fields table = elim table.sk_name [
  | none ↦ table.pk_name ∷ []
  | some sk ↦ if sk == "" then table.pk_name ∷ [] else table.pk_name ∷ sk ∷ []
]

unfoldable pub has_keys : Table → Row → Bool
unfolding required_key_fields
has_keys table row = all_of (λ key. elem key (keys row)) (required_key_fields table)

abbrev map_option : {A B : Type 0} → (A → B) → Option A → Option B
map_option f none = none
map_option f (some a) = some (f a)

module _ (convert : Conversion) where
  unfoldable pub strict_restore_item : Table → Row → Option Row
  unfolding has_keys row_to_decimal
  strict_restore_item table raw =
      let filtered = keep_if (λ (key, v). elem key table.model_fields) raw in
      if has_keys table filtered
      then map_option (row_to_decimal convert) (table.validate filtered)
      else none

  unfoldable pub permissive_restore_item : Table → Row → Option Row
  unfolding has_keys row_to_decimal
  permissive_restore_item table raw =
      if has_keys table raw then some (row_to_decimal convert raw) else none

  -- What a row of the dump is restored as; `none` is skipped.
  unfoldable pub restore_item : Table → Row → Option Row
  unfolding strict_restore_item permissive_restore_item
  restore_item table raw =
      if table.insert_unknown_columns
      then permissive_restore_item table raw
      else strict_restore_item table raw

module _ (client : Client) where
  unfoldable pub head_dump_bucket : String → Action String
  unfolding head_outcome
  head_dump_bucket bucket = do
    found ← attempt (call client (Call.head_bucket bucket))
    lift (head_outcome bucket found)

  unfoldable pub require_dump_bucket : Option String → Action String
  require_dump_bucket none = lift (refuse no_dump_bucket)
  require_dump_bucket (some bucket) =
      if bucket == "" then lift (refuse no_dump_bucket) else head_dump_bucket bucket

  unfoldable pub dump_table : Conversion → Table → String → Action Dump
  unfolding row_to_float serialized
  dump_table convert table bucket = do
    pages ← call client (Call.scan_rows table.name)
    rows ← lift (serialized (map (row_to_float convert) (flatten pages)))
    key ← call client (Call.fresh_dump_key table.name)
    call client (Call.put_dump (dump_at bucket key) rows)
    pure (dump_at bucket key)

  -- Whatever was not processed is sent again.
  unfoldable pub batch_write_items : ℕ → String → List Row → Action (Unit {0})
  batch_write_items zero table items = raise still_running
  batch_write_items (suc rounds) table items = do
    unprocessed ← call client (Call.batch_write table items)
    if is_nil unprocessed then pure tt else batch_write_items rounds table unprocessed

  -- The rows left after the loop.
  unfoldable pub write_rest : ℕ → String → List Row → Action (Unit {0})
  unfolding batch_write_items
  write_rest rounds table [] = pure tt
  write_rest rounds table (row ∷ rows) = batch_write_items rounds table (row ∷ rows)

  -- The loop of `_restore_table_from_s3`, which sends every 25 rows.
  unfoldable pub restore_rows : ℕ → Conversion → Table → List Row → List Row → Action (Unit {0})
  unfolding write_rest restore_item
  restore_rows rounds convert table batch [] = write_rest rounds table.name batch
  restore_rows rounds convert table batch (raw ∷ raws) = elim (restore_item convert table raw) [
    | none ↦ restore_rows rounds convert table batch raws
    | some item ↦
        let full = batch ++ (item ∷ []) in
        if num_eq (length full) 25
        then (batch_write_items rounds table.name full >> restore_rows rounds convert table [] raws)
        else restore_rows rounds convert table full raws
  ]

  unfoldable pub restore_table : ℕ → Conversion → Table → Dump → Action (Unit {0})
  unfolding restore_rows
  restore_table rounds convert table dump = do
    raws ← call client (Call.get_dump dump)
    restore_rows rounds convert table [] raws
