-- ===== src/Schema/Sync/Backups.antt =====
-- What the calls of a sync show of its dumps: when a table was dumped, and when a dump was restored.
pub mod Restoring
pub mod Replacing
use mathlib.Core.List.{flatten}
use re_infra.Base.{ℕ, String, ◌≡◌, refl, Bool, true, Option, none, some, List, [], ◌∷◌, map, All}
use re_infra.Aws.{Result, ok}
use re_infra.Calls.{Dump, Call, History, Client, is_read, AllowsReads}
use re_infra.Action.Extends.{Extends, here, next, Ever, Ever-Extends}
use re_infra.Schema.Values.{Row, Conversion, row_to_float}
use re_infra.Schema.Sync.Creation.{Table}
use re_infra.Schema.Sync.Dumps.{restore_item}
use re_infra.Schema.Sync.Writes.{AllowsChanges}

abbrev kept : Option Row → List Row → List Row
kept none rows = rows
kept (some row) rows = row ∷ rows

-- What the rows of a dump are restored as, in their order.
unfoldable pub restored_items : Conversion → Table → List Row → List Row
unfolding restore_item
restored_items convert table [] = []
restored_items convert table (raw ∷ raws) =
    kept (restore_item convert table raw) (restored_items convert table raws)

-- A call that ends the life of a table or of a dump.
abbrev pub IsPlain : Call → Type 0
IsPlain (Call.delete_table name) = ⊥
IsPlain (Call.delete_dump dump) = ⊥
IsPlain c = Unit

pub reads-IsPlain : AllowsReads IsPlain
reads-IsPlain = record { allows = allows }
  where
    allows : (c : Call) → is_read c ≡ true → IsPlain c
    allows (Call.delete_table name) h = cc
    allows (Call.delete_dump dump) h = cc
    allows _ h = tt

pub changes-IsPlain : (name : String) → AllowsChanges IsPlain name
changes-IsPlain name = record {
  reads = reads-IsPlain;
  creates = λ request same. tt;
  sets_option = λ option value. tt;
  sets_ttl = λ enabled attribute. tt;
  sets_recovery = λ enabled. tt;
  creates_index = λ index request definitions. tt;
  deletes_index = λ index. tt;
  writes = λ rows. tt;
}

module _ (client : Client) where
  -- From the one history to the other, rows were sent to a table, and what was not processed sent
  -- again, until nothing was left.
  pub data Settled (name : String) : List Row → History → History → Type 0 where
    all_taken :
        (rows : List Row) (past : History)
        → client.reply past (Call.batch_write name rows) ≡ ok []
        → Settled name rows past (Call.batch_write name rows ∷ past)
    some_left :
        (rows left : List Row) (past now : History)
        → client.reply past (Call.batch_write name rows) ≡ ok left
        → Settled name left (Call.batch_write name rows ∷ past) now
        → Settled name rows past now

  -- The rows were just written.
  abbrev pub Wrote : String → List Row → History → Type 0
  Wrote name rows now = (past : History) × Settled name rows past now

  -- The dump was just read.
  pub data Fetched (dump : Dump) (raws : List Row) : History → Type 0 where
    fetched :
        (past : History)
        → client.reply past (Call.get_dump dump) ≡ ok raws
        → Fetched dump raws (Call.get_dump dump ∷ past)

  module _ (convert : Conversion) where
    -- Every row of the table, as it was scanned, was just put into the dump.
    pub data Dumped (name : String) (dump : Dump) : History → Type 0 where
      dumped :
          (past : History) (pages : List (List Row))
          → client.reply past (Call.scan_rows name) ≡ ok pages
          → client.reply
              (Call.fresh_dump_key name ∷ Call.scan_rows name ∷ past)
              (Call.put_dump dump (map (row_to_float convert) (flatten pages)))
            ≡ ok tt
          → Dumped name dump (
              Call.put_dump dump (map (row_to_float convert) (flatten pages))
              ∷ Call.fresh_dump_key name
              ∷ Call.scan_rows name
              ∷ past)

    -- The dump was read, and every row of it that can be restored was written to the table.
    abbrev pub Restored : Table → Dump → History → Type 0
    Restored table dump now =
        (raws : List Row) × Ever (Fetched dump raws) now
        × ((batches : List (List Row)) × (flatten batches ≡ restored_items convert table raws)
            × All (λ rows. Ever (Wrote table.name rows) now) batches)

    module _ (Listed : Table → Type 0) where
      -- What must have been done before a call.
      abbrev pub Due : Call → History → Type 0
      Due (Call.delete_table name) past = (dump : Dump) × Ever (Dumped name dump) past
      Due (Call.delete_dump dump) past =
          (table : Table) × Listed table
          × Ever (Dumped table.name dump) past
          × Restored table dump past
      Due c past = Unit

      -- Before every call was done what it needs.
      abbrev pub IsBackedUp : History → Type 0
      IsBackedUp [] = Unit
      IsBackedUp (c ∷ past) = Due c past × IsBackedUp past
