-- ===== src/Transfer/Table/Tests.antt =====
-- A table of three items that is copied, where one item has to be sent again.
use mathlib.Core.List.{flatten}
use re_infra.Base.{◌+◌, ◌≤◌, ◌≡◌, String, true, none, some, List, [], ◌∷◌, All, length}
use re_infra.Aws.{waiter_error, Result, ok, err}
use re_infra.Calls.{TableArn, leaf, Call, Answer, History, Client}
use re_infra.Transfer.{copied, Report}
use re_infra.Transfer.Copying.{slices, write_batch}
use re_infra.Transfer.Copying.Attempts.{puts, write_batch-puts}
use re_infra.Transfer.Copying.Slices.{slices-cut}
use re_infra.Transfer.Table.{initial, transfer_table}
use re_infra.Transfer.Table.Safety.{IsTransfer, transfer_table-IsTransfer}

abbrev table_of : String → TableArn
table_of name = record { arn = name; region = "eu-west-1"; account = "123456789012"; name = name }

-- The last of several items is left unprocessed.
abbrev left_of : List String → List String
left_of (a ∷ b ∷ items) = b ∷ []
left_of items = []

abbrev reply : History → (c : Call) → Result (Answer c)
reply past Call.caller_account = ok "123456789012"
reply past (Call.canonical_config table) = ok (leaf "config")
reply past (Call.advisory_config table) = ok (leaf "tags")
reply past (Call.scan_first table) = ok 0
reply past (Call.count_pages table) = ok (3 ∷ [])
reply past (Call.scan_page table start) =
    ok (record { items = "a" ∷ "b" ∷ "c" ∷ []; last_key = none })
reply past (Call.put_batch table items) = ok (left_of items)
reply past (Call.sleep tenths) = ok tt
reply past _ = err waiter_error

abbrev account : Client
account = record { reply = reply }

abbrev finished : Report
finished = record (initial true) {
  outcome = copied;
  counts = record {
    scanned = 3;
    written = 3;
    retries = 1;
    failed = 0;
    source_total = some 3;
    target_total = some 3;
  };
}

transfer_table-IsTransfer_example :
    All
      (IsTransfer true (table_of "new"))
      (transfer_table account 1 true (table_of "old") (table_of "new") (initial true) []).1
transfer_table-IsTransfer_example =
    transfer_table-IsTransfer account true (table_of "new") 1 (table_of "old")

abbrev page : List String
page = "a" ∷ "b" ∷ []

slices-cut_example :
    (flatten (slices (length page) page) ≡ page)
    × All (λ (batch : List String). length batch ≤ 25) (slices (length page) page)
slices-cut_example = slices-cut page

write_batch-puts_example :
    puts (write_batch account (table_of "new") page (initial true) []).1 ≤ 8 + puts []
write_batch-puts_example = write_batch-puts account (table_of "new") page (initial true) []
