-- ===== src/Transfer/Copying.antt =====
-- src/rc_infra/transfer/dynamodb.py: copying the items of a table. `pages` bounds the loop over the
-- pages of the scan, which the source does not bound. Waiting is counted in tenths of a second.
pub mod Slices
pub mod Counted
pub mod Moved
pub mod Attempts
use re_infra.Base.{
  ℕ, zero, suc, ◌+◌, ◌-◌, ◌^◌, min, String, Bool, Option, none, some, List, [], ◌∷◌, ◌==◌,
  if◌then◌else◌, is_nil, length, num_eq,
}
use re_infra.Aws.{copy_failed, still_running}
use re_infra.Calls.{TableArn, ScanPage, Call, Client}
use re_infra.Transfer.{Counts, Report, Job, give, throw, update, ask, ◌then◌}

abbrev pub batch_size : ℕ
batch_size = 25

abbrev pub max_attempts : ℕ
max_attempts = 8

abbrev pub take : {A : Type 0} → ℕ → List A → List A
take zero xs = []
take (suc n) [] = []
take (suc n) (x ∷ xs) = x ∷ take n xs

abbrev pub drop : {A : Type 0} → ℕ → List A → List A
drop zero xs = xs
drop (suc n) [] = []
drop (suc n) (x ∷ xs) = drop n xs

-- `items[offset : offset + BATCH_SIZE]` for the offsets of the loop, which has at most as many
-- rounds as there are items.
unfoldable pub slices : {A : Type 0} → ℕ → List A → List (List A)
slices rounds [] = []
slices zero (x ∷ xs) = []
slices (suc rounds) (x ∷ xs) = take batch_size (x ∷ xs) ∷ slices rounds (drop batch_size (x ∷ xs))

abbrev with_counts : (Counts → Counts) → Report → Report
with_counts f report = record report { counts = f report.counts }

unfoldable pub add_scanned : ℕ → Report → Report
add_scanned n = with_counts (λ c. record c { scanned = c.scanned + n })

-- No more come back than were sent.
unfoldable pub add_written : ℕ → ℕ → Report → Report
add_written sent left = with_counts (λ c. record c { written = c.written + sent - left })

unfoldable pub add_retry : Report → Report
add_retry = with_counts (λ c. record c { retries = c.retries + 1 })

unfoldable pub add_failed : ℕ → Report → Report
add_failed n = with_counts (λ c. record c { failed = c.failed + n })

-- 0.1 s, doubled after every attempt, and 5 s at most.
unfoldable pub backoff : ℕ → ℕ
backoff attempt = min (2 ^ attempt) 50

-- Whether a scan goes on after a page: a key that is empty is none.
abbrev pub next_key : Option String → Option String
next_key none = none
next_key (some key) = if key == "" then none else some key

unfoldable pub go_on : (String → Job (Unit {0})) → Option String → Job (Unit {0})
go_on more none = give tt
go_on more (some key) = more key

module _ (client : Client) where
  -- The rest of the attempts of `_write_batch`.
  unfoldable pub write_attempts : ℕ → TableArn → List String → Job (Unit {0})
  unfolding add_written add_retry add_failed backoff
  write_attempts zero table items =
      update (add_failed (length items)) then λ _. throw (copy_failed (length items))
  write_attempts (suc left) table items =
      ask client (Call.put_batch table items) then λ unprocessed.
      update (add_written (length items) (length unprocessed)) then λ _.
      if is_nil unprocessed
      then give tt
      else (update add_retry then λ _.
          ask client (Call.sleep (backoff (max_attempts - suc left))) then λ _.
          write_attempts left table unprocessed)

  unfoldable pub write_batch : TableArn → List String → Job (Unit {0})
  unfolding write_attempts
  write_batch table items = write_attempts max_attempts table items

  unfoldable pub write_batches : TableArn → List (List String) → Job (Unit {0})
  unfolding write_batch
  write_batches table [] = give tt
  write_batches table (batch ∷ batches) =
      write_batch table batch then λ _. write_batches table batches

  -- The loop of `copy_items` from a page on.
  unfoldable pub copy_pages : ℕ → TableArn → TableArn → Option String → Job (Unit {0})
  unfolding write_batches slices add_scanned go_on
  copy_pages zero source target start = throw still_running
  copy_pages (suc pages) source target start = ask client (Call.scan_page source start) then λ page.
      update (add_scanned (length page.items)) then λ _.
      write_batches target (slices (length page.items) page.items) then λ _.
      go_on (λ key. copy_pages pages source target (some key)) (next_key page.last_key)

  unfoldable pub copy_items : ℕ → TableArn → TableArn → Job (Unit {0})
  unfolding copy_pages
  copy_items pages source target = copy_pages pages source target none
