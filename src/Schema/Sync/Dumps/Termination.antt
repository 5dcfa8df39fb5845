-- ===== src/Schema/Sync/Dumps/Termination.antt =====
-- When the loop of a batch write ends.
use re_infra.Base.{
  ℕ, zero, suc, String, ◌≤◌, ◌<◌, ◌≡◌, ◌≢◌, refl, List, [], ◌∷◌, arith, length, if◌then◌else◌,
  is_nil,
}
use re_infra.Aws.{Error, Result, ok, err, still_running}
use re_infra.Calls.{Call, History, Client}
use re_infra.Action.{pure, continue, call, ◌>>=◌}
use re_infra.Schema.Values.{Row}
use re_infra.Schema.Sync.Dumps.{batch_write_items}

-- What BatchWriteItem promises: where it answers, it processed at least one of the rows.
pub record Progresses (client : Client) : Type 0 where
  pub fewer :
      (past : History) (name : String) (rows left : List Row)
      → client.reply past (Call.batch_write name rows) ≡ ok left
      → 0 < length rows
      → length left < length rows
  pub answers : (past : History) (c : Call) → client.reply past c ≢ err still_running

module _ (client : Client) (progress : Progresses client) (name : String) where
  err-ne_ok : {A : Type 0} (a : A) (e : Error) → ok a ≢ err e
  err-ne_ok a e h = cc

  -- What follows the answer to a batch write, given what is known of the next rounds.
  after_answer :
      (rounds : ℕ) (rows : List Row) (past : History) (r : Result (List Row))
      → ((left : List Row) (mid : History)
          → 0 < length left
          → length left ≤ rounds
          → (batch_write_items client rounds name left mid).0 ≢ err still_running)
      → client.reply past (Call.batch_write name rows) ≡ r
      → 0 < length rows
      → length rows ≤ suc rounds
      → (continue r
          (λ left. if is_nil left then pure tt else batch_write_items client rounds name left)
          (Call.batch_write name rows ∷ past)).0
        ≢ err still_running
  unfolding pure
  after_answer rounds rows past (ok []) next replied some enough h = err-ne_ok tt still_running h
  after_answer rounds rows past (ok (row ∷ left)) next replied some enough h =
      let fewer = progress.fewer past name rows (row ∷ left) replied some in
      next (row ∷ left) (Call.batch_write name rows ∷ past) (omega arith)
        (omega (arith, fewer, enough)) h
  after_answer rounds rows past (err e) next replied some enough h =
      progress.answers past (Call.batch_write name rows) (cc (replied, h))

  -- The loop of a batch write ends after at most as many rounds as it has rows, if every answer
  -- processed a row.
  pub batch_write_items-ends :
      (rounds : ℕ) (rows : List Row) (past : History)
      → 0 < length rows
      → length rows ≤ rounds
      → (batch_write_items client rounds name rows past).0 ≢ err still_running
  unfolding batch_write_items ◌>>=◌ call
  batch_write_items-ends zero rows past some enough h = omega (arith, some, enough)
  batch_write_items-ends (suc rounds) rows past some enough h =
      after_answer rounds rows past (client.reply past (Call.batch_write name rows))
        (batch_write_items-ends rounds) refl some enough h
