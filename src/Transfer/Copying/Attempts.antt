-- ===== src/Transfer/Copying/Attempts.antt =====
-- How often a batch is sent.
use re_infra.Base.{
  ℕ, zero, suc, ◌+◌, ◌-◌, ◌≤◌, String, Bool, true, false, List, [], ◌∷◌, arith, length, is_nil,
  if◌then◌else◌,
}
use re_infra.Aws.{Error, copy_failed, Result, ok, err}
use re_infra.Calls.{TableArn, Call, History, Client}
use re_infra.Action.{pure, attempt, call, continue, ◌>>=◌}
use re_infra.Transfer.{Report, Job, give, throw, update, ask, proceed, ◌then◌}
use re_infra.Transfer.Copying.{
  write_attempts, write_batch, add_written, add_retry, add_failed, backoff, max_attempts,
}

abbrev is_put : Call → Bool
is_put (Call.put_batch table items) = true
is_put c = false

-- How many batch writes were sent.
abbrev pub puts : History → ℕ
puts [] = 0
puts (c ∷ past) = let n = puts past in if is_put c then suc n else n

-- The job sends at most so many batch writes.
record Spends {A : Type 0} (n : ℕ) (m : Job A) : Type 0 where
  spent : (report : Report) (past : History) → puts (m report past).1 ≤ n + puts past

module _ {A : Type 0} where
  Spends-give : (a : A) → Spends 0 (give a)
  unfolding give pure
  Spends-give a = record { spent = λ report past. omega arith }

  Spends-throw : (e : Error) → Spends 0 (throw {A = A} e)
  unfolding throw pure
  Spends-throw e = record { spent = λ report past. omega arith }

  Spends-if :
      (n : ℕ) (test : Bool) (a b : Job A)
      → Spends n a
      → Spends n b
      → Spends n (if test then a else b)
  Spends-if n true a b ka kb = ka
  Spends-if n false a b ka kb = kb

  Spends-weaken : (n k : ℕ) (m : Job A) → n ≤ k → Spends n m → Spends k m
  Spends-weaken n k m h s = record { spent = λ report past. omega (arith, h, s.spent report past) }

Spends-update : (f : Report → Report) → Spends 0 (update f)
unfolding update pure
Spends-update f = record { spent = λ report past. omega arith }

module _ {A B : Type 0} where
  proceed_spent :
      (n : ℕ) (f : A → Job B) (r : Result (Result A × Report)) (now : History)
      → ((a : A) → Spends n (f a))
      → puts (continue r (proceed f) now).1 ≤ n + puts now
  unfolding pure
  proceed_spent n f (ok (ok a, report)) now k = (k a).spent report now
  proceed_spent n f (ok (err e, report)) now k = omega arith
  proceed_spent n f (err e) now k = omega arith

  Spends-then :
      (n k : ℕ) (m : Job A) (f : A → Job B)
      → Spends n m
      → ((a : A) → Spends k (f a))
      → Spends (n + k) (m then f)
  unfolding ◌then◌ ◌>>=◌
  Spends-then n k m f s t = record {
    spent = λ report past.
        omega (arith, s.spent report past, proceed_spent k f (m report past).0 (m report past).1 t);
  }

Spends-ask : (client : Client) (c : Call) → Spends 1 (ask client c)
unfolding ask attempt call pure ◌>>=◌
Spends-ask client c = record { spent = λ report past. one (is_put c) (puts past) }
  where
    one : (b : Bool) (n : ℕ) → (if b then suc n else n) ≤ 1 + n
    one true n = omega arith
    one false n = omega arith

Spends-sleep : (client : Client) (tenths : ℕ) → Spends 0 (ask client (Call.sleep tenths))
unfolding ask attempt call pure ◌>>=◌
Spends-sleep client tenths = record { spent = λ report past. omega arith }

module _ (client : Client) (table : TableArn) where
  again :
      (left wait : ℕ) (items : List String)
      → Spends left (write_attempts client left table items)
      → Spends left (
          update add_retry then λ _.
          ask client (Call.sleep wait) then λ _. write_attempts client left table items)
  again left wait items k = Spends-weaken (0 + (0 + left)) left _ (omega arith) (
      Spends-then 0 (0 + left) (update add_retry) _ (Spends-update add_retry) (λ _.
        Spends-then 0 left (ask client (Call.sleep wait)) _ (Spends-sleep client wait) (λ _. k)))

  attempts_spend :
      (left : ℕ) (items : List String) → Spends left (write_attempts client left table items)
  unfolding write_attempts
  attempts_spend zero items = Spends-weaken (0 + 0) 0 _ (omega arith) (
      Spends-then 0 0 (update (add_failed (length items))) _ (Spends-update _)
        (λ _. Spends-throw (copy_failed (length items))))
  attempts_spend (suc left) items =
      let more = attempts_spend left in
      Spends-weaken (1 + (0 + left)) (suc left) _ (omega arith) (
        Spends-then 1 (0 + left) (ask client (Call.put_batch table items)) _
          (Spends-ask client (Call.put_batch table items))
          (λ unprocessed.
            Spends-then 0 left (update (add_written (length items) (length unprocessed))) _
              (Spends-update _)
              (λ _.
                Spends-if left (is_nil unprocessed) (give tt) _
                  (Spends-weaken 0 left (give tt) (omega arith) (Spends-give tt))
                  (again left (backoff (max_attempts - suc left)) unprocessed (more unprocessed)))))

  -- A batch is sent at most eight times.
  pub write_batch-puts :
      (items : List String) (report : Report) (past : History)
      → puts (write_batch client table items report past).1 ≤ 8 + puts past
  unfolding write_batch
  write_batch-puts items report past = (attempts_spend max_attempts items).spent report past
