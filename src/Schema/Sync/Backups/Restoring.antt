-- ===== src/Schema/Sync/Backups/Restoring.antt =====
-- A restore that returned, and a dump that was written.
use mathlib.Core.List.{flatten, append-nil, append_assoc}
use re_infra.Base.{
  ℕ, zero, suc, String, ◌≡◌, refl, ap, sym, subst, ◌∙◌, inl, inr, true, List, [], ◌∷◌, ◌++◌, map,
  All, All-weaken, all_of, is_nil, if◌then◌else◌, length, num_eq, Bool-cases, Option-cases,
}
use re_infra.Aws.{Result, ok, still_running}
use re_infra.Calls.{Dump, Call, History, Client}
use re_infra.Action.{Action, pure, call, lift, ◌>>◌}
use re_infra.Action.Extends.{Extends, Ever, this, Ever-Extends}
use re_infra.Action.Keeps.{Keeps}
use re_infra.Action.Outcomes.{bind-ok, bind-run, raise-ne-ok, ok_injective}
use re_infra.Schema.Values.{Row, Conversion, row_to_float, is_json_row}
use re_infra.Schema.Sync.Creation.{Table}
use re_infra.Schema.Sync.Dumps.{
  restore_item, batch_write_items, write_rest, restore_rows, restore_table, serialized, dump_table,
  dump_at,
}
use re_infra.Schema.Sync.Writes.{restore_rows-Keeps}
use re_infra.Schema.Sync.Backups.{
  restored_items, IsPlain, changes-IsPlain, Settled, all_taken, some_left, Wrote, Fetched, fetched,
  Dumped, dumped, Restored,
}

is_nil-eq : {A : Type 0} (xs : List A) → is_nil xs ≡ true → xs ≡ []
is_nil-eq [] h = refl
is_nil-eq (x ∷ xs) h = cc

module _ (client : Client) where
  -- What follows a batch write, given what is known of the next rounds.
  after_write :
      (rounds : ℕ) (name : String) (rows left : List Row) (past : History)
      → ((more : List Row) (mid : History)
          → (batch_write_items client rounds name more mid).0 ≡ ok tt
          → Settled client name more mid (batch_write_items client rounds name more mid).1)
      → client.reply past (Call.batch_write name rows) ≡ ok left
      → let go = if is_nil left then pure tt else batch_write_items client rounds name left in
        (go (Call.batch_write name rows ∷ past)).0 ≡ ok tt
        → let go = if is_nil left then pure tt else batch_write_items client rounds name left in
          Settled client name rows past (go (Call.batch_write name rows ∷ past)).1
  unfolding pure
  after_write rounds name rows [] past again replied h = all_taken rows past replied
  after_write rounds name rows (row ∷ left) past again replied h =
      some_left rows (row ∷ left) past _ replied
        (again (row ∷ left) (Call.batch_write name rows ∷ past) h)

  pub batch-Settled :
      (rounds : ℕ) (name : String) (rows : List Row) (past : History)
      → (batch_write_items client rounds name rows past).0 ≡ ok tt
      → Settled client name rows past (batch_write_items client rounds name rows past).1
  unfolding batch_write_items call
  batch-Settled zero name rows past h = absurd (raise-ne-ok still_running past tt h)
  batch-Settled (suc rounds) name rows past h =
      let (left, replied, rest) = bind-ok (call client (Call.batch_write name rows)) _ past tt h in
      subst (λ (end : Result (Unit {0}) × History). Settled client name rows past end.1)
        (sym (bind-run (call client (Call.batch_write name rows)) _ past left replied))
        (after_write rounds name rows left past (batch-Settled rounds name) replied rest)

  -- What is known of the batches that were sent.
  abbrev Sent : String → List Row → History → Type 0
  Sent name rows now =
      (batches : List (List Row)) × (flatten batches ≡ rows)
      × All (λ rows. Ever (Wrote client name rows) now) batches

  Sent-Extends :
      {P : Call → Type 0} (name : String) (rows : List Row) {past now : History}
      → Extends P past now
      → Sent name rows past
      → Sent name rows now
  Sent-Extends name rows e (batches, all, wrote) =
      (batches, all, All-weaken _ _ batches (λ b h. Ever-Extends e h) wrote)

  module _ (rounds : ℕ) (convert : Conversion) (table : Table) where
    write_rest-Sent :
        (rows : List Row) (past : History)
        → (write_rest client rounds table.name rows past).0 ≡ ok tt
        → Sent table.name rows (write_rest client rounds table.name rows past).1
    unfolding write_rest flatten
    write_rest-Sent [] past h = ([], refl, tt)
    write_rest-Sent (row ∷ rows) past h = (
      (row ∷ rows) ∷ [],
      append-nil (row ∷ rows),
      (this _ (past, batch-Settled rounds table.name (row ∷ rows) past h), tt),
    )

    -- A batch, and then what sends the other rows.
    batch_then :
        (full rows : List Row) (m : Action (Unit {0})) (past : History)
        → Keeps IsPlain m
        → ((mid : History) → (m mid).0 ≡ ok tt → Sent table.name rows (m mid).1)
        → ((batch_write_items client rounds table.name full >> m) past).0 ≡ ok tt
        → Sent table.name
            (full ++ rows)
            ((batch_write_items client rounds table.name full >> m) past).1
    unfolding flatten
    batch_then full rows m past k sent h =
        let write = batch_write_items client rounds table.name full in
        let (_, first, rest) = bind-ok write (λ _. m) past tt h in
        let (batches, all, wrote) = sent (write past).1 rest in
        let taken : Ever (Wrote client table.name full) (write past).1 =
          this _ (past, batch-Settled rounds table.name full past first) in
        subst (λ (end : Result (Unit {0}) × History). Sent table.name (full ++ rows) end.1)
          (sym (bind-run write (λ _. m) past tt first))
          (
            full ∷ batches,
            ap (λ more. full ++ more) all,
            (Ever-Extends (k.made (write past).1) taken, wrote),
          )

    -- What follows once a row was added to the batch.
    abbrev step_rows : List Row → List Row → Action (Unit {0})
    step_rows full raws =
        if num_eq (length full) 25
        then (batch_write_items client rounds table.name full
            >> restore_rows client rounds convert table [] raws)
        else restore_rows client rounds convert table full raws

    step_rows-Sent :
        (full raws : List Row) (past : History)
        → ((mid : History)
            → (restore_rows client rounds convert table [] raws mid).0 ≡ ok tt
            → Sent table.name
                (restored_items convert table raws)
                (restore_rows client rounds convert table [] raws mid).1)
        → ((mid : History)
            → (restore_rows client rounds convert table full raws mid).0 ≡ ok tt
            → Sent table.name
                (full ++ restored_items convert table raws)
                (restore_rows client rounds convert table full raws mid).1)
        → (step_rows full raws past).0 ≡ ok tt
        → Sent table.name (full ++ restored_items convert table raws) (step_rows full raws past).1
    step_rows-Sent full raws past from_none from_full h =
        elim (Bool-cases (num_eq (length full) 25)) [
          | inl e ↦ rw e (
              batch_then full (restored_items convert table raws)
                (restore_rows client rounds convert table [] raws) past
                (restore_rows-Keeps client table (changes-IsPlain table.name) rounds convert []
                  raws)
                from_none (rw e at h))
          | inr e ↦ rw e (from_full past (rw e at h))
        ]

    rows-Sent :
        (batch raws : List Row) (past : History)
        → (restore_rows client rounds convert table batch raws past).0 ≡ ok tt
        → Sent table.name
            (batch ++ restored_items convert table raws)
            (restore_rows client rounds convert table batch raws past).1
    unfolding restore_rows restored_items
    rows-Sent batch [] past h =
        subst (λ rows. Sent table.name rows (write_rest client rounds table.name batch past).1)
          (sym (append-nil batch)) (write_rest-Sent batch past h)
    rows-Sent batch (raw ∷ raws) past h = elim (Option-cases (restore_item convert table raw)) [
      | inl skipped ↦
          rw (skipped, restore_rows, restored_items)
            (rows-Sent batch raws past (rw (skipped, restore_rows) at h))
      | inr (item, taken) ↦
          let full = batch ++ (item ∷ []) in
          let rest = restored_items convert table raws in
          rw (taken, restore_rows, restored_items)
            (subst (λ rows. Sent table.name rows (step_rows full raws past).1)
              (append_assoc batch (item ∷ []) rest)
              (step_rows-Sent full raws past (λ mid. rows-Sent [] raws mid)
                (λ mid. rows-Sent full raws mid) (rw (taken, restore_rows) at h)))
    ]

    pub restore_table-Restored :
        (dump : Dump) (past : History)
        → (restore_table client rounds convert table dump past).0 ≡ ok tt
        → Restored client convert table dump (restore_table client rounds convert table dump past).1
    unfolding restore_table call
    restore_table-Restored dump past h =
        let (raws, replied, rest) = bind-ok (call client (Call.get_dump dump)) _ past tt h in
        let mid = Call.get_dump dump ∷ past in
        let got : Ever (Fetched client dump raws) mid = this mid (fetched past replied) in
        let made =
          restore_rows-Keeps client table (changes-IsPlain table.name) rounds convert [] raws in
        subst (λ (end : Result (Unit {0}) × History). Restored client convert table dump end.1)
          (sym (bind-run (call client (Call.get_dump dump)) _ past raws replied))
          (raws, Ever-Extends (made.made mid) got, rows-Sent [] raws mid rest)

  serialized-eq : (rows sent : List Row) → serialized rows ≡ ok sent → rows ≡ sent
  unfolding serialized
  serialized-eq rows sent h = elim (Bool-cases (all_of is_json_row rows)) [
    | inl e ↦ ok_injective rows sent (rw e at h)
    | inr e ↦ cc (rw e at h)
  ]

  pub dump_table-Dumped :
      (convert : Conversion) (table : Table) (bucket : String) (past : History) (dump : Dump)
      → (dump_table client convert table bucket past).0 ≡ ok dump
      → Dumped client convert table.name dump (dump_table client convert table bucket past).1
  unfolding dump_table call lift pure
  dump_table-Dumped convert table bucket past dump h =
      let scan = call client (Call.scan_rows table.name) in
      let after_scan = Call.scan_rows table.name ∷ past in
      let (pages, scanned, h1) = bind-ok scan _ past dump h in
      let rows = map (row_to_float convert) (flatten pages) in
      let (sent, valid, h2) = bind-ok (lift (serialized rows)) _ after_scan dump h1 in
      let name = call client (Call.fresh_dump_key table.name) in
      let (key, named, h3) = bind-ok name _ after_scan dump h2 in
      let after_name = Call.fresh_dump_key table.name ∷ after_scan in
      let put = call client (Call.put_dump (dump_at bucket key) sent) in
      let (_, stored, h4) = bind-ok put _ after_name dump h3 in
      let same_dump = ok_injective (dump_at bucket key) dump h4 in
      let run =
        bind-run scan _ past pages scanned
        ∙ bind-run (lift (serialized rows)) _ after_scan sent valid
        ∙ bind-run name _ after_scan key named
        ∙ bind-run put _ after_name tt stored in
      let made =
        subst
          (λ (s : List Row).
            client.reply after_name (Call.put_dump (dump_at bucket key) s) ≡ ok tt
            → Dumped client convert table.name (dump_at bucket key)
                (Call.put_dump (dump_at bucket key) s ∷ after_name))
          (serialized-eq rows sent valid) (dumped past pages scanned) stored in
      subst (λ (end : Result Dump × History). Dumped client convert table.name dump end.1) (sym run)
        (subst
          (λ (d : Dump).
            Dumped client convert table.name d
              (Call.put_dump (dump_at bucket key) sent ∷ after_name))
          same_dump made)
