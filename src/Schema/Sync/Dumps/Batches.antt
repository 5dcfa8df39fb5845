-- ===== src/Schema/Sync/Dumps/Batches.antt =====
-- How a restore cuts the rows into batches.
use mathlib.Core.List.{flatten, append_assoc}
use re_infra.Base.{
  ℕ, ◌≤◌, ◌<◌, ◌≡◌, refl, sym, inl, inr, List, [], ◌∷◌, ◌++◌, All, arith, length, length-append,
  num_eq, if◌then◌else◌, Bool-cases, Option-cases,
}
use re_infra.Aws.{Result, ok, err}
use re_infra.Calls.{History, Client}
use re_infra.Action.{Action, pure, continue, for_each, ◌>>=◌, ◌>>◌}
use re_infra.Schema.Values.{Row, Conversion}
use re_infra.Schema.Sync.Creation.{Table}
use re_infra.Schema.Sync.Dumps.{restore_item, batch_write_items, write_rest, restore_rows}
use re_infra.Schema.Sync.Backups.{restored_items}

module _ {A : Type 0} where
  abbrev last_chunk : List A → List (List A)
  last_chunk [] = []
  last_chunk (x ∷ xs) = (x ∷ xs) ∷ []

  -- Cut after every 25, where some are there already.
  chunks : List A → List A → List (List A)
  chunks batch [] = last_chunk batch
  chunks batch (x ∷ xs) =
      let full = batch ++ (x ∷ []) in
      let cut = full ∷ chunks [] xs in
      let go_on = chunks full xs in if num_eq (length full) 25 then cut else go_on

  flatten-chunks : (batch xs : List A) → flatten (chunks batch xs) ≡ batch ++ xs
  unfolding chunks flatten
  flatten-chunks [] [] = refl
  flatten-chunks (b ∷ batch) [] = refl
  flatten-chunks batch (x ∷ xs) = elim (Bool-cases (num_eq (length (batch ++ (x ∷ []))) 25)) [
    | inl e ↦ rw (e, flatten-chunks [] xs) (append_assoc batch (x ∷ []) xs)
    | inr e ↦ rw (e, flatten-chunks (batch ++ (x ∷ [])) xs) (append_assoc batch (x ∷ []) xs)
  ]

  abbrev pub IsBatch : List A → Type 0
  IsBatch batch = (1 ≤ length batch) × (length batch ≤ 25)

  chunks-IsBatch : (batch xs : List A) → length batch < 25 → All IsBatch (chunks batch xs)
  unfolding chunks
  chunks-IsBatch [] [] h = tt
  chunks-IsBatch (b ∷ batch) [] h = ((omega arith, omega (arith, h)), tt)
  chunks-IsBatch batch (x ∷ xs) h =
      let size = length-append batch (x ∷ []) in
      elim (Bool-cases (num_eq (length (batch ++ (x ∷ []))) 25)) [
        | inl e ↦ rw e ((ground (arith, e), ground (arith, e)), chunks-IsBatch [] xs (omega arith))
        | inr e ↦ rw e (chunks-IsBatch (batch ++ (x ∷ [])) xs (ground (arith, e, size, h)))
      ]

module _ (client : Client) (rounds : ℕ) (convert : Conversion) (table : Table) where
  -- One batch after the other.
  abbrev pub send_all : List (List Row) → Action (Unit {0})
  send_all = for_each (batch_write_items client rounds table.name)

  continue_done : (r : Result (Unit {0})) (now : History) → continue r (λ _. pure tt) now ≡ (r, now)
  unfolding pure
  continue_done (ok u) now = refl
  continue_done (err e) now = refl

  then_done : (m : Action (Unit {0})) (past : History) → (m >> pure tt) past ≡ m past
  unfolding ◌>>=◌
  then_done m past = continue_done (m past).0 (m past).1

  continue_ap :
      (r : Result (Unit {0})) (m n : Action (Unit {0})) (now : History)
      → ((mid : History) → m mid ≡ n mid)
      → continue r (λ _. m) now ≡ continue r (λ _. n) now
  continue_ap (ok u) m n now same = same now
  continue_ap (err e) m n now same = refl

  then_ap :
      (first m n : Action (Unit {0})) (past : History)
      → ((mid : History) → m mid ≡ n mid)
      → (first >> m) past ≡ (first >> n) past
  unfolding ◌>>=◌
  then_ap first m n past same = continue_ap (first past).0 m n (first past).1 same

  write_rest-last_chunk :
      (batch : List Row) (past : History)
      → write_rest client rounds table.name batch past ≡ send_all (last_chunk batch) past
  unfolding write_rest for_each
  write_rest-last_chunk [] past = refl
  write_rest-last_chunk (row ∷ batch) past =
      sym (then_done (batch_write_items client rounds table.name (row ∷ batch)) past)

  restore_rows-chunks :
      (batch raws : List Row) (past : History)
      → restore_rows client rounds convert table batch raws past
        ≡ send_all (chunks batch (restored_items convert table raws)) past
  unfolding restore_rows restored_items chunks ◌>>=◌ for_each
  restore_rows-chunks batch [] past = write_rest-last_chunk batch past
  restore_rows-chunks batch (raw ∷ raws) past =
      elim (Option-cases (restore_item convert table raw)) [
        | inl skipped ↦
            rw (skipped, restore_rows, restored_items) (restore_rows-chunks batch raws past)
        | inr (item, taken) ↦
            rw (taken, restore_rows, restored_items)
              (elim (Bool-cases (num_eq (length (batch ++ (item ∷ []))) 25)) [
                | inl e ↦ rw e (
                    then_ap (batch_write_items client rounds table.name (batch ++ (item ∷ []))) _ _
                      past (restore_rows-chunks [] raws))
                | inr e ↦ rw e (restore_rows-chunks (batch ++ (item ∷ [])) raws past)
              ])
      ]

  -- A restore writes the rows that can be restored, in their order, in batches of at most 25, one
  -- after the other.
  pub restore_rows-in_batches :
      (raws : List Row)
      → (batches : List (List Row)) × (flatten batches ≡ restored_items convert table raws)
        × All IsBatch batches
        × ((past : History)
            → restore_rows client rounds convert table [] raws past ≡ send_all batches past)
  restore_rows-in_batches raws =
      let items = restored_items convert table raws in
      (
        chunks [] items,
        flatten-chunks [] items,
        chunks-IsBatch [] items (omega arith),
        restore_rows-chunks [] raws,
      )
