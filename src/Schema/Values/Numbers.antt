-- ===== src/Schema/Values/Numbers.antt =====
-- What numbers become in a dump, and what they become again.
use re_infra.Base.{◌≡◌, refl, Bool, true, false, ◌&&◌, [], ◌∷◌, all_of}
use re_infra.Schema.Values.{
  Value, null, truth, text_value, decimal, float, other, sequence, mapping, Values, no_values,
  value, Entries, no_entries, entry, Row, Conversion, decimal_to_float, float_to_decimal,
  row_to_float, row_to_decimal, decimals_to_float, entries_to_float, floats_to_decimal,
  entries_to_decimal, is_json, are_json, entries_are_json, is_json_row,
}

-- Whether a value has no set and no bytes in it.
unfoldable mutual
  pub is_plain : Value → Bool
  is_plain (other s) = false
  is_plain (sequence vs) = are_plain vs
  is_plain (mapping es) = entries_are_plain es
  is_plain v = true

  are_plain : Values → Bool
  are_plain no_values = true
  are_plain (value v vs) = is_plain v && are_plain vs

  entries_are_plain : Entries → Bool
  entries_are_plain no_entries = true
  entries_are_plain (entry k v es) = is_plain v && entries_are_plain es

-- Whether DynamoDB takes the value: it has no floats.
unfoldable mutual
  pub is_storable : Value → Bool
  is_storable (float f) = false
  is_storable (sequence vs) = are_storable vs
  is_storable (mapping es) = entries_are_storable es
  is_storable v = true

  are_storable : Values → Bool
  are_storable no_values = true
  are_storable (value v vs) = is_storable v && are_storable vs

  entries_are_storable : Entries → Bool
  entries_are_storable no_entries = true
  entries_are_storable (entry k v es) = is_storable v && entries_are_storable es

module _ (convert : Conversion) where
  mutual
    unfolding decimal_to_float is_json is_plain

    is_json-decimal_to_float : (v : Value) → is_json (decimal_to_float convert v) ≡ is_plain v
    is_json-decimal_to_float (decimal d) = refl
    is_json-decimal_to_float (float f) = refl
    is_json-decimal_to_float (sequence vs) = are_json-decimals_to_float vs
    is_json-decimal_to_float (mapping es) = entries_are_json-entries_to_float es
    is_json-decimal_to_float null = refl
    is_json-decimal_to_float (truth b) = refl
    is_json-decimal_to_float (text_value s) = refl
    is_json-decimal_to_float (other s) = refl

    are_json-decimals_to_float :
        (vs : Values) → are_json (decimals_to_float convert vs) ≡ are_plain vs
    are_json-decimals_to_float no_values = refl
    are_json-decimals_to_float (value v vs) =
        rw (is_json-decimal_to_float v, are_json-decimals_to_float vs) refl

    entries_are_json-entries_to_float :
        (es : Entries) → entries_are_json (entries_to_float convert es) ≡ entries_are_plain es
    entries_are_json-entries_to_float no_entries = refl
    entries_are_json-entries_to_float (entry k v es) =
        rw (is_json-decimal_to_float v, entries_are_json-entries_to_float es) refl

  mutual
    unfolding float_to_decimal is_storable

    is_storable-float_to_decimal : (v : Value) → is_storable (float_to_decimal convert v) ≡ true
    is_storable-float_to_decimal (decimal d) = refl
    is_storable-float_to_decimal (float f) = refl
    is_storable-float_to_decimal (sequence vs) = are_storable-floats_to_decimal vs
    is_storable-float_to_decimal (mapping es) = entries_are_storable-entries_to_decimal es
    is_storable-float_to_decimal null = refl
    is_storable-float_to_decimal (truth b) = refl
    is_storable-float_to_decimal (text_value s) = refl
    is_storable-float_to_decimal (other s) = refl

    are_storable-floats_to_decimal :
        (vs : Values) → are_storable (floats_to_decimal convert vs) ≡ true
    are_storable-floats_to_decimal no_values = refl
    are_storable-floats_to_decimal (value v vs) =
        rw (is_storable-float_to_decimal v, are_storable-floats_to_decimal vs) refl

    entries_are_storable-entries_to_decimal :
        (es : Entries) → entries_are_storable (entries_to_decimal convert es) ≡ true
    entries_are_storable-entries_to_decimal no_entries = refl
    entries_are_storable-entries_to_decimal (entry k v es) =
        rw (is_storable-float_to_decimal v, entries_are_storable-entries_to_decimal es) refl

  -- Whatever Python makes of numbers, a row whose numbers were turned into floats is JSON exactly if
  -- it has no set and no bytes, at any depth; and a row that was turned back, as a restore writes
  -- it, has no float left, at any depth.
  pub is_json_row-row_to_float :
      (row : Row)
      → (is_json_row (row_to_float convert row) ≡ all_of (λ (k, v). is_plain v) row)
        × (all_of (λ (k, v). is_storable v) (row_to_decimal convert row) ≡ true)
  unfolding row_to_decimal row_to_float is_json_row
  is_json_row-row_to_float [] = (refl, refl)
  is_json_row-row_to_float ((k, v) ∷ row) =
      let (json, storable) = is_json_row-row_to_float row in
      (
        rw (is_json-decimal_to_float v, json) refl,
        rw (is_storable-float_to_decimal v, storable) refl,
      )
