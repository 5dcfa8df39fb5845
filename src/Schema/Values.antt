-- ===== src/Schema/Values.antt =====
-- python_packages/rc_dynamo/src/rc_dynamo/utils/numeric.py: the values of an item, and how their
-- numbers are turned into floats and back. What Python's float and Decimal make of a number's text
-- is a parameter.
pub mod Numbers
use re_infra.Base.{String, Bool, true, false, ◌&&◌, List, map, all_of}
use re_infra.Base.Dicts.{Dict}

-- A value of an item. `other` is a set or bytes, which JSON does not have.
mutual
  pub data Value : Type 0 where
    null : Value
    truth : Bool → Value
    text_value : String → Value
    decimal : String → Value
    float : String → Value
    other : String → Value
    sequence : Values → Value
    mapping : Entries → Value

  pub data Values : Type 0 where
    no_values : Values
    value : Value → Values → Values

  pub data Entries : Type 0 where
    no_entries : Entries
    entry : String → Value → Entries → Entries

abbrev pub Row : Type 0
Row = Dict Value

-- `float(d)`, and `Decimal(str(f))`.
pub record Conversion : Type 0 where
  pub to_float : String → String
  pub to_decimal : String → String

module _ (convert : Conversion) where
  unfoldable mutual
    pub decimal_to_float : Value → Value
    decimal_to_float (decimal d) = float (convert.to_float d)
    decimal_to_float (sequence vs) = sequence (decimals_to_float vs)
    decimal_to_float (mapping es) = mapping (entries_to_float es)
    decimal_to_float v = v

    pub decimals_to_float : Values → Values
    decimals_to_float no_values = no_values
    decimals_to_float (value v vs) = value (decimal_to_float v) (decimals_to_float vs)

    pub entries_to_float : Entries → Entries
    entries_to_float no_entries = no_entries
    entries_to_float (entry k v es) = entry k (decimal_to_float v) (entries_to_float es)

  unfoldable mutual
    pub float_to_decimal : Value → Value
    float_to_decimal (float f) = decimal (convert.to_decimal f)
    float_to_decimal (sequence vs) = sequence (floats_to_decimal vs)
    float_to_decimal (mapping es) = mapping (entries_to_decimal es)
    float_to_decimal v = v

    pub floats_to_decimal : Values → Values
    floats_to_decimal no_values = no_values
    floats_to_decimal (value v vs) = value (float_to_decimal v) (floats_to_decimal vs)

    pub entries_to_decimal : Entries → Entries
    entries_to_decimal no_entries = no_entries
    entries_to_decimal (entry k v es) = entry k (float_to_decimal v) (entries_to_decimal es)

  unfoldable pub row_to_float : Row → Row
  unfolding decimal_to_float
  row_to_float = map (λ (k, v). (k, decimal_to_float v))

  unfoldable pub row_to_decimal : Row → Row
  unfolding float_to_decimal
  row_to_decimal = map (λ (k, v). (k, float_to_decimal v))

-- Whether `json.dumps` takes the value.
unfoldable mutual
  pub is_json : Value → Bool
  is_json (decimal d) = false
  is_json (other s) = false
  is_json (sequence vs) = are_json vs
  is_json (mapping es) = entries_are_json es
  is_json v = true

  pub are_json : Values → Bool
  are_json no_values = true
  are_json (value v vs) = is_json v && are_json vs

  pub entries_are_json : Entries → Bool
  entries_are_json no_entries = true
  entries_are_json (entry k v es) = is_json v && entries_are_json es

unfoldable pub is_json_row : Row → Bool
unfolding is_json
is_json_row = all_of (λ (k, v). is_json v)
