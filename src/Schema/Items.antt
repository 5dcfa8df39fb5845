-- ===== src/Schema/Items.antt =====
-- The declarations that schemas are made of: the checks of
-- python_packages/rc_dynamo/src/rc_dynamo/base_item.py, and `expected_schema` of base_table.py.
pub mod Accepted
pub mod Tests
use re_infra.Base.{
  String, Bool, true, false, ◌&&◌, ◌||◌, not, Option, none, some, List, [], ◌∷◌, ◌++◌, map, ◌==◌,
  if◌then◌else◌, is_nil, keep_if, elem,
}
use re_infra.Base.Dicts.{Dict, has_value}
use re_infra.Schema.Options.{Options}
use re_infra.Schema.Shape.{attributes_or_none, KeySchema, Gsi, Expected}

-- An entry of `gsi_schemas`. `unknown_keys` are its keys outside the supported ones; attributes
-- that are absent, None or empty are the empty list.
pub record GsiSchema : Type 0 where
  pub unknown_keys : List String
  pub partition_key : Option String
  pub sort_key : Option String
  pub projection : Option String
  pub non_key_attributes : List String

pub record Item : Type 0 where
  pub model_fields : List String
  pub partition_key : String
  pub sort_key : Option String
  pub gsis : Dict String
  pub gsi_schemas : Dict GsiSchema
  pub attribute_types : Dict String

-- What a TypeError reports.
pub data ItemError : Type 0 where
  no_partition_key : ItemError
  unknown_field : String → ItemError
  unknown_gsi_fields : List String → ItemError
  unknown_gsi_keys : String → List String → ItemError
  no_gsi_partition_key : String → ItemError
  unknown_schema_fields : String → List String → ItemError
  bad_projection : String → String → ItemError
  include_without_attributes : String → ItemError
  attributes_without_include : String → ItemError

-- _PROJECTION_TYPES
abbrev pub projection_types : List String
projection_types = "ALL" ∷ "KEYS_ONLY" ∷ "INCLUDE" ∷ []

-- `not value` for a text or None.
abbrev pub is_falsy : Option String → Bool
is_falsy none = true
is_falsy (some s) = s == ""

abbrev pub given : Option String → List String
given none = []
given (some s) = s ∷ []

abbrev pub is_bad_projection : Option String → Bool
is_bad_projection none = false
is_bad_projection (some p) = not (elem p projection_types)

abbrev pub shown : Option String → String
shown none = "None"
shown (some s) = s

-- One round of the loop over `gsi_schemas`.
pub check_gsi : List String → String → GsiSchema → Option ItemError
check_gsi fields name g =
    let unknown = keep_if (λ f. not (elem f fields)) (given g.partition_key ++ given g.sort_key) in
    if not (is_nil g.unknown_keys)
    then some (unknown_gsi_keys name g.unknown_keys)
    else if is_falsy g.partition_key
    then some (no_gsi_partition_key name)
    else if not (is_nil unknown)
    then some (unknown_schema_fields name unknown)
    else if is_bad_projection g.projection
    then some (bad_projection name (shown g.projection))
    else if has_value "INCLUDE" g.projection && is_nil g.non_key_attributes
    then some (include_without_attributes name)
    else if not (is_nil g.non_key_attributes) && not (has_value "INCLUDE" g.projection)
    then some (attributes_without_include name)
    else none

abbrev or_else : Option ItemError → Option ItemError → Option ItemError
or_else none later = later
or_else (some e) later = some e

check_gsis : List String → Dict GsiSchema → Option ItemError
unfolding check_gsi
check_gsis fields [] = none
check_gsis fields ((name, g) ∷ rest) = or_else (check_gsi fields name g) (check_gsis fields rest)

check_sort_key : List String → Option String → Option ItemError
check_sort_key fields none = none
check_sort_key fields (some s) = if elem s fields then none else some (unknown_field s)

-- `__pydantic_init_subclass__`: the error with which a class is refused, if it is.
unfoldable pub check_item : Item → Option ItemError
unfolding check_gsis check_sort_key
check_item item =
    let unknown =
      keep_if (λ f. not (elem f item.model_fields)) (map (λ (attr, _). attr) item.gsis) in
    if item.partition_key == ""
    then some no_partition_key
    else if not (elem item.partition_key item.model_fields)
    then some (unknown_field item.partition_key)
    else or_else (check_sort_key item.model_fields item.sort_key) (
        if not (is_nil unknown)
        then some (unknown_gsi_fields unknown)
        else check_gsis item.model_fields item.gsi_schemas)

module _ {V : Type 0} where
  -- `d[key] = value`: a key that is there keeps its place.
  unfoldable pub put : String → V → Dict V → Dict V
  put key value [] = (key, value) ∷ []
  put key value ((k, v) ∷ d) =
      let rest = put key value d in if k == key then (k, value) ∷ d else (k, v) ∷ rest

  unfoldable pub put_all : Dict V → Dict V → Dict V
  unfolding put
  put_all d [] = d
  put_all d ((key, value) ∷ more) = put_all (put key value d) more

-- An index of the shorthand has a partition key only.
abbrev pub shorthand : String × String → String × Gsi
shorthand (attr, name) = (
  name,
  record {
    keys = record { partition_key = some attr; sort_key = none };
    projection = none;
    non_key_attributes = none;
  },
)

abbrev pub full_spec : String × GsiSchema → String × Gsi
full_spec (name, g) = (
  name,
  record {
    keys = record { partition_key = g.partition_key; sort_key = g.sort_key };
    projection = g.projection;
    non_key_attributes = attributes_or_none g.non_key_attributes;
  },
)

abbrev truthy : Option String → List String
truthy none = []
truthy (some s) = if s == "" then [] else s ∷ []

key_names : KeySchema → List String
key_names k = truthy k.partition_key ++ truthy k.sort_key

gsi_key_names : Dict Gsi → List String
unfolding key_names
gsi_key_names [] = []
gsi_key_names ((name, g) ∷ rest) = key_names g.keys ++ gsi_key_names rest

abbrev as_text_key : String → String × String
as_text_key name = (name, "S")

unfoldable pub expected_schema : Item → Options → Expected
unfolding put_all key_names gsi_key_names
expected_schema item options =
    let keys : KeySchema = record {
      partition_key = some item.partition_key;
      sort_key = item.sort_key;
    } in
    let gsis = put_all (put_all [] (map shorthand item.gsis)) (map full_spec item.gsi_schemas) in
    record {
      key_schema = keys;
      gsis = gsis;
      attribute_types =
          put_all (put_all [] (map as_text_key (key_names keys ++ gsi_key_names gsis)))
            item.attribute_types;
      options = options;
    }
