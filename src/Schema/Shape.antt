-- ===== src/Schema/Shape.antt =====
-- The shape of a table: the schemas that python_packages/rc_dynamo/src/rc_dynamo/base_table.py
-- declares and reads, how diff.py of its folder schema compares their parts, and the projection
-- that an index is created with.
use re_infra.Base.{
  String, Bool, true, false, ◌&&◌, Option, none, some, List, [], ◌∷◌, ◌==◌, text_leb, if◌then◌else◌,
  all_of, elem,
}
use re_infra.Base.Dicts.{Dict}
use re_infra.Base.Sorting.{sort_by}
use re_infra.Schema.Options.{Options}

abbrev pub projection_all : String
projection_all = "ALL"

abbrev pub projection_include : String
projection_include = "INCLUDE"

pub record KeySchema : Type 0 where
  pub partition_key : Option String
  pub sort_key : Option String

pub record Gsi : Type 0 where
  pub keys : KeySchema
  pub projection : Option String
  pub non_key_attributes : Option (List String)

-- `expected_schema()`
pub record Expected : Type 0 where
  pub key_schema : KeySchema
  pub gsis : Dict Gsi
  pub attribute_types : Dict String
  pub options : Options

-- Encryption and limits matter only by whether they are there.
pub record Features : Type 0 where
  pub local_secondary_indexes : Dict Gsi
  pub has_sse : Bool
  pub replicated : List String
  pub has_on_demand_throughput : Bool

-- `actual_schema()`
pub record Actual : Type 0 where
  pub key_schema : KeySchema
  pub gsis : Dict Gsi
  pub attribute_types : Dict String
  pub options : Options
  pub features : Features

abbrev pub same_text : Option String → Option String → Bool
same_text none none = true
same_text (some a) (some b) = a == b
same_text _ _ = false

abbrev pub same_keys : KeySchema → KeySchema → Bool
same_keys a b = same_text a.partition_key b.partition_key && same_text a.sort_key b.sort_key

abbrev pub is_subset : List String → List String → Bool
is_subset a b = all_of (λ x. elem x b) a

-- Non-key attributes are compared as sets.
abbrev pub same_set : Option (List String) → Option (List String) → Bool
same_set none none = true
same_set (some a) (some b) = is_subset a b && is_subset b a
same_set _ _ = false

-- `sorted(frozenset(names))`
unfoldable pub distinct : List String → List String
distinct [] = []
distinct (x ∷ xs) = let rest = distinct xs in if elem x rest then rest else x ∷ rest

-- An empty list of attributes is None.
abbrev pub attributes_or_none : List String → Option (List String)
attributes_or_none [] = none
attributes_or_none (x ∷ xs) = some (x ∷ xs)

-- The projection that is sent to DynamoDB.
pub record Resolved : Type 0 where
  pub projection_type : String
  pub non_key_attributes : List String

-- `INCLUDE` with a set that is not empty carries it, sorted.
unfoldable pub resolved_with : String → Option (List String) → Resolved
unfolding distinct sort_by
resolved_with projection none = record { projection_type = projection; non_key_attributes = [] }
resolved_with projection (some names) = record {
  projection_type = projection;
  non_key_attributes =
      if projection == projection_include then sort_by text_leb (distinct names) else [];
}

unfoldable pub resolved_or_all : Option String → Option (List String) → Resolved
unfolding resolved_with
resolved_or_all none names = resolved_with projection_all none
resolved_or_all (some projection) names = resolved_with projection names

unfoldable pub resolved_from : Option String → Option (List String) → Option Gsi → Resolved
unfolding resolved_or_all
resolved_from none names (some live) = resolved_or_all live.projection live.non_key_attributes
resolved_from projection names live = resolved_or_all projection names

-- Declared wins, otherwise the live one is kept; ALL only for a new index.
unfoldable pub resolve_projection : Gsi → Option Gsi → Resolved
unfolding resolved_from
resolve_projection declared live =
    resolved_from declared.projection declared.non_key_attributes live

pub data KeyType : Type 0 where
  hash range : KeyType

-- An entry of a key schema of DynamoDB.
pub record KeyElement : Type 0 where
  pub attribute_name : String
  pub key_type : KeyType

-- What an index is created with.
pub record IndexRequest : Type 0 where
  pub key_schema : List KeyElement
  pub projection : Resolved
