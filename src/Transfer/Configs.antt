-- ===== src/Transfer/Configs.antt =====
-- src/rc_infra/transfer/dynamodb.py: the differences of two configurations. Reading a table's
-- configuration and arranging it is one call.
use re_infra.Base.{
  ℕ, suc, ◌+◌, String, ◌<>◌, Bool, true, false, Option, none, some, List, [], ◌∷◌, ◌++◌, ◌==◌,
  text_leb, if◌then◌else◌,
}
use re_infra.Base.Sorting.{sort_by}
use re_infra.Calls.{Config, leaf, dict, Fields, no_fields, field}
use re_infra.Schema.Shape.{distinct}
use re_infra.Transfer.{Diff}

abbrev field_names : Fields → List String
field_names no_fields = []
field_names (field name value fields) = name ∷ field_names fields

abbrev get_field : String → Fields → Option Config
get_field name no_fields = none
get_field name (field key value fields) = if key == name then some value else get_field name fields

-- How deep a configuration is nested, at most.
mutual
  pub depth : Config → ℕ
  depth (leaf value) = 1
  depth (dict fields) = suc (fields_depth fields)

  fields_depth : Fields → ℕ
  fields_depth no_fields = 1
  fields_depth (field name value fields) = depth value + fields_depth fields

-- `source == target`, where they are not both dicts.
abbrev same_leaf : Option Config → Option Config → Bool
same_leaf none none = true
same_leaf (some (leaf a)) (some (leaf b)) = a == b
same_leaf _ _ = false

abbrev leaf_diff : Bool → String → Option Config → Option Config → List Diff
leaf_diff blocking path source target =
    if same_leaf source target
    then []
    else record { path = path; source = source; target = target; blocking = blocking } ∷ []

abbrev sub_path : String → String → String
sub_path path name = if path == "" then name else path <> "." <> name

each_field : (String → List Diff) → List String → List Diff
each_field f [] = []
each_field f (name ∷ names) = f name ++ each_field f names

-- `diff`, down to a depth.
diff_within : ℕ → Bool → String → Option Config → Option Config → List Diff
unfolding each_field distinct sort_by
diff_within (suc n) blocking path (some (dict source)) (some (dict target)) =
    each_field
      (λ name.
        diff_within n blocking (sub_path path name) (get_field name source) (get_field name target))
      (sort_by text_leb (distinct (field_names source ++ field_names target)))
diff_within n blocking path source target = leaf_diff blocking path source target

unfoldable pub diff : Bool → Config → Config → List Diff
unfolding depth diff_within
diff blocking source target = diff_within (depth source) blocking "" (some source) (some target)
