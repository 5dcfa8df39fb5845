-- ===== src/Schema/Items/Tests.antt =====
-- An item with two indexes.
use re_infra.Base.{◌≡◌, refl, none, some, [], ◌∷◌, All}
use re_infra.Schema.Options.{Options, unmanaged}
use re_infra.Schema.Items.{GsiSchema, Item, include_without_attributes, check_item, expected_schema}
use re_infra.Schema.Items.Accepted.{IsSoundEntry, expected_schema-IsSound}

abbrev by_email : GsiSchema
by_email = record {
  unknown_keys = [];
  partition_key = some "email";
  sort_key = none;
  projection = some "INCLUDE";
  non_key_attributes = "name" ∷ [];
}

abbrev item : Item
item = record {
  model_fields = "id" ∷ "email" ∷ "name" ∷ [];
  partition_key = "id";
  sort_key = none;
  gsis = ("name", "by-name") ∷ [];
  gsi_schemas = ("by-email", by_email) ∷ [];
  attribute_types = [];
}

abbrev options : Options
options name = unmanaged

accepted : check_item item ≡ none
unfolding check_item
accepted = refl

without_attributes :
    check_item
      (record item { gsi_schemas = ("by-email", record by_email { non_key_attributes = [] }) ∷ [] })
    ≡ some (include_without_attributes "by-email")
unfolding check_item
without_attributes = refl

expected_schema-IsSound_example : All IsSoundEntry (expected_schema item options).gsis
expected_schema-IsSound_example = expected_schema-IsSound item options accepted
