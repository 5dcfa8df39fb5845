-- ===== src/Schema/Items/Accepted.antt =====
-- What an accepted item declares.
use package.text.Mathlib.TextEquality.{eq_iff}
use re_infra.Base.{
  String, ◌≡◌, refl, ap, inl, inr, true, false, ◌&&◌, not, Option, none, some, List, [], ◌∷◌, map,
  arith, ◌==◌, is_nil, All, Bool-cases, Option-cases,
}
use re_infra.Base.Dicts.{Dict, has_value}
use re_infra.Schema.Options.{Options}
use re_infra.Schema.Shape.{Gsi, projection_include}
use re_infra.Schema.Diff.Rebuild.{IsSound}
use re_infra.Schema.Items.{
  GsiSchema, Item, check_gsi, check_gsis, check_sort_key, check_item, or_else, put, put_all,
  shorthand, full_spec, expected_schema,
}

abbrev pub IsSoundEntry : String × Gsi → Type 0
IsSoundEntry (name, g) = IsSound g

put-IsSound :
    (name : String) (g : Gsi) (d : Dict Gsi)
    → IsSound g
    → All IsSoundEntry d
    → All IsSoundEntry (put name g d)
unfolding put
put-IsSound name g [] s h = (s, tt)
put-IsSound name g ((k, v) ∷ d) s h = elim (Bool-cases (k == name)) [
  | inl e ↦ rw e (s, h.1)
  | inr e ↦ rw e (h.0, put-IsSound name g d s h.1)
]

put_all-IsSound :
    (d more : Dict Gsi)
    → All IsSoundEntry d
    → All IsSoundEntry more
    → All IsSoundEntry (put_all d more)
unfolding put_all
put_all-IsSound d [] h k = h
put_all-IsSound d ((name, g) ∷ more) h k =
    put_all-IsSound (put name g d) more (put-IsSound name g d k.0 h) k.1

shorthand-IsSound : (gsis : Dict String) → All IsSoundEntry (map shorthand gsis)
shorthand-IsSound [] = tt
shorthand-IsSound ((attr, name) ∷ gsis) = (inr (refl, refl), shorthand-IsSound gsis)

include_given :
    (p : Option String) → has_value projection_include p ≡ true → p ≡ some projection_include
include_given none h = cc
include_given (some p) h = ap some ((eq_iff p projection_include).0 h)

-- The rules on projections that `check_gsi` enforces.
projection_rules :
    (fields : List String) (name : String) (g : GsiSchema)
    → check_gsi fields name g ≡ none
    → (has_value projection_include g.projection && is_nil g.non_key_attributes ≡ false)
      × (not (is_nil g.non_key_attributes) && not (has_value projection_include g.projection)
          ≡ false)
unfolding check_gsi
projection_rules fields name g h = ground arith

spec-IsSound :
    (g : GsiSchema) (names : List String)
    → g.non_key_attributes ≡ names
    → has_value projection_include g.projection && is_nil names ≡ false
    → not (is_nil names) && not (has_value projection_include g.projection) ≡ false
    → IsSound (full_spec ("", g)).1
spec-IsSound g [] e a b = inr (ground (arith, a), rw e refl)
spec-IsSound g (x ∷ xs) e a b =
    inl (x ∷ xs, refl, include_given g.projection (ground (arith, b)), rw e refl)

full_spec-IsSound :
    (fields : List String) (schemas : Dict GsiSchema)
    → check_gsis fields schemas ≡ none
    → All IsSoundEntry (map full_spec schemas)
unfolding check_gsis
full_spec-IsSound fields [] h = tt
full_spec-IsSound fields ((name, g) ∷ schemas) h = elim (Option-cases (check_gsi fields name g)) [
  | inl e ↦
      let (a, b) = projection_rules fields name g e in
      (spec-IsSound g g.non_key_attributes refl a b, full_spec-IsSound fields schemas (rw e at h))
  | inr (wrong, e) ↦ cc (rw e at h)
]

gsis_checked :
    (item : Item) → check_item item ≡ none → check_gsis item.model_fields item.gsi_schemas ≡ none
unfolding check_item
gsis_checked item h = elim (Option-cases (check_sort_key item.model_fields item.sort_key)) [
  | inl e ↦ ground (arith, (rw (e, check_item, or_else) at h))
  | inr (wrong, e) ↦ ground (arith, (rw (e, check_item, or_else) at h))
]

-- Every index that an accepted item declares has attributes exactly if its projection is INCLUDE.
pub expected_schema-IsSound :
    (item : Item) (options : Options)
    → check_item item ≡ none
    → All IsSoundEntry (expected_schema item options).gsis
unfolding expected_schema
expected_schema-IsSound item options h =
    put_all-IsSound _ _ (put_all-IsSound [] _ tt (shorthand-IsSound item.gsis))
      (full_spec-IsSound item.model_fields item.gsi_schemas (gsis_checked item h))
