-- ===== src/Schema/Sync/Convergence.antt =====
-- An index that was created as sync.py requests it, against its declaration.
use mathlib.Core.Option.{some-injective}
use re_infra.Base.{
  String, ◌≡◌, refl, ap, subst, sym, inl, inr, false, Option, none, some, List, ◌∷◌, ◌==◌, All,
  Bool-cases, Option-cases,
}
use re_infra.Base.Dicts.{has_value}
use re_infra.Schema.Findings.{Finding, is_conflict}
use re_infra.Schema.Shape.{
  KeySchema, Gsi, resolve_projection, attributes_or_none, KeyElement, hash, IndexRequest,
}
use re_infra.Schema.Diff.{diff_gsi}
use re_infra.Schema.Diff.Rebuild.{IsSound, rebuilt, diff_gsi-rebuilt}
use re_infra.Schema.Sync.{
  element, range_elements, key_schema_to_boto, create_gsi_request, parse_key_schema, parse_from,
  reported,
}

parse_range :
    (p : String) (s : Option String)
    → has_value "" s ≡ false
    → parse_key_schema (element p hash ∷ range_elements s)
      ≡ record { partition_key = some p; sort_key = s }
unfolding parse_key_schema parse_from
parse_range p none h = refl
parse_range p (some s) h = rw h refl

parse_sent :
    (o s : Option String) (elements : List KeyElement)
    → has_value "" s ≡ false
    → key_schema_to_boto (record { partition_key = o; sort_key = s }) ≡ some elements
    → parse_key_schema elements ≡ record { partition_key = o; sort_key = s }
unfolding key_schema_to_boto
parse_sent none s elements h e = cc
parse_sent (some p) s elements h e = elim (Bool-cases (p == "")) [
  | inl empty ↦ cc (rw empty at e)
  | inr filled ↦
      subst (λ es. parse_key_schema es ≡ record { partition_key = some p; sort_key = s })
        (some-injective _ elements (rw filled at e)) (parse_range p s h)
]

-- A key schema that can be sent is read back as it was, unless its sort key is empty.
parse_key_schema-key_schema_to_boto :
    (k : KeySchema) (elements : List KeyElement)
    → has_value "" k.sort_key ≡ false
    → key_schema_to_boto k ≡ some elements
    → parse_key_schema elements ≡ k
parse_key_schema-key_schema_to_boto k elements h e =
    parse_sent k.partition_key k.sort_key elements h e

module _ (name : String) (declared : Gsi) (live : Option Gsi) where
  reported_as :
      (elements : List KeyElement)
      → parse_key_schema elements ≡ declared.keys
      → reported (record { key_schema = elements; projection = resolve_projection declared live })
        ≡ rebuilt declared live
  unfolding reported
  reported_as elements e =
      ap
        (λ k. record {
          keys = k;
          projection = some (resolve_projection declared live).projection_type;
          non_key_attributes =
              attributes_or_none (resolve_projection declared live).non_key_attributes;
        })
        e

  -- An index that is created as `_create_gsi` requests it, whatever was live before, and read back
  -- as it was requested, is in no conflict with its declaration, if that is sound and its sort key
  -- is not the empty text.
  pub create_gsi_request-reported :
      (request : IndexRequest)
      → IsSound declared
      → has_value "" declared.keys.sort_key ≡ false
      → create_gsi_request declared live ≡ some request
      → All
          (λ (f : Finding). is_conflict f.severity ≡ false)
          (diff_gsi name declared (reported request))
  unfolding create_gsi_request
  create_gsi_request-reported request sound h e =
      elim (Option-cases (key_schema_to_boto declared.keys)) [
        | inl refused ↦ cc (rw (refused, create_gsi_request) at e)
        | inr (elements, sent) ↦
            let same = some-injective _ request (rw (sent, create_gsi_request) at e) in
            let back =
              reported_as elements
                (parse_key_schema-key_schema_to_boto declared.keys elements h sent) in
            subst
              (λ r.
                All (λ (f : Finding). is_conflict f.severity ≡ false)
                  (diff_gsi name declared (reported r)))
              same
              (subst
                (λ g.
                  All (λ (f : Finding). is_conflict f.severity ≡ false) (diff_gsi name declared g))
                (sym back) (diff_gsi-rebuilt name declared live sound))
      ]
