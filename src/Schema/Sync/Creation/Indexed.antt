-- ===== src/Schema/Sync/Creation/Indexed.antt =====
-- What a new table is requested with: its attributes and its indexes.
use mathlib.Core.Option.{some-injective}
use re_infra.Base.{
  String, ◌≡◌, refl, ap, sym, subst, ◌∙◌, inl, inr, true, ◌||◌, not, Option, none, some, List, [],
  ◌∷◌, ◌++◌, map, elem, ◌==◌, eq_iff, if◌then◌else◌, is_some, keep_if, arith, Bool-cases,
  Option-cases,
}
use re_infra.Base.Dicts.{Dict, get, keys}
use re_infra.Aws.{Result, ok, err}
use re_infra.Action.Outcomes.{ok_injective}
use re_infra.Calls.{TableRequest}
use re_infra.Schema.Options.{Options}
use re_infra.Schema.Shape.{KeySchema, Gsi, hash, KeyElement, IndexRequest}
use re_infra.Schema.Diff.Rebuild.{elem-sent}
use re_infra.Schema.Sync.{element, range_elements, key_schema_to_boto, create_gsi_request}
use re_infra.Schema.Sync.Creation.{
  Table, key_name, key_names, index_key_names, attribute_definitions, create_gsis, with_index,
  index_requests, request_from, table_request,
}

abbrev pub element_names : List KeyElement → List String
element_names = map (λ (e : KeyElement). e.attribute_name)

-- The attributes that the keys of the requested indexes name.
abbrev pub index_names : Dict IndexRequest → List String
index_names [] = []
index_names ((name, request) ∷ requests) = element_names request.key_schema ++ index_names requests

keys-map : (names : List String) → keys {V = String} (map (λ name. (name, "S")) names) ≡ names
keys-map [] = refl
keys-map (name ∷ names) = rw (keys-map names) refl

names-range_elements :
    (sort_key : Option String) → element_names (range_elements sort_key) ≡ key_name sort_key
names-range_elements none = refl
names-range_elements (some s) = elim (Bool-cases (s == "")) [
  | inl e ↦ rw e refl
  | inr e ↦ rw e refl
]

names_sent :
    (pk sk : Option String) (es : List KeyElement)
    → key_schema_to_boto (record { partition_key = pk; sort_key = sk }) ≡ some es
    → element_names es ≡ key_names (record { partition_key = pk; sort_key = sk })
unfolding key_schema_to_boto key_names
names_sent none sk es h = cc
names_sent (some p) sk es h = elim (Bool-cases (p == "")) [
  | inl e ↦ cc (rw e at h)
  | inr e ↦
      subst (λ found. element_names found ≡ (if p == "" then [] else p ∷ []) ++ key_name sk)
        (some-injective (element p hash ∷ range_elements sk) es (rw e at h))
        (rw e (ap (◌∷◌ p) (names-range_elements sk)))
]

names-key_schema_to_boto :
    (k : KeySchema) (es : List KeyElement)
    → key_schema_to_boto k ≡ some es
    → element_names es ≡ key_names k
names-key_schema_to_boto k es h = names_sent k.partition_key k.sort_key es h

names-create_gsi_request :
    (declared : Gsi) (live : Option Gsi) (request : IndexRequest)
    → create_gsi_request declared live ≡ some request
    → element_names request.key_schema ≡ key_names declared.keys
unfolding create_gsi_request
names-create_gsi_request declared live request h =
    elim (Option-cases (key_schema_to_boto declared.keys)) [
      | inl e ↦ cc (rw (e, create_gsi_request) at h)
      | inr (es, e) ↦
          subst (λ (r : IndexRequest). element_names r.key_schema ≡ key_names declared.keys)
            (some-injective _ request (rw (e, create_gsi_request) at h))
            (names-key_schema_to_boto declared.keys es e)
    ]

-- Every index is requested, with its keys.
abbrev Requests : Dict Gsi → Dict IndexRequest → Type 0
Requests gsis requests = (index_names requests ≡ index_key_names gsis) × (keys requests ≡ keys gsis)

index_requests-Requests :
    (live gsis : Dict Gsi) (requests : Dict IndexRequest)
    → index_requests live gsis ≡ ok requests
    → Requests gsis requests
unfolding index_requests index_key_names
index_requests-Requests live [] requests h =
    subst (Requests []) (ok_injective [] requests h) (refl, refl)
index_requests-Requests live ((name, gsi) ∷ gsis) requests h =
    added (create_gsi_request gsi (get name live)) (index_requests live gsis)
      (names-create_gsi_request gsi (get name live)) (index_requests-Requests live gsis) h
  where
    added :
        (made : Option IndexRequest) (rest : Result (Dict IndexRequest))
        → ((r : IndexRequest) → made ≡ some r → element_names r.key_schema ≡ key_names gsi.keys)
        → ((more : Dict IndexRequest) → rest ≡ ok more → Requests gsis more)
        → with_index name made rest ≡ ok requests
        → Requests ((name, gsi) ∷ gsis) requests
    added none rest named more h = cc
    added (some r) (err e) named more h = cc
    added (some r) (ok rs) named more h =
        let (names, indexes) = more rs refl in
        subst (Requests ((name, gsi) ∷ gsis)) (ok_injective ((name, r) ∷ rs) requests h)
          (rw (named r refl, names) refl, rw indexes refl)

-- Dropping the live indexes that are declared drops no name.
found_key :
    (declared : Dict Gsi) (m n : String)
    → is_some (get m declared) ≡ true
    → (m == n) ≡ true
    → elem n (keys declared) ≡ true
found_key [] m n h e = cc
found_key ((k, gsi) ∷ declared) m n h e = elim (Bool-cases (k == m)) [
  | inl same ↦
      let here = subst (λ x. (x == n) ≡ true) (sym ((eq_iff k m).0 same)) e in ground (arith, here)
  | inr other ↦ let rest = found_key declared m n (rw other at h) e in ground (arith, rest)
]

elem-kept :
    (declared live : Dict Gsi) (n : String)
    → (elem n (keys declared)
        || elem n (keys (keep_if (λ (m, _). not (is_some (get m declared))) live)))
      ≡ (elem n (keys declared) || elem n (keys live))
elem-kept declared [] n = refl
elem-kept declared ((m, gsi) ∷ live) n = elim (Bool-cases (is_some (get m declared))) [
  | inl e ↦
      let same = found_key declared m n e in
      let rest = elem-kept declared live n in rw e (ground (arith, same, rest))
  | inr e ↦ let rest = elem-kept declared live n in rw e (ground (arith, rest))
]

elem-append :
    (n : String) (xs ys : Dict Gsi)
    → elem n (keys (xs ++ ys)) ≡ (elem n (keys xs) || elem n (keys ys))
elem-append n [] ys = refl
elem-append n ((k, v) ∷ xs) ys = let rest = elem-append n xs ys in ground (arith, rest)

-- A new table declares exactly the attributes that its own key and the keys of its indexes name,
-- which is what DynamoDB asks for; and it has an index exactly if one of that name is declared or
-- was live.
pub table_request-elem :
    (table : Table) (live : Dict Gsi) (tags : Dict String) (options : Options)
    (request : TableRequest) (name : String)
    → table_request table live tags options ≡ ok request
    → (elem name (keys request.attribute_definitions)
        ≡ elem name (element_names request.key_schema ++ index_names request.indexes))
      × (elem name (keys request.indexes)
          ≡ (elem name (keys table.expected.gsis) || elem name (keys live)))
unfolding table_request request_from attribute_definitions create_gsis
table_request-elem table live tags options request name h =
    requested (index_requests live (create_gsis table.expected.gsis live))
      (key_schema_to_boto table.expected.key_schema)
      (index_requests-Requests live (create_gsis table.expected.gsis live))
      (names-key_schema_to_boto table.expected.key_schema) h
  where
    Good : TableRequest → Type 0
    Good r =
        (elem name (keys r.attribute_definitions)
          ≡ elem name (element_names r.key_schema ++ index_names r.indexes))
        × (elem name (keys r.indexes)
            ≡ (elem name (keys table.expected.gsis) || elem name (keys live)))

    requested :
        (indexes : Result (Dict IndexRequest)) (elements : Option (List KeyElement))
        → ((rs : Dict IndexRequest)
            → indexes ≡ ok rs
            → Requests (create_gsis table.expected.gsis live) rs)
        → ((es : List KeyElement)
            → elements ≡ some es
            → element_names es ≡ key_names table.expected.key_schema)
        → request_from table tags options (create_gsis table.expected.gsis live) indexes elements
          ≡ ok request
        → Good request
    requested (err e) elements k n h = cc
    requested (ok rs) none k n h = cc
    requested (ok rs) (some es) k n h =
        let (names, indexes) = k rs refl in
        subst Good (ok_injective _ request h) (
          rw (keys-map _, n es refl, names) (elem-sent name _),
          rw indexes
              (elem-append name table.expected.gsis _ ∙ elem-kept table.expected.gsis live name),
        )
