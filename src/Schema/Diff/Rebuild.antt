-- ===== src/Schema/Diff/Rebuild.antt =====
-- An index after it was rebuilt from its declaration.
use package.text.Mathlib.TextPositions.{eq_refl}
use package.text.Mathlib.TextEquality.{eq_iff}
use re_infra.Base.{
  String, ◌≡◌, refl, ◌∙◌, sym, subst, ◌⊎◌, inl, inr, Bool, true, false, Option, none, some, List,
  [], ◌∷◌, arith, ◌==◌, text_leb, if◌then◌else◌, is_nil, elem, All, Bool-cases,
}
use re_infra.Base.Dicts.{has_value}
use re_infra.Base.Sorting.{sort_by, any_of-sort_by}
use re_infra.Schema.Findings.{Finding, is_conflict}
use re_infra.Schema.Shape.{
  Gsi, same_text, same_set, is_subset, distinct, resolve_projection, projection_include,
  attributes_or_none, resolved_from, resolved_or_all, resolved_with,
}
use re_infra.Schema.Diff.{diff_gsi, projection_findings}
use re_infra.Schema.Diff.Same.{same_text_refl, sort_key_findings-same}

-- An INCLUDE index has attributes, any other index has none.
abbrev pub IsSound : Gsi → Type 0
IsSound g =
    ((names : List String) × (is_nil names ≡ false)
      × (g.projection ≡ some projection_include)
      × (g.non_key_attributes ≡ some names))
    ⊎ ((has_value projection_include g.projection ≡ false) × (g.non_key_attributes ≡ none))

-- The index that is live after it was created with the declared keys and the resolved projection.
abbrev pub rebuilt : Gsi → Option Gsi → Gsi
rebuilt declared live = record {
  keys = declared.keys;
  projection = some (resolve_projection declared live).projection_type;
  non_key_attributes = attributes_or_none (resolve_projection declared live).non_key_attributes;
}

elem-distinct : (x : String) (xs : List String) → elem x (distinct xs) ≡ elem x xs
unfolding distinct
elem-distinct x [] = refl
elem-distinct x (y ∷ ys) = elim (Bool-cases (elem y (distinct ys))) [
  | inl e ↦ elim (Bool-cases (y == x)) [
    | inl same ↦ let equal : y ≡ x = (eq_iff y x).0 same in rw (e, same) (rw equal at e)
    | inr other ↦ rw (e, other) (elem-distinct x ys)
  ]
  | inr e ↦ rw e (ground (arith, elem-distinct x ys))
]

is_subset_of :
    (xs ys : List String)
    → ((x : String) → elem x xs ≡ true → elem x ys ≡ true)
    → is_subset xs ys ≡ true
is_subset_of [] ys h = refl
is_subset_of (x ∷ xs) ys h =
    let first = h x (ground (arith, eq_refl x)) in
    let rest = is_subset_of xs ys (λ z e. h z (ground (arith, e))) in ground (arith, first, rest)

-- What is sent for INCLUDE has the declared attributes.
pub elem-sent :
    (x : String) (names : List String) → elem x (sort_by text_leb (distinct names)) ≡ elem x names
elem-sent x names =
    any_of-sort_by (λ other. other == x) text_leb (distinct names) ∙ elem-distinct x names

same_set_of :
    (names sent : List String)
    → ((x : String) → elem x sent ≡ elem x names)
    → is_nil names ≡ false
    → same_set (some names) (attributes_or_none sent) ≡ true
same_set_of [] sent same h = cc
same_set_of (y ∷ ys) [] same h = ground (arith, same y, eq_refl y)
same_set_of (y ∷ ys) (z ∷ zs) same h =
    rw
      (
        is_subset_of (y ∷ ys) (z ∷ zs) (λ x e. same x ∙ e),
        is_subset_of (z ∷ zs) (y ∷ ys) (λ x e. sym (same x) ∙ e),
        same_set,
      )
      refl

module _ (name : String) (declared : Gsi) (live : Option Gsi) where
  abbrev IsQuiet : Finding → Type 0
  IsQuiet f = is_conflict f.severity ≡ false

  if-IsQuiet : (b : Bool) (f : Finding) → IsQuiet f → All IsQuiet (if b then [] else f ∷ [])
  if-IsQuiet true f h = tt
  if-IsQuiet false f h = (h, tt)

  plain-IsQuiet :
      (p : Option String)
      → declared.projection ≡ p
      → has_value projection_include p ≡ false
      → declared.non_key_attributes ≡ none
      → All IsQuiet (projection_findings name declared (rebuilt declared live) p)
  unfolding projection_findings resolve_projection resolved_from resolved_or_all resolved_with
  plain-IsQuiet none e other k = if-IsQuiet _ _ refl
  plain-IsQuiet (some p) e other k =
      rw (e, k, eq_refl p, same_text, same_set, attributes_or_none) tt

  include-IsQuiet :
      (names : List String)
      → is_nil names ≡ false
      → declared.projection ≡ some projection_include
      → declared.non_key_attributes ≡ some names
      → All IsQuiet
          (projection_findings name declared (rebuilt declared live) (some projection_include))
  unfolding projection_findings resolve_projection resolved_from resolved_or_all resolved_with
  include-IsQuiet names filled e k =
      let agree =
        same_set_of names (sort_by text_leb (distinct names)) (λ x. elem-sent x names) filled in
      rw (e, k, agree) tt

  projection-IsQuiet :
      IsSound declared
      → All IsQuiet (projection_findings name declared (rebuilt declared live) declared.projection)
  projection-IsQuiet (inl (names, filled, e, k)) =
      subst (λ p. All IsQuiet (projection_findings name declared (rebuilt declared live) p)) (sym e)
        (include-IsQuiet names filled e k)
  projection-IsQuiet (inr (other, k)) = plain-IsQuiet declared.projection refl other k

  -- Once an index has been rebuilt from a sound declaration, whatever was live before, it is in no
  -- conflict with the declaration: the next deploy does not rebuild it again.
  pub diff_gsi-rebuilt :
      IsSound declared
      → All
          (λ (f : Finding). is_conflict f.severity ≡ false)
          (diff_gsi name declared (rebuilt declared live))
  unfolding diff_gsi
  diff_gsi-rebuilt sound =
      rw
        (
          same_text_refl declared.keys.partition_key,
          sort_key_findings-same name declared.keys.sort_key,
        )
        (projection-IsQuiet sound)
