-- ===== src/Schema/Sync/Tests.antt =====
-- An index whose projection changed, and a table that is changed, on concrete schemas.
use re_infra.Base.{
  Exists, keep_if, ◌≡◌, refl, inl, true, false, ◌||◌, none, some, [], ◌∷◌, any_of, All,
}
use re_infra.Schema.Options.{
  deletion_protection, ttl_attribute, off, text, unmanaged, managed, Options,
}
use re_infra.Schema.Findings.{
  Severity, FindingKind, Remedy, Subject, Finding, Granted, is_conflict, is_recreate, is_actionable,
  is_automatable, is_permitted, required_permission, requires_action, actionable, blocked,
  unfixable,
}
use re_infra.Schema.Shape.{Gsi, resolve_projection, Expected, Actual}
use re_infra.Schema.Diff.{diff_gsi, diff_schemas}
use re_infra.Schema.Diff.Rebuild.{IsSound}
use re_infra.Schema.Diff.Recreates.{is_irreplaceable, is_on}
use re_infra.Schema.Sync.{element, hash, IndexRequest, create_gsi_request, reported, apply, decide}
use re_infra.Schema.Sync.Convergence.{create_gsi_request-reported}
use re_infra.Schema.Sync.Gate.{decide-apply}

abbrev declared_index : Gsi
declared_index = record {
  keys = record { partition_key = some "email"; sort_key = none };
  projection = some "INCLUDE";
  non_key_attributes = some ("phone" ∷ "name" ∷ "name" ∷ []);
}

abbrev live_index : Gsi
live_index = record {
  keys = record { partition_key = some "email"; sort_key = some "date" };
  projection = some "KEYS_ONLY";
  non_key_attributes = none;
}

abbrev request : IndexRequest
request = record {
  key_schema = element "email" hash ∷ [];
  projection = record { projection_type = "INCLUDE"; non_key_attributes = "name" ∷ "phone" ∷ [] };
}

-- The sort key of the live index is not asked for again.
requested : create_gsi_request declared_index (some live_index) ≡ some request
unfolding create_gsi_request resolve_projection
requested = refl

is_sound : IsSound declared_index
is_sound = inl ("phone" ∷ "name" ∷ "name" ∷ [], refl, refl, refl)

create_gsi_request-reported_example :
    All
      (λ (f : Finding). is_conflict f.severity ≡ false)
      (diff_gsi "by-email" declared_index (reported request))
create_gsi_request-reported_example =
    create_gsi_request-reported "by-email" declared_index (some live_index) request is_sound refl
      requested

abbrev with_ttl : Options
with_ttl ttl_attribute = managed (text "expiresAt")
with_ttl name = unmanaged

abbrev without_ttl : Options
without_ttl ttl_attribute = managed off
without_ttl name = unmanaged

abbrev declared : Expected
declared = record {
  key_schema = record { partition_key = some "id"; sort_key = none };
  gsis = [];
  attribute_types = [];
  options = with_ttl;
}

abbrev live : Actual
live = record {
  key_schema = record { partition_key = some "id"; sort_key = none };
  gsis = [];
  attribute_types = [];
  options = without_ttl;
  features = record {
    local_secondary_indexes = [];
    has_sse = false;
    replicated = [];
    has_on_demand_throughput = false;
  };
}

abbrev nothing_granted : Granted
nothing_granted permission = false

abbrev ttl_conflict : Finding
ttl_conflict = record {
  kind = FindingKind.conflicting_table_option;
  severity = Severity.conflict;
  remedy = Remedy.update_options;
  subject = Subject.option ttl_attribute;
}

decided :
    decide true nothing_granted (diff_schemas declared (some live)) ≡ apply (ttl_conflict ∷ [])
unfolding decide requires_action actionable blocked unfixable is_automatable is_permitted
    required_permission diff_schemas
decided = refl

decide-apply_example :
    (true ≡ true)
    × (ttl_conflict ∷ []
        ≡ keep_if (is_actionable nothing_granted) (diff_schemas declared (some live)))
    × All
        (λ (f : Finding). is_conflict f.severity ≡ true → Exists (λ g. f ≡ g) (ttl_conflict ∷ []))
        (diff_schemas declared (some live))
    × (any_of (λ (f : Finding). is_recreate f.remedy) (diff_schemas declared (some live)) ≡ true
        → (is_irreplaceable live || is_on (live.options deletion_protection)) ≡ false)
decide-apply_example = decide-apply declared live nothing_granted true (ttl_conflict ∷ []) decided
