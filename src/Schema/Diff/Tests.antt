-- ===== src/Schema/Diff/Tests.antt =====
-- A table whose key changed, on concrete schemas.
use re_infra.Base.{◌≡◌, refl, true, false, none, some, [], ◌∷◌, any_of, is_nil, All}
use re_infra.Schema.Options.{deletion_protection, flag, unmanaged, managed, Options}
use re_infra.Schema.Findings.{Finding, Granted, is_recreate, unfixable, requires_action}
use re_infra.Schema.Shape.{Gsi, Expected, Actual}
use re_infra.Schema.Diff.{diff_schemas, table_findings, shape_findings, key_findings}
use re_infra.Schema.Diff.Outcomes.{HasOutcome, diff_schemas-HasOutcome}
use re_infra.Schema.Diff.Recreates.{diff_schemas-recreate_refused}
use re_infra.Schema.Diff.Same.{IsDict, declared_as, diff_schemas-same}

abbrev gsi : Gsi
gsi = record {
  keys = record { partition_key = some "email"; sort_key = none };
  projection = some "INCLUDE";
  non_key_attributes = some ("name" ∷ []);
}

abbrev live_options : Options
live_options deletion_protection = managed (flag true)
live_options name = unmanaged

abbrev live : Actual
live = record {
  key_schema = record { partition_key = some "id"; sort_key = none };
  gsis = ("by-email", gsi) ∷ [];
  attribute_types = ("id", "S") ∷ ("email", "S") ∷ [];
  options = live_options;
  features = record {
    local_secondary_indexes = [];
    has_sse = false;
    replicated = [];
    has_on_demand_throughput = false;
  };
}

-- The sort key is new, and the index is not declared.
abbrev declared : Expected
declared = record {
  key_schema = record { partition_key = some "id"; sort_key = some "date" };
  gsis = [];
  attribute_types = ("id", "S") ∷ ("date", "S") ∷ [];
  options = λ name. unmanaged;
}

abbrev everything : Granted
everything permission = true

recreated :
    any_of (λ (f : Finding). is_recreate f.remedy) (diff_schemas declared (some live)) ≡ true
unfolding diff_schemas table_findings shape_findings key_findings
recreated = refl

diff_schemas-recreate_refused_example :
    is_nil (unfixable (diff_schemas declared (some live))) ≡ false
diff_schemas-recreate_refused_example = diff_schemas-recreate_refused declared live recreated refl

diff_schemas-HasOutcome_example : All (HasOutcome everything) (diff_schemas declared (some live))
diff_schemas-HasOutcome_example = diff_schemas-HasOutcome declared live everything

abbrev gsis_found : IsDict live.gsis
gsis_found = (refl, tt)

abbrev types_found : IsDict live.attribute_types
types_found = (refl, (refl, tt))

diff_schemas-same_example :
    requires_action everything (diff_schemas (declared_as live) (some live)) ≡ false
diff_schemas-same_example = diff_schemas-same live gsis_found types_found everything
