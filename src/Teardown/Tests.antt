-- ===== src/Teardown/Tests.antt =====
-- The teardown of a removed environment, on a concrete account.
use re_infra.Base.{[], ◌∷◌, All}
use re_infra.Teardown.{teardown}
use re_infra.Teardown.Safety.{IsTeardown, teardown-IsTeardown}
use re_infra.World.{world}

teardown-IsTeardown_example :
    All
      (IsTeardown "old" ("dev" ∷ "prod" ∷ "staging" ∷ []))
      (teardown world "old" ("dev" ∷ "prod" ∷ "staging" ∷ []) []).1
teardown-IsTeardown_example = teardown-IsTeardown world "old" ("dev" ∷ "prod" ∷ "staging" ∷ [])
