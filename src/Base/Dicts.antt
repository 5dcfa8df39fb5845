-- ===== src/Base/Dicts.antt =====
-- Dicts with text keys, as association lists in insertion order.
use re_infra.Base.Tests.{if◌then◌else◌}
use Prim.Native.String.{String}
use mathlib.Core.Bool.{Bool, false}
use mathlib.Core.Option.{Option, none, some}
use mathlib.Core.List.{List, [], ◌∷◌, map}
use text.Mathlib.Text.{◌==◌}

abbrev pub Dict {ℓ} : Type ℓ → Type ℓ
Dict V = List (String × V)

-- `found == value`, for a value that was looked up.
abbrev pub has_value : String → Option String → Bool
has_value value none = false
has_value value (some found) = found == value

module _ {ℓ} {V : Type ℓ} where
  -- `d.get(key)`
  abbrev pub get : String → Dict V → Option V
  get key [] = none
  get key ((k, v) ∷ d) = if k == key then some v else get key d

  abbrev pub keys : Dict V → List String
  keys = map (λ (k, _). k)
